-- ===== src/Workflow/Values.antt =====
-- The values that the reader of scripts/release-audit.py gives, as Python has them: `None`, `bool`, `str`,
-- `list` and `dict`, with the order of insertion, and the tuple that `ast.literal_eval` makes of a scalar such as
-- `'a', 'b'`. Within such a tuple there may be any other literal value (a number, bytes, a set, ...): it is
-- known by whether it has a hash, and by a number that tells unequal ones apart.
use rpmz.Base.{
  ℕ, Bool, true, false, not, ◌&&◌, ◌||◌, Option, none, some, List, [], ◌∷◌, ◌==◌, if◌then◌else◌,
  length, Text, text_eq,
}

mutual
  pub data Value : Type 0 where
    null : Value
    boolean : Bool → Value
    text : Text → Value
    items : Items → Value
    mapping : Fields → Value
    tuple : Items → Value
    other_literal : Bool → ℕ → Value

  pub data Items : Type 0 where
    nil : Items
    cons : Value → Items → Items

  pub data Fields : Type 0 where
    end : Fields
    field : Text → Value → Fields → Fields

-- `value[key]`, where the key is there
unfoldable pub lookup : Text → Fields → Option Value
unfolding text_eq
lookup key end = none
lookup key (field k v fs) = if text_eq key k then some v else lookup key fs

-- `key in fields`
unfoldable pub has_key : Text → Fields → Bool
unfolding text_eq
has_key key end = false
has_key key (field k v fs) = text_eq key k || has_key key fs

unfoldable pub keys : Fields → List Text
keys end = []
keys (field k v fs) = k ∷ keys fs

-- `fields[key] = value` for a key that is not there
unfoldable pub add : Text → Value → Fields → Fields
add key v end = field key v end
add key v (field k w fs) = field k w (add key v fs)

-- `result.append(value)`
unfoldable pub append : Value → Items → Items
append v nil = cons v nil
append v (cons w xs) = cons w (append v xs)

-- `left == right`; two dicts are equal whatever their order, given that the keys of each are distinct.
unfoldable mutual
  unfolding lookup

  pub value_eq : Value → Value → Bool
  value_eq null null = true
  value_eq (boolean true) (boolean b) = b
  value_eq (boolean false) (boolean b) = not b
  value_eq (text s) (text t) = text_eq s t
  value_eq (items xs) (items ys) = items_eq xs ys
  value_eq (mapping fs) (mapping gs) = length (keys fs) == length (keys gs) && fields_within fs gs
  value_eq (tuple xs) (tuple ys) = items_eq xs ys
  value_eq (other_literal true m) (other_literal true n) = m == n
  value_eq (other_literal false m) (other_literal false n) = m == n
  value_eq _ _ = false

  pub items_eq : Items → Items → Bool
  items_eq nil nil = true
  items_eq (cons x xs) (cons y ys) = value_eq x y && items_eq xs ys
  items_eq _ _ = false

  -- Each field of the first dict stands in the second with an equal value.
  pub fields_within : Fields → Fields → Bool
  fields_within end gs = true
  fields_within (field k v fs) gs =
      elim (lookup k gs) [ none ↦ false | some w ↦ value_eq v w ] && fields_within fs gs
