-- ===== src/Workflow/Distinct.antt =====
-- Values in which the keys of every dict are distinct, as Python has them.
use rpmz.Base.{◌≡◌, refl, ◌∙◌, false, ◌||◌, arith, Text, text_eq, text_eq_iff}
use rpmz.Workflow.Values.{
  Value, null, boolean, text, items, mapping, tuple, other_literal, Items, nil, cons, Fields, end,
  field, has_key, add, append,
}

unfoldable mutual
  pub IsDistinct : Value → Type 0
  IsDistinct null = Unit
  IsDistinct (boolean b) = Unit
  IsDistinct (text t) = Unit
  IsDistinct (items xs) = AllDistinct xs
  IsDistinct (mapping fs) = KeysDistinct fs
  IsDistinct (tuple xs) = AllDistinct xs
  IsDistinct (other_literal hashable n) = Unit

  pub AllDistinct : Items → Type 0
  AllDistinct nil = Unit
  AllDistinct (cons v xs) = IsDistinct v × AllDistinct xs

  pub KeysDistinct : Fields → Type 0
  KeysDistinct end = Unit
  KeysDistinct (field k v fs) = (has_key k fs ≡ false) × IsDistinct v × KeysDistinct fs

pub empty-IsDistinct : IsDistinct (mapping end)
unfolding IsDistinct
empty-IsDistinct = tt

has_key-add :
    (k key : Text) (v : Value) (fs : Fields)
    → has_key k (add key v fs) ≡ (has_key k fs || text_eq k key)
unfolding has_key add
has_key-add k key v end = ground arith
has_key-add k key v (field j w fs) = ground (arith, has_key-add k key v fs)

pub add-KeysDistinct :
    (key : Text) (v : Value) (fs : Fields)
    → has_key key fs ≡ false
    → IsDistinct v
    → KeysDistinct fs
    → KeysDistinct (add key v fs)
unfolding IsDistinct add
add-KeysDistinct key v end h d ds = (unfold has_key in refl, d, tt)
add-KeysDistinct key v (field k w fs) h d ds = (
  has_key-add k key v fs
      ∙ unfold has_key in ground (arith, h, ds.0, text_eq_iff k key, text_eq_iff key k),
  ds.1,
  add-KeysDistinct key v fs (unfold has_key in ground (arith, h)) d ds.2,
)

pub append-AllDistinct :
    (v : Value) (xs : Items) → IsDistinct v → AllDistinct xs → AllDistinct (append v xs)
unfolding IsDistinct append
append-AllDistinct v nil d ds = (d, tt)
append-AllDistinct v (cons x xs) d ds = (ds.0, append-AllDistinct v xs d ds.1)
