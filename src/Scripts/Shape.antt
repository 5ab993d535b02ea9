-- ===== src/Scripts/Shape.antt =====
-- `ast_shape` of scripts/release-audit.py.
use rpmz.Base.{◌≡◌, refl, ap, Bool, true, false, ◌&&◌, and-true, any, Text, text_eq, text_eq_iff}
use rpmz.Scripts.Syntax.{
  Literal, text, other_value, constant, name, list, attribute, binop, call, joined, formatted, Tree,
  node, Forest, none_left, tree, trees, is_keyword,
}

-- What `ast_shape` gives; \`unsupported\` less the name of the type.
mutual
  pub data Shape : Type 0 where
    a_constant : Literal → Shape
    a_name : Text → Shape
    sequence : Shapes → Shape
    an_attribute : Shape → Text → Shape
    a_binop : Text → Shape → Shape → Shape
    a_call : Text → Shapes → Shape
    fstring : Shapes → Shape
    a_formatted : Shape → Shape
    unsupported_call : Shape
    unsupported_formatted : Shape
    unsupported : Shape

  pub data Shapes : Type 0 where
    no_shape : Shapes
    shape : Shape → Shapes → Shapes

unfoldable mutual
  pub ast_shape : Tree → Shape
  ast_shape (node (constant v) ts) = a_constant v
  ast_shape (node (name t) ts) = a_name t
  ast_shape (node list ts) = sequence (ast_shapes ts)
  ast_shape (node (attribute attr) (tree v none_left)) = an_attribute (ast_shape v) attr
  ast_shape (node (binop op) (tree l (tree r none_left))) = a_binop op (ast_shape l) (ast_shape r)
  ast_shape (node call (tree f ts)) = call_shape f (any is_keyword (trees ts)) (ast_shapes ts)
  ast_shape (node joined ts) = fstring (ast_shapes ts)
  ast_shape (node (formatted true) (tree v ts)) = a_formatted (ast_shape v)
  ast_shape (node (formatted false) ts) = unsupported_formatted
  ast_shape _ = unsupported

  pub ast_shapes : Forest → Shapes
  ast_shapes none_left = no_shape
  ast_shapes (tree t ts) = shape (ast_shape t) (ast_shapes ts)

  -- The shape of a call, given what is called, whether there are keywords, and the arguments.
  pub call_shape : Tree → Bool → Shapes → Shape
  call_shape (node (name f) us) false arguments = a_call f arguments
  call_shape _ _ arguments = unsupported_call

abbrev pub literal_eq : Literal → Literal → Bool
literal_eq (text s) (text t) = text_eq s t
literal_eq (other_value s) (other_value t) = text_eq s t
literal_eq _ _ = false

-- `left == right` of two shapes
unfoldable mutual
  unfolding text_eq

  pub shape_eq : Shape → Shape → Bool
  shape_eq (a_constant v) (a_constant w) = literal_eq v w
  shape_eq (a_name s) (a_name t) = text_eq s t
  shape_eq (sequence ss) (sequence ts) = shapes_eq ss ts
  shape_eq (an_attribute s a) (an_attribute t b) = shape_eq s t && text_eq a b
  shape_eq (a_binop o s s') (a_binop p t t') = text_eq o p && shape_eq s t && shape_eq s' t'
  shape_eq (a_call f ss) (a_call g ts) = text_eq f g && shapes_eq ss ts
  shape_eq (fstring ss) (fstring ts) = shapes_eq ss ts
  shape_eq (a_formatted s) (a_formatted t) = shape_eq s t
  shape_eq unsupported_call unsupported_call = true
  shape_eq unsupported_formatted unsupported_formatted = true
  shape_eq unsupported unsupported = true
  shape_eq _ _ = false

  pub shapes_eq : Shapes → Shapes → Bool
  shapes_eq no_shape no_shape = true
  shapes_eq (shape s ss) (shape t ts) = shape_eq s t && shapes_eq ss ts
  shapes_eq _ _ = false

literal_eq_sound : (v w : Literal) → literal_eq v w ≡ true → v ≡ w
literal_eq_sound (text s) (text t) h = ap text ((text_eq_iff s t).0 h)
literal_eq_sound (other_value s) (other_value t) h = ap other_value ((text_eq_iff s t).0 h)
literal_eq_sound (text s) (other_value t) h = cc
literal_eq_sound (other_value s) (text t) h = cc

-- Shapes that are compared as equal are equal.
mutual
  unfolding shape_eq

  pub shape_eq_sound : (s t : Shape) → shape_eq s t ≡ true → s ≡ t
  shape_eq_sound (a_constant v) (a_constant w) h = ap a_constant (literal_eq_sound v w h)
  shape_eq_sound (a_name s) (a_name t) h = ap a_name ((text_eq_iff s t).0 h)
  shape_eq_sound (sequence ss) (sequence ts) h = ap sequence (shapes_eq_sound ss ts h)
  shape_eq_sound (an_attribute s a) (an_attribute t b) h =
      let parts = and-true (shape_eq s t) (text_eq a b) h in
      cc (shape_eq_sound s t parts.0, (text_eq_iff a b).0 parts.1)
  shape_eq_sound (a_binop o s s') (a_binop p t t') h =
      let parts = and-true (text_eq o p && shape_eq s t) (shape_eq s' t') h in
      let front = and-true (text_eq o p) (shape_eq s t) parts.0 in
      cc ((text_eq_iff o p).0 front.0, shape_eq_sound s t front.1, shape_eq_sound s' t' parts.1)
  shape_eq_sound (a_call f ss) (a_call g ts) h =
      let parts = and-true (text_eq f g) (shapes_eq ss ts) h in
      cc ((text_eq_iff f g).0 parts.0, shapes_eq_sound ss ts parts.1)
  shape_eq_sound (fstring ss) (fstring ts) h = ap fstring (shapes_eq_sound ss ts h)
  shape_eq_sound (a_formatted s) (a_formatted t) h = ap a_formatted (shape_eq_sound s t h)
  shape_eq_sound unsupported_call unsupported_call h = refl
  shape_eq_sound unsupported_formatted unsupported_formatted h = refl
  shape_eq_sound unsupported unsupported h = refl
  shape_eq_sound _ _ h = cc

  shapes_eq_sound : (ss ts : Shapes) → shapes_eq ss ts ≡ true → ss ≡ ts
  shapes_eq_sound no_shape no_shape h = refl
  shapes_eq_sound (shape s ss) (shape t ts) h =
      let parts = and-true (shape_eq s t) (shapes_eq ss ts) h in
      cc (shape_eq_sound s t parts.0, shapes_eq_sound ss ts parts.1)
  shapes_eq_sound _ _ h = cc
