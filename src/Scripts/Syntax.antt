-- ===== src/Scripts/Syntax.antt =====
-- The syntax trees of Python, as far as scripts/release-audit.py looks into them. Nodes that it never looks
-- at (contexts, operators, aliases) are left out.
use rpmz.Base.{Bool, true, false, Option, none, some, List, [], ◌∷◌, Text}

pub data Literal : Type 0 where
  text : Text → Literal
  other_value : Text → Literal

-- `name` and `asname`
abbrev pub Alias : Type 0
Alias = Text × Option Text

-- What a node is, less its children. The children of a call are what is called, the arguments and the
-- keywords; those of an attribute its value; those of a formatted value the value and the format, if any,
-- and its flag says that it has neither conversion nor format.
pub data Label : Type 0 where
  constant : Literal → Label
  name : Text → Label
  list : Label
  attribute : Text → Label
  binop : Text → Label
  call : Label
  joined : Label
  formatted : Bool → Label
  keyword : Option Text → Label
  import_names : List Alias → Label
  import_from : Option Text → List Alias → Label
  function : Text → Label
  async_function : Text → Label
  module_body : Label
  -- any other node, by the name of its class
  other : Text → Label

mutual
  pub data Tree : Type 0 where
    node : Label → Forest → Tree

  pub data Forest : Type 0 where
    none_left : Forest
    tree : Tree → Forest → Forest

abbrev pub label : Tree → Label
label (node l ts) = l

abbrev pub trees : Forest → List Tree
trees none_left = []
trees (tree t ts) = t ∷ trees ts

abbrev pub forest : List Tree → Forest
forest [] = none_left
forest (t ∷ ts) = tree t (forest ts)

-- `ast.iter_child_nodes`
abbrev pub children : Tree → List Tree
children (node l ts) = trees ts

abbrev pub is_keyword : Tree → Bool
is_keyword (node (keyword arg) ts) = true
is_keyword _ = false

-- `call.func`
unfoldable pub func : Tree → Option Tree
func (node call (tree f ts)) = some f
func _ = none

abbrev positional : List Tree → List Tree
positional [] = []
positional (t ∷ ts) = elim (is_keyword t) [ true ↦ positional ts | false ↦ t ∷ positional ts ]

-- `call.args`
unfoldable pub args : Tree → List Tree
args (node call (tree f ts)) = positional (trees ts)
args _ = []

abbrev keyword_args : List Tree → List (Option Text)
keyword_args [] = []
keyword_args (node (keyword arg) ts ∷ rest) = arg ∷ keyword_args rest
keyword_args (_ ∷ rest) = keyword_args rest

-- `{keyword.arg for keyword in call.keywords}`
unfoldable pub keywords : Tree → List (Option Text)
keywords (node call (tree f ts)) = keyword_args (trees ts)
keywords _ = []

-- The name, if the node is a name.
unfoldable pub name_of : Tree → Option Text
name_of (node (name t) ts) = some t
name_of _ = none

-- `isinstance(node, ast.Attribute) and isinstance(node.value, ast.Name)`: the two names
unfoldable pub qualified : Tree → Option (Text × Text)
qualified (node (attribute attr) (tree (node (name t) us) none_left)) = some (t, attr)
qualified _ = none

-- `func` of a call of a name, and of a call of an attribute of a name
unfoldable pub called_name : Tree → Option Text
unfolding func name_of
called_name t = elim (func t) [ none ↦ none | some f ↦ name_of f ]

unfoldable pub called_attribute : Tree → Option (Text × Text)
unfolding func qualified
called_attribute t = elim (func t) [ none ↦ none | some f ↦ qualified f ]
