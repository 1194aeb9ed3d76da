-- ===== src/Predicate/Syntax.antt =====
-- app/core/predicate.py: the nodes of Python's `ast` that the checks of a filter tell apart.
use carbonpaper.Prelude.{ℕ, suc, ◌+◌, String, List, [], ◌∷◌, ◌++◌}

pub data BinOperator : Type 0 where
  add sub mult mat_mult div mod_op pow l_shift r_shift bit_or bit_xor bit_and floor_div :
      BinOperator

pub data UnaryOperator : Type 0 where
  invert not_op u_add u_sub : UnaryOperator

pub data CompareOperator : Type 0 where
  eq not_eq lt lt_e gt gt_e is_op is_not in_op not_in : CompareOperator

pub data Context : Type 0 where
  load store del : Context

-- A literal: a text, or any other.
pub data Literal : Type 0 where
  text : String → Literal
  no_text : Literal

-- `and` and `or` are the only operators of a `BoolOp`. `other` is a node of any other type, with
-- its children.
mutual
  pub data Node : Type 0 where
    bool_op : Nodes → Node
    bin_op : Node → BinOperator → Node → Node
    unary_op : UnaryOperator → Node → Node
    compare : Node → List CompareOperator → Nodes → Node
    name : String → Context → Node
    constant : Literal → Node
    attribute : Node → String → Node
    call : (func : Node) (args keywords : Nodes) → Node
    other : String → Nodes → Node

  pub data Nodes : Type 0 where
    nil : Nodes
    cons : Node → Nodes → Nodes

abbrev pub to_list : Nodes → List Node
to_list nil = []
to_list (cons n ns) = n ∷ to_list ns

-- `ast.iter_child_nodes`, less operators and contexts, which have no children.
abbrev pub children : Node → List Node
children (bool_op values) = to_list values
children (bin_op left op right) = left ∷ right ∷ []
children (unary_op op operand) = operand ∷ []
children (compare left ops comparators) = left ∷ to_list comparators
children (name id context) = []
children (constant value) = []
children (attribute value attr) = value ∷ []
children (call func args keywords) = func ∷ (to_list args ++ to_list keywords)
children (other type nodes) = to_list nodes

unfoldable mutual
  pub size : Node → ℕ
  size (bool_op values) = suc (size_nodes values)
  size (bin_op left op right) = suc (size left + size right)
  size (unary_op op operand) = suc (size operand)
  size (compare left ops comparators) = suc (size left + size_nodes comparators)
  size (name id context) = 1
  size (constant value) = 1
  size (attribute value attr) = suc (size value)
  size (call func args keywords) = suc (size func + (size_nodes args + size_nodes keywords))
  size (other type nodes) = suc (size_nodes nodes)

  pub size_nodes : Nodes → ℕ
  size_nodes nil = 0
  size_nodes (cons n ns) = size n + size_nodes ns
