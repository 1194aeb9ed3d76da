-- ===== src/Predicate/Validate.antt =====
-- app/core/predicate.py: `_validate_node` and the checks that it dispatches to.
use carbonpaper.Prelude.{
  Bool, true, false, not, String, some, none, List, [], ◌∷◌, ◌++◌, find, contains, string_eq,
  Result, ok, err, ◌>>=◌, if◌then◌else◌,
}
use carbonpaper.Predicate.Syntax.{
  BinOperator, UnaryOperator, CompareOperator, Context, Node, Nodes, bool_op, bin_op, unary_op,
  compare, name, constant, attribute, call, other, nil, cons, load,
}

pub data PredicateError : Type 0 where
  node_not_supported : String → PredicateError
  operator_not_supported : BinOperator → PredicateError
  unary_not_supported : UnaryOperator → PredicateError
  comparison_not_supported : CompareOperator → PredicateError
  not_a_plain_read : String → PredicateError
  attribute_not_supported : String → PredicateError
  function_call keyword_arguments : PredicateError

-- A check that may raise, and otherwise gives nothing.
abbrev pub Checked : Type 0
Checked = Result {0, 0} PredicateError Unit

abbrev pub column_methods : List String
column_methods = "isna" ∷ "notna" ∷ []

abbrev pub string_accessor : List String
string_accessor = "str" ∷ []

abbrev pub string_methods : List String
string_methods =
    "contains" ∷ "endswith" ∷ "fullmatch" ∷ "isalnum" ∷ "isalpha" ∷ "isascii" ∷ "isdecimal"
    ∷ "isdigit" ∷ "islower" ∷ "isnumeric" ∷ "isspace" ∷ "istitle" ∷ "isupper" ∷ "match"
    ∷ "startswith" ∷ []

abbrev pub allowed_attributes : List String
allowed_attributes = column_methods ++ (string_accessor ++ string_methods)

-- `_COMPARE_OPS`
abbrev pub is_compare_op : CompareOperator → Bool
is_compare_op CompareOperator.eq = true
is_compare_op CompareOperator.not_eq = true
is_compare_op CompareOperator.lt = true
is_compare_op CompareOperator.lt_e = true
is_compare_op CompareOperator.gt = true
is_compare_op CompareOperator.gt_e = true
is_compare_op _ = false

-- The first comparison that is not one of the admitted.
abbrev pub checked_ops : List CompareOperator → Checked
checked_ops ops = elim (find (λ op. not (is_compare_op op)) ops) [
  | none ↦ ok tt
  | some op ↦ err (comparison_not_supported op)
]

abbrev pub checked_bin_op : BinOperator → Checked
checked_bin_op BinOperator.bit_and = ok tt
checked_bin_op BinOperator.bit_or = ok tt
checked_bin_op op = err (operator_not_supported op)

abbrev pub checked_unary_op : UnaryOperator → Checked
checked_unary_op UnaryOperator.not_op = ok tt
checked_unary_op op = err (unary_not_supported op)

-- `_validate_name`
abbrev pub validate_name : String → Context → Checked
validate_name id load = ok tt
validate_name id _ = err (not_a_plain_read id)

-- The first two refusals of `_validate_call`.
abbrev pub checked_call : Node → Nodes → Checked
checked_call (attribute value attr) nil = ok tt
checked_call (attribute value attr) (cons _ _) = err keyword_arguments
checked_call _ keywords = err function_call

abbrev pub checked_attribute : String → Checked
checked_attribute attr =
    if contains allowed_attributes attr then ok tt else err (attribute_not_supported attr)

unfoldable mutual
  pub validate_node : Node → Checked
  validate_node (bool_op values) = validate_each values
  validate_node (bin_op left op right) =
      checked_bin_op op >>= λ _. (validate_node left >>= λ _. validate_node right)
  validate_node (unary_op op operand) = checked_unary_op op >>= λ _. validate_node operand
  validate_node (compare left ops comparators) =
      checked_ops ops >>= λ _. (validate_node left >>= λ _. validate_each comparators)
  validate_node (name id context) = validate_name id context
  validate_node (constant value) = ok tt
  validate_node (attribute value attr) = checked_attribute attr >>= λ _. validate_node value
  validate_node (call func args keywords) =
      checked_call func keywords >>= λ _. (validate_node func >>= λ _. validate_each args)
  validate_node (other type nodes) = err (node_not_supported type)

  pub validate_each : Nodes → Checked
  validate_each nil = ok tt
  validate_each (cons n ns) = validate_node n >>= λ _. validate_each ns
