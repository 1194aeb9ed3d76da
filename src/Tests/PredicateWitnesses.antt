-- ===== src/Tests/PredicateWitnesses.antt =====
-- The theorems on filters at one filter.
use carbonpaper.Prelude.{◌≡◌, ◌↔◌, refl, [], ◌∷◌, Memᴰ, ok, true}
use carbonpaper.Predicate.Syntax.{
  Node, BinOperator, UnaryOperator, name, load, constant, text, attribute, call, bin_op, unary_op,
  nil, cons,
}
use carbonpaper.Predicate.Validate.{validate_node}
use carbonpaper.Predicate.Walk.{find_regex_arguments}
use carbonpaper.Predicate.Admitted.{Occurs, is_admitted, validate_node-iff_admitted}
use carbonpaper.Predicate.Found.{IsRegexCall, find_regex_arguments-IsRegexCall}

-- title.str.contains("carbon")
abbrev title_contains : Node
title_contains =
    call (attribute (attribute (name "title" load) "str") "contains")
      (cons (constant (text "carbon")) nil) nil

-- `title.str.contains("carbon") & (not age.isna())`
abbrev two_tests : Node
two_tests =
    bin_op title_contains BinOperator.bit_and
      (unary_op UnaryOperator.not_op (call (attribute (name "age" load) "isna") nil nil))

two_tests-is_accepted : validate_node two_tests ≡ ok tt
unfolding validate_node
two_tests-is_accepted = refl

validate_node-iff_admitted_example :
    (validate_node two_tests ≡ ok tt) ↔ ((m : Node) → Occurs m two_tests → is_admitted m ≡ true)
validate_node-iff_admitted_example = validate_node-iff_admitted two_tests

find_regex_arguments-IsRegexCall_example :
    Memᴰ "carbon" (find_regex_arguments two_tests)
    ↔ ((n : Node) × Occurs n two_tests × IsRegexCall "carbon" n)
find_regex_arguments-IsRegexCall_example = find_regex_arguments-IsRegexCall two_tests "carbon"

two_tests-arguments : find_regex_arguments two_tests ≡ "carbon" ∷ []
unfolding find_regex_arguments
two_tests-arguments = refl
