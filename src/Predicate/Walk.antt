-- ===== src/Predicate/Walk.antt =====
-- app/core/predicate.py: what is read off the nodes that `ast.walk` gives.
use carbonpaper.Prelude.{
  ℕ, zero, suc, some, none, String, List, [], ◌∷◌, ◌++◌, flat_map, contains, string_eq, lookup,
  if◌then◌else◌,
}
use carbonpaper.Predicate.Syntax.{
  Node, name, constant, attribute, call, cons, load, text, children, size,
}

-- `ast.walk` from what is still to be visited: a node's children are visited after all others. The
-- bound is how many nodes there are.
abbrev pub walk_from : ℕ → List Node → List Node
walk_from bound [] = []
walk_from zero (n ∷ rest) = []
walk_from (suc bound) (n ∷ rest) = n ∷ walk_from bound (rest ++ children n)

abbrev pub walk : Node → List Node
walk tree = walk_from (size tree) (tree ∷ [])

abbrev pub regex_methods : List String
regex_methods = "contains" ∷ "match" ∷ "fullmatch" ∷ []

-- What one node gives to `find_regex_arguments`.
abbrev pub regex_argument : Node → List String
regex_argument (call (attribute value attr) (cons (constant (text pattern_text)) args) keywords) =
    if contains regex_methods attr then pattern_text ∷ [] else []
regex_argument _ = []

unfoldable pub find_regex_arguments : Node → List String
unfolding size
find_regex_arguments tree = flat_map regex_argument (walk tree)

abbrev pub name_read : List (String × String) → Node → List String
name_read quoted (name id load) =
    (elim (lookup id quoted) [ some column ↦ column | none ↦ id ]) ∷ []
name_read quoted _ = []

-- `read`, the set of columns that a filter reads: a placeholder stands for the column quoted.
unfoldable pub columns_read : List (String × String) → Node → List String
unfolding size
columns_read quoted tree = flat_map (name_read quoted) (walk tree)
