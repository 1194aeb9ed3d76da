-- ===== src/Workflow/RowTypes.antt =====
-- app/models/workflow.py: `resolve_row_type_ids`, and the inputs whose rows are different things.
use carbonpaper.Prelude.{
  String, not, Option, some, none, List, [], ◌∷◌, ◌++◌, map, filter, flat_map, contains, any,
  lookup, insert, ◌==◌, string_eq, option_eq, Result, ok, err, ◌>>=◌, if◌then◌else◌,
}
use carbonpaper.Stage.{Stage, type_of}
use carbonpaper.Stage.Kind.{declares_its_own_row_type}
use carbonpaper.Stage.RowType.{resolve_own_row_type_id, list_row_supplying_input_ids}
use carbonpaper.Workflow.Checks.{GraphIssue, row_types_disagree, stage_graph}
use carbonpaper.Workflow.Order.{sort_stages_by_dependency}
use carbonpaper.Workflow.Raised.{Raised, key_error}

-- `row_type_id_by_stage_id`
abbrev pub RowTypeIds : Type 0
RowTypeIds = List (String × Option String)

-- `m[key]`
unfoldable pub require_key {ℓ} : {V : Type ℓ} → String → List (String × V) → Result Raised V
require_key k m = elim (lookup k m) [ some v ↦ ok v | none ↦ err (key_error k) ]

-- The values of the keys in turn; a missing one raises `KeyError`.
unfoldable pub read_keys : List String → RowTypeIds → Result Raised (List (String × Option String))
unfolding require_key
read_keys [] m = ok []
read_keys (k ∷ ks) m =
    let rest = read_keys ks m in do v ← require_key k m; vs ← rest; ok ((k, v) ∷ vs)

-- The keys with a word, and the word of each.
abbrev pub with_word : List (String × Option String) → List (String × String)
with_word [] = []
with_word ((k, none) ∷ rest) = with_word rest
with_word ((k, some w) ∷ rest) = (k, w) ∷ with_word rest

-- The one word among those of the inputs; none where they have none or disagree.
abbrev pub agreed : List (String × String) → Option String
agreed [] = none
agreed ((k, w) ∷ rest) = if any (λ p. not (p.1 == w)) rest then none else some w

unfoldable pub read_inherited_row_type_id : Stage → RowTypeIds → Result Raised (Option String)
unfolding read_keys list_row_supplying_input_ids
read_inherited_row_type_id s m = do
  inherited ← read_keys (list_row_supplying_input_ids s) m
  ok (agreed (with_word inherited))

abbrev own_or_inherited : Stage → RowTypeIds → Result Raised (Option String)
own_or_inherited s m =
    if declares_its_own_row_type (type_of s)
    then ok (resolve_own_row_type_id s)
    else read_inherited_row_type_id s m

resolve_from : RowTypeIds → List Stage → Result Raised RowTypeIds
unfolding read_inherited_row_type_id declares_its_own_row_type resolve_own_row_type_id
resolve_from m [] = ok m
resolve_from m (s ∷ rest) =
    own_or_inherited s m >>= λ answer. resolve_from (insert s.id answer m) rest

unfoldable pub resolve_row_type_ids : List Stage → Result Raised RowTypeIds
unfolding resolve_from sort_stages_by_dependency
resolve_row_type_ids stages = do
  ordered ← sort_stages_by_dependency stage_graph stages
  resolve_from [] ordered

module _ {I : Type 0} where
  -- The issues against the first input that has a word.
  abbrev pub disagreements : String → List (String × String) → List (GraphIssue I)
  disagreements id [] = []
  disagreements id ((reference, word) ∷ rest) =
      map (λ p. row_types_disagree id p.0 p.1 reference word) (filter (λ p. not (p.1 == word)) rest)

  unfoldable pub find_disagreeing_input_row_types :
      Stage → RowTypeIds → Result Raised (List (GraphIssue I))
  unfolding read_keys list_row_supplying_input_ids
  find_disagreeing_input_row_types s m = do
    read ← read_keys (list_row_supplying_input_ids s) m
    ok (disagreements s.id (with_word read))

  all_disagreements : RowTypeIds → List Stage → Result Raised (List (GraphIssue I))
  unfolding find_disagreeing_input_row_types
  all_disagreements m [] = ok []
  all_disagreements m (s ∷ stages) =
      let rest = all_disagreements m stages in
      do issues ← find_disagreeing_input_row_types s m; more ← rest; ok (issues ++ more)

  unfoldable pub find_row_type_disagreements : List Stage → Result Raised (List (GraphIssue I))
  unfolding all_disagreements
  find_row_type_disagreements stages = do
    m ← resolve_row_type_ids stages
    all_disagreements m stages

-- The stage, and the word that it writes and the project's terms do not hold.
abbrev pub undeclared_word : List String → Stage → List (String × String)
undeclared_word declared s = elim s.row_type_id [
  | none ↦ []
  | some word ↦ if contains declared word then [] else (s.id, word) ∷ []
]

-- Of the row types of the project's terms only the ids are read.
unfoldable pub find_undeclared_row_type_issues : List Stage → List String → List (String × String)
find_undeclared_row_type_issues stages declared_row_type_ids =
    flat_map (undeclared_word declared_row_type_ids) stages
