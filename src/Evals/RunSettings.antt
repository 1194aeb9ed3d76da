-- ===== src/Evals/RunSettings.antt =====
-- app/evals/run_settings.py: the stages that an eval run executes.
use carbonpaper.Prelude.{
  ℕ, zero, suc, ◌+◌, Bool, true, false, not, ◌&&◌, ◌||◌, Option, some, none, String, List, [], ◌∷◌,
  ◌++◌, filter, contains, keys, lookup, string_eq, ◌==◌, Result, ok, err, is_empty, if◌then◌else◌,
}
use carbonpaper.Workflow.Raised.{Raised, key_error}
use carbonpaper.Workflow.Reach.{Edges, push_all, weight}

pub data SettingsError : Type 0 where
  target_is_no_stage : String → SettingsError
  overrides_are_no_stages : List String → SettingsError
  target_is_an_override : String → SettingsError

-- The overridden stages, and the stage of the dataset where it is named.
abbrev pub injected_stages : Option String → List String → List String
injected_stages none reference_overrides = reference_overrides
injected_stages (some stage) reference_overrides =
    if stage == "" then reference_overrides else reference_overrides ++ stage ∷ []

abbrev pub missing_stages : Edges → List String → List String
missing_stages by_id injected = filter (λ id. not (contains (keys by_id) id)) injected

-- `_validate_stages_named`
unfoldable pub validate_stages_named :
    Edges → Option String → List String → String → Result SettingsError (List String)
validate_stages_named by_id dataset_stage reference_overrides target =
    let injected = injected_stages dataset_stage reference_overrides in
    let missing = missing_stages by_id injected in
    if not (contains (keys by_id) target)
    then err (target_is_no_stage target)
    else if not (is_empty missing)
    then err (overrides_are_no_stages missing)
    else if contains injected target
    then err (target_is_an_override target)
    else ok injected

-- The loop over a stack, whose top stands first: `none` is a loop that has not ended.
abbrev pub Frontier : Type 0
Frontier = Option (Result Raised (List String))

-- The inputs that are put on the stack, which the ids that were seen and the injected are not.
abbrev pub unseen : List String → List String → List String → List String
unseen injected seen inputs =
    filter (λ upstream. not (contains seen upstream) && not (contains injected upstream)) inputs

module _ (injected : List String) where
  abbrev pub execute :
      (List String → List String → List String → Frontier)
      → String
      → List String
      → List String
      → List String
      → Option (List String)
      → Frontier
  execute go node stack seen frontier none = some (err (key_error node))
  execute go node stack seen frontier (some inputs) =
      go (push_all (unseen injected (node ∷ seen) inputs) stack) (node ∷ seen)
        (frontier ++ node ∷ [])

  abbrev pub execute_unless :
      (List String → List String → List String → Frontier)
      → Edges
      → String
      → List String
      → List String
      → List String
      → Bool
      → Frontier
  execute_unless go by_id node stack seen frontier true = go stack seen frontier
  execute_unless go by_id node stack seen frontier false =
      execute go node stack seen frontier (lookup node by_id)

  unfoldable pub frontier_from : ℕ → Edges → List String → List String → List String → Frontier
  frontier_from zero by_id stack seen frontier = none
  frontier_from (suc fuel) by_id [] seen frontier = some (ok frontier)
  frontier_from (suc fuel) by_id (node ∷ stack) seen frontier =
      execute_unless (frontier_from fuel by_id) by_id node stack seen frontier
        (contains seen node || contains injected node)

  -- `_list_executed_frontier`, with a round for each entry that the stack can hold.
  unfoldable pub list_executed_frontier : Edges → String → Frontier
  unfolding frontier_from
  list_executed_frontier by_id target =
      frontier_from (suc (1 + weight by_id [])) by_id (target ∷ []) [] []
