-- ===== src/StageChecks/DedupeDecided.antt =====
-- What a dedupe stage that passes its checks can rely on.
use carbonpaper.Prelude.{
  String, true, false, not, some, none, List, [], ◌∷◌, ◌++◌, map, filter, contains, string_eq, ok,
  ok-injective, ◌≡◌, ◌⊎◌, inl, inr, arith, All, Option-cases, subst,
}
use carbonpaper.Schema.Column.{name}
use carbonpaper.Signature.{WorkflowStageInput}
use carbonpaper.Stage.Blocks.{DedupeConfig, DedupeKeep}
use carbonpaper.StageChecks.Dedupe.{
  DedupeIssue, keys_absent, stated_by, by_matches_keep, is_nullable, by_issues,
  find_dedupe_column_issues,
}

split_keys :
    (stage : String) (names ks : List String) (more : List DedupeIssue)
    → map (keys_absent stage) (filter (λ k. not (contains names k)) ks) ++ more ≡ []
    → All (λ k. contains names k ≡ true) ks × (more ≡ [])
split_keys stage names [] more h = (tt, h)
split_keys stage names (k ∷ ks) more h =
    let (rest, quiet) = split_keys stage names ks more (ground arith) in
    ((ground arith, rest), quiet)

stated_by-eq : (d : DedupeConfig) (b : String) → stated_by d ≡ some b → d.by ≡ some b
stated_by-eq d b h = elim (Option-cases d.by) [ inl e ↦ ground arith | inr (c, e) ↦ ground arith ]

stated :
    (d : DedupeConfig)
    → by_matches_keep d ≡ none
    → (d.keep ≡ DedupeKeep.highest) ⊎ (d.keep ≡ DedupeKeep.lowest)
    → (b : String) × (stated_by d ≡ some b)
unfolding by_matches_keep
stated d h (inl k) = elim (Option-cases (stated_by d)) [
  | inl e ↦ ground arith
  | inr (b, e) ↦ (b, e)
]
stated d h (inr k) = elim (Option-cases (stated_by d)) [
  | inl e ↦ ground arith
  | inr (b, e) ↦ (b, e)
]

-- Where the config of a dedupe stage is accepted and its column checks find nothing, the input has
-- every key column, and where the highest or the lowest row is kept, `by` names a column of the
-- input, and no column of that name may be null.
pub find_dedupe_column_issues-decided :
    (stage : String) (d : DedupeConfig) (input : WorkflowStageInput)
    (rest : List WorkflowStageInput)
    → by_matches_keep d ≡ none
    → find_dedupe_column_issues stage d (input ∷ rest) ≡ ok []
    → All (λ k. contains (map name input.table_schema.columns) k ≡ true) d.keys
      × ((d.keep ≡ DedupeKeep.highest) ⊎ (d.keep ≡ DedupeKeep.lowest)
          → (b : String) × (d.by ≡ some b)
            × (contains (map name input.table_schema.columns) b ≡ true)
            × (is_nullable input.table_schema.columns b ≡ false))
unfolding find_dedupe_column_issues
find_dedupe_column_issues-decided stage d input rest accepted h =
    let columns = input.table_schema.columns in
    let (present, quiet) = split_keys stage (map name columns) d.keys _ (ok-injective h) in
    (
      present,
      λ kept.
          let (b, e) = stated d accepted kept in
          let none_found = subst (λ o. by_issues stage columns o ≡ []) e quiet in
          (b, stated_by-eq d b e, ground arith, ground arith),
    )
