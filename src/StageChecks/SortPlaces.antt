-- ===== src/StageChecks/SortPlaces.antt =====
-- What a sort that passes its column checks can rely on.
use carbonpaper.Prelude.{
  String, Bool, true, false, not, ◌&&◌, some, none, List, [], ◌∷◌, ◌++◌, map, filter, contains,
  ◌==◌, string_eq, is_none, ok, ok-injective, ◌≡◌, ◌≢◌, arith, All,
}
use carbonpaper.Schema.Column.{name, nullable}
use carbonpaper.Signature.{WorkflowStageInput}
use carbonpaper.Stage.Blocks.{SortKey, SortRankConfig}
use carbonpaper.StageChecks.SortRank.{
  key_absent, null_unplaced, find_unplaced_null_issues, find_sort_rank_column_issues,
}

none_found :
    {A B : Type 0} (f : A → B) (p : A → Bool) (xs : List A) (more : List B)
    → map f (filter p xs) ++ more ≡ []
    → All (λ x. p x ≡ false) xs × (more ≡ [])
none_found f p [] more h = (tt, h)
none_found f p (x ∷ xs) more h =
    let (rest, quiet) = none_found f p xs more (ground arith) in ((ground arith, rest), quiet)

both_found :
    (names nullables : List String) (sort_keys : List SortKey)
    → All (λ k. not (contains names k.column) ≡ false) sort_keys
    → All (λ k. (contains nullables k.column && is_none k.nulls) ≡ false) sort_keys
    → All
        (λ k.
          (contains names k.column ≡ true) × (contains nullables k.column ≡ true → k.nulls ≢ none))
        sort_keys
both_found names nullables [] h g = tt
both_found names nullables (k ∷ ks) h g =
    ((ground (arith, h.0), λ c e. ground (arith, g.0)), both_found names nullables ks h.1 g.1)

-- Where the column check of a sort finds nothing, the input has every key column; a key that may be
-- null says where its null rows go; and the column of the ranks, where it has a name, is new.
pub find_sort_rank_column_issues-places :
    (stage : String) (config : SortRankConfig) (input : WorkflowStageInput)
    (rest : List WorkflowStageInput)
    → find_sort_rank_column_issues stage config (input ∷ rest) ≡ ok []
    → All
        (λ k.
          (contains (map name input.table_schema.columns) k.column ≡ true)
          × (contains (map name (filter nullable input.table_schema.columns)) k.column ≡ true
              → k.nulls ≢ none))
        config.keys
      × ((rank : String)
          → config.rank_column ≡ some rank
          → rank == "" ≡ false
          → contains (map name input.table_schema.columns) rank ≡ false)
unfolding find_sort_rank_column_issues find_unplaced_null_issues
find_sort_rank_column_issues-places stage config input rest h =
    let columns = input.table_schema.columns in
    let (present, quiet) =
      none_found (λ k. key_absent stage k.column) _ config.keys _ (ok-injective h) in
    let (placed, unranked) = none_found (λ k. null_unplaced stage k.column) _ config.keys _ quiet in
    (
      both_found (map name columns) (map name (filter nullable columns)) config.keys present placed,
      λ rank e named. ground arith,
    )
