-- ===== src/StageChecks/JoinLands.antt =====
-- What a join that passes its column checks can rely on.
use carbonpaper.Prelude.{
  String, true, false, List, [], ◌∷◌, ◌++◌, map, flat_map, contains, string_eq, ok, ok-injective,
  ◌≡◌, refl, arith, eq_iff, All,
}
use carbonpaper.Schema.Column.{name}
use carbonpaper.Signature.{WorkflowStageInput}
use carbonpaper.Stage.Blocks.{JoinConfig}
use carbonpaper.StageChecks.Join.{key_issues, landing_issues, find_join_column_issues}

split-append : {A : Type 0} (xs ys : List A) → xs ++ ys ≡ [] → (xs ≡ []) × (ys ≡ [])
split-append [] ys h = (refl, h)
split-append (x ∷ xs) ys h = cc

All-flat_map :
    {A B : Type 0} (f : A → List B) (P : A → Type 0) (xs : List A)
    → ((x : A) → f x ≡ [] → P x)
    → flat_map f xs ≡ []
    → All P xs
All-flat_map f P [] good h = tt
All-flat_map f P (x ∷ xs) good h =
    let (here, rest) = split-append (f x) (flat_map f xs) h in
    (good x here, All-flat_map f P xs good rest)

-- Where the column check of a join finds nothing, the subject has every left key and the reference
-- every right one; every source column of `enrich_with` is one of the reference; and no landed name
-- is a column of the subject, or a right key other than the source itself.
pub find_join_column_issues-lands :
    (stage : String) (join : JoinConfig) (subject reference : WorkflowStageInput)
    (rest : List WorkflowStageInput)
    → find_join_column_issues stage join (subject ∷ reference ∷ rest) ≡ ok []
    → All
        (λ k.
          (contains (map name subject.table_schema.columns) k.left ≡ true)
          × (contains (map name reference.table_schema.columns) k.right ≡ true))
        join.keys
      × All
          (λ p.
            (contains (map name reference.table_schema.columns) p.0 ≡ true)
            × (contains (map name subject.table_schema.columns) p.1 ≡ false)
            × (contains (map (λ k. k.right) join.keys) p.1 ≡ true → p.1 ≡ p.0))
          join.enrich_with
unfolding find_join_column_issues key_issues landing_issues
find_join_column_issues-lands stage join subject reference rest h =
    let (keyed, landed) = split-append _ _ (ok-injective h) in
    (
      All-flat_map _ _ join.keys (λ k e. (ground arith, ground arith)) keyed,
      All-flat_map _ _ join.enrich_with
          (λ (source, name_landed) e.
            (ground arith, ground arith, λ c. ground (arith, eq_iff name_landed source)))
          landed,
    )
