-- ===== src/Evals/Injected.antt =====
-- Where the conditions hold, the columns to inject are found.
use carbonpaper.Prelude.{
  ◌≡◌, refl, Bool, true, false, String, Option, some, none, List, [], ◌∷◌, ◌++◌, map, flat_map,
  find, contains, lookup, string_eq, eq_iff, ◌==◌, ok, >>=_of_ok, All, arith, Bool-cases,
  Option-cases, inl, inr,
}
use carbonpaper.Schema.Column.{Column, name}
use carbonpaper.Schema.Spec.{index_by_name, has_name}
use carbonpaper.Schema.Table.{TableSchema, column_for_name}
use carbonpaper.Schema.Names.{lookup-index-none}
use carbonpaper.Workflow.Resolve.{WorkflowStage}
use carbonpaper.Evals.DatasetColumns.{
  given_names, find_checked, deconflict_column_names, deconflicted_columns, get_injected_columns,
  get_output_columns_from_stage,
}
use carbonpaper.Evals.Compatibility.{
  ExpectedOutput, EvalConfig, Problem, check_problems, validate_override_declares_output_schema,
  validate_target_emits_checked_columns,
}

abbrev Emitted : List Column → String → Type 0
Emitted columns n = has_name n columns ≡ true

has_name-find :
    (n : String) (columns : List Column) (c : Column)
    → find (λ d. name d == n) columns ≡ some c
    → Emitted columns n
has_name-find n [] c h = cc
has_name-find n (d ∷ columns) c h =
    ground (arith, has_name-find n columns c, eq_iff n (name d), eq_iff (name d) n)

append-nil_left : {A : Type 0} (xs ys : List A) → xs ++ ys ≡ [] → xs ≡ []
append-nil_left [] ys h = refl
append-nil_left (x ∷ xs) ys h = cc

append-nil_right : {A : Type 0} (xs ys : List A) → xs ++ ys ≡ [] → ys ≡ []
append-nil_right [] ys h = h
append-nil_right (x ∷ xs) ys h = cc

-- A check without a problem is on an emitted column.
emits :
    (target : String) (schema : TableSchema) (checks : List ExpectedOutput)
    → flat_map
        (λ check. check_problems target check (column_for_name schema check.output_column))
        checks
      ≡ []
    → All (Emitted schema.columns) (map (λ check. check.output_column) checks)
unfolding column_for_name
emits target schema [] h = tt
emits target schema (check ∷ checks) h = (
  first (find (λ c. name c == check.output_column) schema.columns) refl (append-nil_left _ _ h),
  emits target schema checks (
      append-nil_right (check_problems target check (column_for_name schema check.output_column)) _
        h),
)
  where
    first :
        (o : Option Column)
        → find (λ c. name c == check.output_column) schema.columns ≡ o
        → check_problems target check o ≡ []
        → Emitted schema.columns check.output_column
    first none e k = cc
    first (some c) e k = has_name-find check.output_column schema.columns c e

given : (P : String → Type 0) (seen ns : List String) → All P ns → All P (given_names seen ns)
given P seen [] h = tt
given P seen (n ∷ ns) h = elim (Bool-cases (n == "")) [
  | inl e ↦ rw e (given P seen ns h.1)
  | inr e ↦ (elim (Bool-cases (contains seen n)) [
    | inl f ↦ rw e (rw f (given P seen ns h.1))
    | inr f ↦ rw e (rw f (h.0, given P (n ∷ seen) ns h.1))
  ])
]

finds :
    (stage : String) (columns : List Column) (ns : List String)
    → All (Emitted columns) ns
    → (found : List Column) × (find_checked stage (index_by_name columns) ns ≡ ok found)
finds stage columns [] h = ([], refl)
finds stage columns (n ∷ ns) h = elim (Option-cases (lookup n (index_by_name columns))) [
  | inl e ↦ absurd (apart h.0 (lookup-index-none n columns e))
  | inr (c, e) ↦
      let (found, f) = finds stage columns ns h.1 in
      (
        c ∷ found,
        rw (find_checked, e) (>>=_of_ok (find_checked stage (index_by_name columns) ns) _ f refl),
      )
]
  where
    apart : {b : Bool} → b ≡ true → b ≡ false → ⊥
    apart h k = cc

outputs_of :
    (s : WorkflowStage) (schema : TableSchema)
    → s.output_schema ≡ some schema
    → get_output_columns_from_stage s ≡ ok schema.columns
unfolding get_output_columns_from_stage
outputs_of s schema e = rw e refl

injects :
    (override target : WorkflowStage) (before after : TableSchema) (ns : List String)
    → override.output_schema ≡ some before
    → target.output_schema ≡ some after
    → All (Emitted after.columns) ns
    → (columns : List Column) × (get_injected_columns override target ns ≡ ok columns)
unfolding get_injected_columns
injects override target before after ns e f h =
    let (found, g) =
      finds target.stage.id after.columns (given_names [] ns)
        (given (Emitted after.columns) [] ns h) in
    (
      (deconflict_column_names before.columns found).0,
      >>=_of_ok (deconflicted_columns override target ns) _
          (>>=_of_ok _ _ (outputs_of override before e)
            (>>=_of_ok _ _ (outputs_of target after f) (>>=_of_ok _ _ g refl)))
          refl,
    )

-- Of an eval with a table, whose override and target pass their conditions, the columns to inject
-- are found: the ValueErrors of `get_injected_columns` are not raised.
pub get_injected_columns-ok :
    (config : EvalConfig) (override target : WorkflowStage) (table : TableSchema)
    → config.table ≡ some table
    → validate_override_declares_output_schema config override ≡ []
    → validate_target_emits_checked_columns config target ≡ []
    → (columns : List Column) × (get_injected_columns override target
          (map (λ check. check.output_column) config.expected_outputs)
        ≡ ok columns)
unfolding validate_override_declares_output_schema validate_target_emits_checked_columns
get_injected_columns-ok config override target table e h k =
    elim (Option-cases override.output_schema) [
      | inl o ↦ absurd (not_nil (rw o at (rw e at h)))
      | inr (before, o) ↦ (elim (Option-cases target.output_schema) [
        | inl t ↦ absurd (not_nil (rw t at k))
        | inr (after, t) ↦
            injects override target before after _ o t
              (emits target.stage.id after config.expected_outputs (rw t at k))
      ])
    ]
  where
    not_nil : {p : Problem} {ps : List Problem} → p ∷ ps ≡ [] → ⊥
    not_nil x = cc
