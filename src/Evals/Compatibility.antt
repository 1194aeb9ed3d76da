-- ===== src/Evals/Compatibility.antt =====
-- app/evals/compatibility.py: the conditions on an eval that come before its tables are compared.
use carbonpaper.Prelude.{
  Bool, true, false, not, ◌&&◌, String, Option, some, none, List, [], ◌∷◌, map, filter, flat_map,
  contains, codes, list_eq, nat_eq, string_eq, ◌==◌, if◌then◌else◌,
}
use carbonpaper.Schema.Column.{Column, column_type}
use carbonpaper.Schema.Table.{TableSchema, column_for_name}
use carbonpaper.Workflow.Resolve.{WorkflowStage}

pub data ScoringMetric : Type 0 where
  exact abs_tol sign : ScoringMetric

pub record ExpectedOutput : Type 0 where
  pub output_column : String
  pub metric : ScoringMetric

-- What the conditions read of an eval: an override has its stage's id and its table's schema.
pub record EvalConfig : Type 0 where
  pub override_stage : String
  pub target_stage : String
  pub table : Option TableSchema
  pub expected_outputs : List ExpectedOutput
  pub reference_overrides : List (String × TableSchema)

pub data Problem : Type 0 where
  does_not_exist : String → Problem
  declares_no_output_schema : String → Problem
  cannot_verify : (target : String) → Problem
  does_not_emit : (column target : String) → Problem
  needs_a_numeric : (column : String) → Problem
  cannot_be_the_target : String → Problem

-- `_validate_stages_exist`
unfoldable pub validate_stages_exist : EvalConfig → List String → List Problem
validate_stages_exist config ids = map does_not_exist (
    filter (λ sid. not (contains ids sid))
      (config.override_stage ∷ config.target_stage ∷ map (λ ov. ov.0) config.reference_overrides))

-- `_validate_override_declares_output_schema`, told the override.
unfoldable pub validate_override_declares_output_schema : EvalConfig → WorkflowStage → List Problem
validate_override_declares_output_schema config override = elim config.table [
  | none ↦ []
  | some table ↦ (elim override.output_schema [
    | none ↦ declares_no_output_schema override.stage.id ∷ []
    | some schema ↦ []
  ])
]

abbrev pub is_abs_tol : ScoringMetric → Bool
is_abs_tol ScoringMetric.abs_tol = true
is_abs_tol _ = false

-- Whether `col.type` is in `_NUMERIC_TYPES`.
abbrev pub has_numeric_type : Column → Bool
has_numeric_type col = contains (codes "int" ∷ codes "float" ∷ []) (column_type col)

abbrev pub check_problems : String → ExpectedOutput → Option Column → List Problem
check_problems target check none = does_not_emit check.output_column target ∷ []
check_problems target check (some col) =
    if is_abs_tol check.metric && not (has_numeric_type col)
    then needs_a_numeric check.output_column ∷ []
    else []

-- `_validate_target_emits_checked_columns`, told the target.
unfoldable pub validate_target_emits_checked_columns : EvalConfig → WorkflowStage → List Problem
unfolding column_for_name
validate_target_emits_checked_columns config target = elim target.output_schema [
  | none ↦ cannot_verify target.stage.id ∷ []
  | some schema ↦
      flat_map
        (λ check. check_problems target.stage.id check (column_for_name schema check.output_column))
        config.expected_outputs
]

-- `_validate_no_reference_override_on_target`
unfoldable pub validate_no_reference_override_on_target : EvalConfig → List Problem
validate_no_reference_override_on_target config =
    map (λ ov. cannot_be_the_target ov.0)
      (filter (λ ov. ov.0 == config.target_stage) config.reference_overrides)
