-- ===== src/Tests/EvalWitnesses.antt =====
-- The columns of an eval dataset: a run on which the renaming fails, and the theorem on it.
use carbonpaper.Prelude.{
  ◌≡◌, refl, ap, false, List, [], ◌∷◌, some, none, ok, contains, All-contains, string_eq, codes,
}
use carbonpaper.Schema.Column.{Column}
use carbonpaper.Evals.DatasetColumns.{
  names, prefixed, get_injected_columns, deconflict_column_names,
}
use carbonpaper.Evals.Deconflicted.{AvoidsPrefix, deconflict_column_names-disjoint}
use carbonpaper.Workflow.Reach.{Edges}
use carbonpaper.Evals.RunSettings.{list_executed_frontier}
use carbonpaper.Schema.Table.{TableSchema}
use carbonpaper.Workflow.Resolve.{WorkflowStage}
use carbonpaper.Evals.Compatibility.{
  EvalConfig, ScoringMetric, validate_override_declares_output_schema,
  validate_target_emits_checked_columns,
}
use carbonpaper.Evals.Injected.{get_injected_columns-ok}
use carbonpaper.Tests.Samples.{scalar, source}

abbrev grade : Column
grade = scalar "grade" (codes "str")

abbrev override_columns : List Column
override_columns = grade ∷ scalar "title" (codes "str") ∷ []

renamed_apart :
    (names (deconflict_column_names override_columns (grade ∷ [])).0
      ≡ "override.grade" ∷ "title" ∷ [])
    × (names (deconflict_column_names override_columns (grade ∷ [])).1 ≡ "output.grade" ∷ [])
unfolding deconflict_column_names
renamed_apart = (refl, refl)

-- A column of the override that is named `output.grade` already meets the renamed expected output.
renamed_together :
    (names
        (deconflict_column_names (grade ∷ scalar "output.grade" (codes "str") ∷ []) (grade ∷ [])).0
      ≡ "override.grade" ∷ "output.grade" ∷ [])
    × (names
          (deconflict_column_names
            (grade ∷ scalar "output.grade" (codes "str") ∷ [])
            (grade ∷ [])).1
        ≡ "output.grade" ∷ [])
unfolding deconflict_column_names
renamed_together = (refl, refl)

-- A column that is named `override.grade` already is lost.
one_is_lost :
    names
      (deconflict_column_names (grade ∷ scalar "override.grade" (codes "str") ∷ []) (grade ∷ [])).0
    ≡ "override.grade" ∷ []
unfolding deconflict_column_names
one_is_lost = refl

override-AvoidsPrefix : AvoidsPrefix "output." (names override_columns) ("grade" ∷ [])
override-AvoidsPrefix n h =
    All-contains (λ m. contains (names override_columns) (prefixed "output." m) ≡ false)
      ("grade" ∷ []) n (refl, tt) h

expected-AvoidsPrefix : AvoidsPrefix "override." ("grade" ∷ []) (names override_columns)
expected-AvoidsPrefix n h =
    All-contains (λ m. contains ("grade" ∷ []) (prefixed "override." m) ≡ false)
      (names override_columns) n (refl, (refl, tt)) h

deconflict_column_names-disjoint_example :
    contains (names (deconflict_column_names override_columns (grade ∷ [])).1) "title" ≡ false
deconflict_column_names-disjoint_example =
    deconflict_column_names-disjoint override_columns (grade ∷ []) "title" override-AvoidsPrefix
      expected-AvoidsPrefix (ap (λ l. contains l "title") renamed_apart.0)

abbrev four_stages : Edges
four_stages =
    ("scored", "graded" ∷ "guide" ∷ [])
    ∷ ("graded", "titles" ∷ "guide" ∷ [])
    ∷ ("titles", [])
    ∷ ("guide", [])
    ∷ []

executed_without_titles :
    list_executed_frontier ("titles" ∷ []) four_stages "scored"
    ≡ some (ok ("scored" ∷ "guide" ∷ "graded" ∷ []))
unfolding list_executed_frontier
executed_without_titles = refl

abbrev stage_with : List Column → WorkflowStage
stage_with columns = record {
  stage = source;
  inputs = [];
  output_schema = some (record { columns = columns; estimated_rows = none; notes = none });
}

abbrev grades : TableSchema
grades = record { columns = grade ∷ []; estimated_rows = none; notes = none }

abbrev grade_eval : EvalConfig
grade_eval = record {
  override_stage = "titles";
  target_stage = "scored";
  table = some grades;
  expected_outputs = record { output_column = "grade"; metric = ScoringMetric.exact } ∷ [];
  reference_overrides = [];
}

override_declares :
    validate_override_declares_output_schema grade_eval (stage_with override_columns) ≡ []
unfolding validate_override_declares_output_schema
override_declares = refl

target_emits : validate_target_emits_checked_columns grade_eval (stage_with (grade ∷ [])) ≡ []
unfolding validate_target_emits_checked_columns
target_emits = refl

get_injected_columns-ok_example :
    (columns : List Column) × (get_injected_columns
        (stage_with override_columns)
        (stage_with (grade ∷ []))
        ("grade" ∷ [])
      ≡ ok columns)
get_injected_columns-ok_example =
    get_injected_columns-ok grade_eval (stage_with override_columns) (stage_with (grade ∷ []))
      grades refl override_declares target_emits
