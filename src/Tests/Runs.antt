-- ===== src/Tests/Runs.antt =====
-- The code run on the sample stages.
use carbonpaper.Prelude.{◌≡◌, refl, codes, true, false, [], ◌∷◌, ok, err}
use carbonpaper.Schema.ColumnType.{is_valid_column_type}
use carbonpaper.Schema.Table.{extend}
use carbonpaper.Workflow.Checks.{stage_graph}
use carbonpaper.Workflow.Cycle.{detect_cycle}
use carbonpaper.Workflow.Order.{sort_stages_by_dependency}
use carbonpaper.Workflow.Raised
use carbonpaper.Tests.Samples.{
  people, ranked_people, age_text, rank, stages, ordered_stages, cyclic_stages,
}

is_valid_column_type_list : is_valid_column_type (codes "list[ str ]") ≡ true
unfolding is_valid_column_type
is_valid_column_type_list = refl

is_valid_column_type_empty : is_valid_column_type (codes "list[]") ≡ false
unfolding is_valid_column_type
is_valid_column_type_empty = refl

extend-people : extend people (age_text ∷ []) (rank ∷ []) ≡ ok ranked_people
unfolding extend
extend-people = refl

sort_stages : sort_stages_by_dependency stage_graph stages ≡ ok ordered_stages
unfolding sort_stages_by_dependency
sort_stages = refl

sort_cyclic_stages :
    sort_stages_by_dependency stage_graph cyclic_stages
    ≡ err (Raised.cyclic_stages ("p" ∷ "q" ∷ []))
unfolding sort_stages_by_dependency
sort_cyclic_stages = refl

detect_cycle-cyclic_stages : detect_cycle stage_graph cyclic_stages ≡ ("p" ∷ "q" ∷ "p" ∷ []) ∷ []
unfolding detect_cycle
detect_cycle-cyclic_stages = refl
