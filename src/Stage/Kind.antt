-- ===== src/Stage/Kind.antt =====
-- app/models/stages/stage_base.py: `StageType`, `RowEffect` and what is read off them.
use carbonpaper.Prelude.{Bool, true, false}

pub data StageType : Type 0 where
  input_data llm_transform python_row_function python_frame_function enrich expand : StageType
  aggregate human_review_queue report union filter_rows starlark_row_function : StageType
  starlark_filter_rows explode dedupe sort_rank : StageType

pub data RowEffect : Type 0 where
  creates maps selects builds consumes : RowEffect

unfoldable pub find_row_effect : StageType → RowEffect
find_row_effect input_data = creates
find_row_effect python_row_function = maps
find_row_effect llm_transform = maps
find_row_effect human_review_queue = maps
find_row_effect starlark_row_function = maps
find_row_effect enrich = maps
find_row_effect filter_rows = selects
find_row_effect starlark_filter_rows = selects
find_row_effect sort_rank = selects
find_row_effect dedupe = selects
find_row_effect union = selects
find_row_effect aggregate = builds
find_row_effect explode = builds
find_row_effect expand = builds
find_row_effect python_frame_function = builds
find_row_effect report = consumes

abbrev effect_preserves : RowEffect → Bool
effect_preserves creates = true
effect_preserves maps = true
effect_preserves _ = false

abbrev effect_declares : RowEffect → Bool
effect_declares creates = true
effect_declares builds = true
effect_declares consumes = true
effect_declares _ = false

unfoldable pub is_grain_and_order_preserving : StageType → Bool
unfolding find_row_effect
is_grain_and_order_preserving t = effect_preserves (find_row_effect t)

unfoldable pub declares_its_own_row_type : StageType → Bool
unfolding find_row_effect
declares_its_own_row_type t = effect_declares (find_row_effect t)

abbrev pub is_report : StageType → Bool
is_report report = true
is_report _ = false
