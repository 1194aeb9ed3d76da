-- ===== src/Trace/Frames.antt =====
-- app/runtime/trace.py: what a walk reads of a run, and what it records.
use carbonpaper.Prelude.{
  ℕ, String, Bool, true, false, Option, some, none, List, [], ◌∷◌, filter, not, contains, string_eq,
  ◌==◌, ℤ, pos, negsuc, get_elem?, flat_map, if◌then◌else◌,
}
use Prim.Native.Char.{code}
use carbonpaper.Prelude.{nat_eq}
use carbonpaper.Lineage.Row.{RowParent, RowLineage, direct}
use carbonpaper.Stage.Kind.{StageType, is_grain_and_order_preserving}

-- A stage record of the manifest: its type, where it names one, and the phases of its input
-- validation report.
pub record StageRecord : Type 0 where
  pub stage_id : String
  pub type : Option StageType
  pub phases : List String

-- A stage's output table: how many rows it has, and its column names.
pub record Table : Type 0 where
  pub num_rows : ℕ
  pub column_names : List String

-- `RunFrames`: the outputs and the lineages of a run. `none` is a file that is not there.
pub record RunFrames : Type 0 where
  pub output : String → Option Table
  pub lineage : String → Option RowLineage

unfoldable pub strip_string_prefix : String → String → Option String
strip_string_prefix String.[] t = some t
strip_string_prefix (String.◌∷◌ p ps) String.[] = none
strip_string_prefix (String.◌∷◌ p ps) (String.◌∷◌ c cs) =
    let rest = strip_string_prefix ps cs in if code p == code c then rest else none

-- `phase.split(":", 1)[1]`, of a phase that starts with `input:`
abbrev parent_of_phase : String → List String
unfolding strip_string_prefix
parent_of_phase phase = elim (strip_string_prefix "input:" phase) [ some id ↦ id ∷ [] | none ↦ [] ]

unfoldable pub parents_of : StageRecord → List String
unfolding strip_string_prefix
parents_of record_of = flat_map parent_of_phase record_of.phases

unfoldable pub is_row_preserving : Option StageType → Bool
is_row_preserving none = false
is_row_preserving (some t) = is_grain_and_order_preserving t

pub data Origin : Type 0 where
  source computed llm other : Origin

unfoldable pub origin_of : Option StageType → Origin
origin_of (some StageType.input_data) = source
origin_of (some StageType.python_row_function) = computed
origin_of (some StageType.starlark_row_function) = computed
origin_of (some StageType.llm_transform) = llm
origin_of _ = other

abbrev pub parents_at : RowLineage → ℤ → Option (List RowParent)
parents_at parents (pos r) = get_elem? parents r
parents_at parents (negsuc _) = none

-- `lineage_hops`: none where no lineage was recorded, or it has no such row.
unfoldable pub lineage_hops : RunFrames → String → ℤ → Option (List RowParent)
lineage_hops frames stage_id row_ordinal = elim (frames.lineage stage_id) [
  | none ↦ none
  | some parents ↦ parents_at parents row_ordinal
]

-- A parent in front of hops that were split already, which it is the spine of if it is direct.
abbrev pub split_at :
    RowParent
    → List RowParent
    → Option RowParent × List RowParent
    → Bool
    → Option RowParent × List RowParent
split_at p hops split true = (some p, hops)
split_at p hops (spine, branches) false = (spine, p ∷ branches)

-- `_split_spine`: the first direct parent, and all the others.
unfoldable pub split_spine : List RowParent → Option RowParent × List RowParent
split_spine [] = (none, [])
split_spine (p ∷ hops) = split_at p hops (split_spine hops) (p.kind == direct)

unfoldable pub new_columns : Table → Option Table → List String
new_columns child none = child.column_names
new_columns child (some parent) =
    filter (λ c. not (contains parent.column_names c)) child.column_names

unfoldable pub columns_parent_id : List String → Option RowParent → Option String
columns_parent_id parents (some spine) = some spine.stage_id
columns_parent_id (parent ∷ []) none = some parent
columns_parent_id _ none = none
