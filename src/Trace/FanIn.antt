-- ===== src/Trace/FanIn.antt =====
-- app/runtime/trace.py: the rows that were summarized into one, and which of them a walk follows.
use carbonpaper.Prelude.{
  ℕ, suc, ◌+◌, String, Bool, ◌&&◌, Option, some, none, List, [], ◌∷◌, map, filter, find, contains,
  string_eq, ◌==◌, ℤ, int_eq, int_leb, string_leb, sorted, length, if◌then◌else◌, Result, ok, err,
  ◌>>=◌,
}
use carbonpaper.Lineage.Row.{RowParent, contribution}
use carbonpaper.Lineage.Equal.{parent_eq}
use carbonpaper.Stage.Kind.{StageType}

-- Which row a caller wants sampled at the fan-in over a stage.
pub record RowSampleChoice : Type 0 where
  pub stage_id : String
  pub row_ordinal : ℤ

-- The place of the sampled row, from 1, among how many.
pub record RowSample : Type 0 where
  pub place : ℕ
  pub of : ℕ

pub data TraceError : Type 0 where
  stage_not_in_run : String → TraceError
  row_out_of_range : (stage : String) (row : ℤ) → TraceError
  -- the walk's stage, and the choice that is not one of its rows
  contributor_not_in_fan_in : (stage : String) → RowSampleChoice → TraceError
  -- a choice for a fan-in that the walk never met
  no_fan_in_for : RowSampleChoice → TraceError
  key_error : String → TraceError

-- By stage id, then by ordinal.
abbrev pub in_row_order : RowParent → RowParent → Bool
in_row_order p q =
    if p.stage_id == q.stage_id
    then int_leb p.row_ordinal q.row_ordinal
    else string_leb p.stage_id q.stage_id

abbrev pub contributions : List RowParent → List RowParent
contributions hops = filter (λ p. p.kind == contribution) hops

-- None where the walk faces no fan-in.
unfoldable pub find_fan_in :
    Option StageType → Option RowParent → Option (List RowParent) → Option (List RowParent)
find_fan_in (some StageType.input_data) spine hops = none
find_fan_in type (some spine) hops = none
find_fan_in type none none = none
find_fan_in type none (some hops) = some (sorted in_row_order (contributions hops))

abbrev pub is_chosen : RowSampleChoice → RowParent → Bool
is_chosen choice p = p.stage_id == choice.stage_id && p.row_ordinal == choice.row_ordinal

abbrev pub found_or_raise :
    String → RowSampleChoice → Option RowParent → Result TraceError RowParent
found_or_raise sid choice (some p) = ok p
found_or_raise sid choice none = err (contributor_not_in_fan_in sid choice)

unfoldable pub match_named_contributor :
    String → List RowParent → RowSampleChoice → Result TraceError RowParent
match_named_contributor sid fan_in choice =
    found_or_raise sid choice (find (is_chosen choice) fan_in)

-- What is followed, and the choices that are left: one that names a stage of the fan-in is used up.
unfoldable pub sample_from_fan_in :
    String
    → List RowParent
    → List RowSampleChoice
    → Result TraceError (Option RowParent × List RowSampleChoice)
unfolding match_named_contributor
sample_from_fan_in sid [] pending = ok (none, pending)
sample_from_fan_in sid (p ∷ fan_in) [] = ok (some p, [])
sample_from_fan_in sid (p ∷ fan_in) (choice ∷ pending) =
    if contains (map (λ q. q.stage_id) (p ∷ fan_in)) choice.stage_id
    then (match_named_contributor sid (p ∷ fan_in) choice >>= λ followed.
        ok (some followed, pending))
    else ok (some p, choice ∷ pending)

-- `fan_in.index(sampled)`
abbrev pub index_of : RowParent → List RowParent → ℕ
index_of p [] = 0
index_of p (q ∷ qs) = if q == p then 0 else suc (index_of p qs)

unfoldable pub read_row_sample : Option (List RowParent) → Option RowParent → Option RowSample
read_row_sample (some fan_in) (some sampled) =
    some (record { place = index_of sampled fan_in + 1; of = length fan_in })
read_row_sample _ _ = none
