-- ===== src/Tests/ReshapeWitnesses.antt =====
-- The reshapes run on a small table, and the theorems on them at it.
use carbonpaper.Prelude.{
  ℕ, ◌≡◌, refl, ◌↔◌, ◌<◌, false, String, some, none, List, [], ◌∷◌, map, length, leb, sorted, pos,
  string_eq, ◌==◌, ok, err,
}
use carbonpaper.Lineage.Row.{single_parent_lineage}
use carbonpaper.Stage.Blocks.{DedupeKeep, DedupeConfig}
use carbonpaper.Reshape.Agreement.{Cells, same, refuse_a_disagreeing_group, disagreement}
use carbonpaper.Reshape.Agreed.{ColumnAgrees, refuse_a_disagreeing_group_iff}
use carbonpaper.Reshape.Dedupe.{
  Frame, Direction, Group, each, column_of, keyed, group_from, group_ordinals,
  refuse_disagreeing_groups, handle_dedupe,
}
use carbonpaper.Reshape.Survivors.{RankedAs, first_of_each_key, handle_dedupe-survivors}

abbrev texts : Cells String
texts = record { equals = λ a b. a == b; str = λ a. a; is_container = λ a. false }

abbrev people : Frame String
people = record {
  num_rows = 4;
  columns =
      ("name", "ann" ∷ "bob" ∷ "ann" ∷ "eve" ∷ [])
      ∷ ("city", "oslo" ∷ "rome" ∷ "rome" ∷ "oslo" ∷ [])
      ∷ [];
}

-- A ranking that puts the rows last to first.
abbrev backwards : Frame String → String → Direction → List ℕ
backwards table by direction = 3 ∷ 2 ∷ 1 ∷ 0 ∷ []

abbrev by_name : DedupeKeep → DedupeConfig
by_name keep = record { keys = "name" ∷ []; keep = keep; by = some "city" }

first_kept :
    handle_dedupe texts backwards (by_name DedupeKeep.first) "people" people
    ≡ ok (record {
      ordinals = 0 ∷ 1 ∷ 3 ∷ [];
      lineage = single_parent_lineage "people" (map pos (0 ∷ 1 ∷ 3 ∷ []));
    })
unfolding handle_dedupe refuse_a_disagreeing_group
first_kept = refl

lowest_kept :
    handle_dedupe texts backwards (by_name DedupeKeep.lowest) "people" people
    ≡ ok (record {
      ordinals = 1 ∷ 2 ∷ 3 ∷ [];
      lineage = single_parent_lineage "people" (map pos (1 ∷ 2 ∷ 3 ∷ []));
    })
unfolding handle_dedupe refuse_a_disagreeing_group
lowest_kept = refl

agree_refused :
    handle_dedupe texts backwards (by_name DedupeKeep.agree) "people" people
    ≡ err (disagreement "city" ("oslo" ∷ "rome" ∷ []))
unfolding handle_dedupe refuse_a_disagreeing_group same
agree_refused = refl

abbrev groups_of_people : List (Group String)
groups_of_people =
    record { key = "ann" ∷ []; winner = 0; collapsed = 2 ∷ [] }
    ∷ record { key = "bob" ∷ []; winner = 1; collapsed = [] }
    ∷ record { key = "eve" ∷ []; winner = 3; collapsed = [] }
    ∷ []

people_grouped : group_ordinals texts people ("name" ∷ []) none ≡ ok groups_of_people
people_grouped = refl

abbrev last_of_each : List ℕ
last_of_each = 1 ∷ 2 ∷ 3 ∷ []

handle_dedupe-survivors_example :
    (order : List ℕ) × (key_columns : List (List String)) × (rows : List (List String × ℕ))
    × RankedAs texts backwards people DedupeKeep.lowest (some "city") order
    × (each (column_of people) ("name" ∷ []) ≡ ok key_columns)
    × (each (keyed key_columns) order ≡ ok rows)
    × (last_of_each ≡ sorted leb (first_of_each_key texts [] rows))
    × (single_parent_lineage "people" (map pos last_of_each)
        ≡ single_parent_lineage "people" (map pos last_of_each))
    × (DedupeKeep.lowest ≡ DedupeKeep.agree
        → refuse_disagreeing_groups texts people ("name" ∷ []) (group_from texts [] rows) ≡ ok tt)
handle_dedupe-survivors_example =
    handle_dedupe-survivors texts backwards (by_name DedupeKeep.lowest) "people" people _
      lowest_kept

abbrev two_people : List (List String)
two_people = ("ann" ∷ "oslo" ∷ []) ∷ ("ann" ∷ "rome" ∷ []) ∷ []

abbrev compared : List String
compared = "name" ∷ "city" ∷ []

refuse_a_disagreeing_group_iff_example :
    (refuse_a_disagreeing_group texts two_people compared ≡ ok tt)
    ↔ ((i : ℕ) → i < length compared → ColumnAgrees texts two_people i)
refuse_a_disagreeing_group_iff_example = refuse_a_disagreeing_group_iff texts two_people compared
