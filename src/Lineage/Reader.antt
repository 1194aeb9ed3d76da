-- ===== src/Lineage/Reader.antt =====
-- app/runtime/lineage.py: `_SidecarParents`, which keeps what it has decoded of a sidecar.
use mathlib.Core.List.{reverse}
use carbonpaper.Prelude.{
  ℕ, ◌+ℕ◌, Option, some, none, List, [], lookup, insert, nat_eq, get_elem?, ℤ, pos, negsuc, ltb,
  if◌then◌else◌, Result, ok, err,
}
use carbonpaper.Lineage.Row.{RowParent, RowLineage}
use carbonpaper.Lineage.Sidecar.{SidecarTable, parents_of_row, every_row}

pub record SidecarParents : Type 0 where
  pub table : SidecarTable
  pub one_at_a_time : List (ℕ × List RowParent)
  pub all_rows : Option RowLineage

pub data IndexError : Type 0 where
  index_error : IndexError

-- `_SidecarParents(table)`
abbrev pub open_sidecar : SidecarTable → SidecarParents
open_sidecar table = record { table = table; one_at_a_time = []; all_rows = none }

-- `if index < 0: index += len(self)`
abbrev pub moved_up : ℕ → ℤ → ℤ
moved_up n (pos m) = pos m
moved_up n (negsuc m) = negsuc m +ℕ n

-- `0 <= index < len(self)`, and none where it is not.
abbrev pub within : ℕ → ℤ → Option ℕ
within n (pos m) = if ltb m n then some m else none
within n (negsuc m) = none

unfoldable pub place_of : ℕ → ℤ → Option ℕ
place_of n index = within n (moved_up n index)

abbrev pub or_index_error : {A : Type 0} → Option A → Result IndexError A
or_index_error none = err index_error
or_index_error (some x) = ok x

-- `values[index]`, of a list: -1 is its last element, and so on from its end.
unfoldable pub list_index : {A : Type 0} → List A → ℤ → Result IndexError A
list_index xs (pos m) = or_index_error (get_elem? xs m)
list_index xs (negsuc m) = or_index_error (get_elem? (reverse xs) m)

abbrev pub every_kept : SidecarParents → Option RowLineage → RowLineage × SidecarParents
every_kept s (some rows) = (rows, s)
every_kept s none = (every_row s.table, record s { all_rows = some (every_row s.table) })

-- `_read_every_row`
unfoldable pub read_every_row : SidecarParents → RowLineage × SidecarParents
read_every_row s = every_kept s s.all_rows

abbrev pub entry_kept :
    SidecarParents
    → ℕ
    → Option (List RowParent)
    → Result IndexError (List RowParent) × SidecarParents
entry_kept s k (some entry) = (ok entry, s)
entry_kept s k none = (
  ok (parents_of_row s.table k),
  record s { one_at_a_time = insert k (parents_of_row s.table k) s.one_at_a_time },
)

abbrev pub item_at : SidecarParents → Option ℕ → Result IndexError (List RowParent) × SidecarParents
item_at s none = (err index_error, s)
item_at s (some k) = entry_kept s k (lookup k s.one_at_a_time)

abbrev pub item_kept :
    SidecarParents → ℤ → Option RowLineage → Result IndexError (List RowParent) × SidecarParents
item_kept s index (some rows) = (list_index rows index, s)
item_kept s index none = item_at s (place_of s.table.num_rows index)

-- `__getitem__`, at an integer.
unfoldable pub get_item : SidecarParents → ℤ → Result IndexError (List RowParent) × SidecarParents
unfolding list_index place_of
get_item s index = item_kept s index s.all_rows
