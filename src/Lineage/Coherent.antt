-- ===== src/Lineage/Coherent.antt =====
-- What the sidecar's reader keeps is what it would read again.
use carbonpaper.Prelude.{
  ℕ, ◌≡◌, refl, sym, ap, ◌∙◌, subst, Option, some, none, List, lookup, insert, lookup-insert,
  nat_eq, length, get_elem?, get_elem?-range, length-map, length-range, range, ℤ, pos, negsuc,
  Result, ok, err, arith, ◌+◌, ltb, if◌then◌else◌, suc, ◌-◌,
}
use carbonpaper.Lineage.Row.{RowParent, RowLineage}
use carbonpaper.Lineage.Sidecar.{SidecarTable, parents_of_row, every_row}
use carbonpaper.Lineage.Columns.{every_row-map}
use carbonpaper.Lineage.Places.{get_elem?-reverse}
use carbonpaper.Lineage.Reader.{
  or_index_error, SidecarParents, IndexError, index_error, open_sidecar, place_of, list_index,
  read_every_row, every_kept, entry_kept, item_at, item_kept, get_item,
}

-- Each kept entry is that of its row, and the kept rows are all rows.
pub record IsCoherent (s : SidecarParents) : Type 0 where
  pub entries :
      (k : ℕ) (entry : List RowParent)
      → lookup k s.one_at_a_time ≡ some entry
      → entry ≡ parents_of_row s.table k
  pub rows : (all : RowLineage) → s.all_rows ≡ some all → all ≡ every_row s.table

length-every_row : (table : SidecarTable) → length (every_row table) ≡ table.num_rows
length-every_row table =
    ap length (every_row-map table)
    ∙ length-map _ (range 0 table.num_rows)
    ∙ length-range 0 table.num_rows

every_row-at :
    (table : SidecarTable) (k : ℕ)
    → get_elem? (every_row table) k
      ≡ (if ltb k table.num_rows then some (parents_of_row table k) else none)
every_row-at table k =
    ap (λ l. get_elem? l k) (every_row-map table)
    ∙ get_elem?-range (parents_of_row table) 0 table.num_rows k
    ∙ ground (arith, plain k)
  where
    plain : (n : ℕ) → 0 + n ≡ n
    plain n = omega arith

-- An index into all rows reads the row at its place.
list_index-every_row :
    (table : SidecarTable) (index : ℤ)
    → list_index (every_row table) index ≡ (elim (place_of table.num_rows index) [
      | none ↦ err index_error
      | some k ↦ ok (parents_of_row table k)
    ])
unfolding list_index place_of
list_index-every_row table (pos m) = rw (every_row-at table m) (ground arith)
list_index-every_row table (negsuc m) =
    ap or_index_error (
      get_elem?-reverse (every_row table) m
      ∙ ap (λ n. if ltb m n then get_elem? (every_row table) (n - suc m) else none)
          (length-every_row table)
      ∙ ap (λ o. if ltb m table.num_rows then o else none)
          (every_row-at table (table.num_rows - suc m)))
    ∙ ground arith

pub IsCoherent-open_sidecar : (table : SidecarTable) → IsCoherent (open_sidecar table)
IsCoherent-open_sidecar table = record { entries = λ k entry e. cc; rows = λ all e. cc }

IsCoherent-insert :
    (s : SidecarParents) (k : ℕ)
    → IsCoherent s
    → IsCoherent (record s { one_at_a_time = insert k (parents_of_row s.table k) s.one_at_a_time })
IsCoherent-insert s k h = record {
  entries = λ j entry e.
      ground
        (arith, lookup-insert k j (parents_of_row s.table k) s.one_at_a_time, h.entries j entry);
  rows = h.rows;
}

-- What a read of one row promises, against the answer that is right.
abbrev Answers :
    SidecarParents
    → Result IndexError (List RowParent)
    → Result IndexError (List RowParent) × SidecarParents
    → Type 0
Answers s right (answer, s') = (answer ≡ right) × IsCoherent s' × (s'.table ≡ s.table)

Answers-entry_kept :
    (s : SidecarParents) (k : ℕ) (kept : Option (List RowParent))
    → IsCoherent s
    → lookup k s.one_at_a_time ≡ kept
    → Answers s (ok (parents_of_row s.table k)) (entry_kept s k kept)
Answers-entry_kept s k (some entry) h e = (ap ok (h.entries k entry e), h, refl)
Answers-entry_kept s k none h e = (refl, IsCoherent-insert s k h, refl)

Answers-item_at :
    (s : SidecarParents) (place : Option ℕ)
    → IsCoherent s
    → Answers s
        (elim place [ none ↦ err index_error | some k ↦ ok (parents_of_row s.table k) ])
        (item_at s place)
Answers-item_at s none h = (refl, h, refl)
Answers-item_at s (some k) h = Answers-entry_kept s k (lookup k s.one_at_a_time) h refl

Answers-item_kept :
    (s : SidecarParents) (index : ℤ) (kept : Option RowLineage)
    → IsCoherent s
    → s.all_rows ≡ kept
    → Answers s (list_index (every_row s.table) index) (item_kept s index kept)
Answers-item_kept s index (some all) h e = (ap (λ l. list_index l index) (h.rows all e), h, refl)
Answers-item_kept s index none h e =
    subst (λ r. Answers s r (item_at s (place_of s.table.num_rows index)))
      (sym (list_index-every_row s.table index))
      (Answers-item_at s (place_of s.table.num_rows index) h)

-- A reader of a sidecar answers, at every index, as the list of all its rows would, whatever it has
-- kept; and what it keeps stays right, for the same table.
pub get_item-IsCoherent :
    (s : SidecarParents) (index : ℤ)
    → IsCoherent s
    → ((get_item s index).0 ≡ list_index (every_row s.table) index)
      × IsCoherent (get_item s index).1
      × ((get_item s index).1.table ≡ s.table)
unfolding get_item
get_item-IsCoherent s index h = Answers-item_kept s index s.all_rows h refl

every_kept-IsCoherent :
    (s : SidecarParents) (kept : Option RowLineage)
    → IsCoherent s
    → s.all_rows ≡ kept
    → ((every_kept s kept).0 ≡ every_row s.table) × IsCoherent (every_kept s kept).1
every_kept-IsCoherent s (some all) h e = (h.rows all e, h)
every_kept-IsCoherent s none h e =
    (refl, record { entries = h.entries; rows = λ all f. sym (some_injective f) })
  where
    some_injective : {a b : RowLineage} → ◌≡◌ {A = Option RowLineage} (some a) (some b) → a ≡ b
    some_injective f = cc

-- Reading every row gives all rows of the table, and what the reader keeps stays right.
pub read_every_row-IsCoherent :
    (s : SidecarParents)
    → IsCoherent s
    → ((read_every_row s).0 ≡ every_row s.table) × IsCoherent (read_every_row s).1
unfolding read_every_row
read_every_row-IsCoherent s h = every_kept-IsCoherent s s.all_rows h refl
