-- ===== src/Lineage/Moves.antt =====
-- What windows do to lineages.
use carbonpaper.Prelude.{
  ℕ, ◌+◌, ◌≡◌, refl, sym, ap, ◌∙◌, String, true, some, none, List, [], ◌∷◌, ◌++◌, map, ◌==◌, nat_eq,
  length, range, get_elem?, get_elem?-range, get_elem?-map, length-append, length-map, length-range,
  pos, +ℕ_assoc, +ℕ_zero, if◌then◌else◌, arith, Bool-cases, inl, inr, ltb, ◌<◌, get_elem?-append_lt,
  get_elem?-append_add,
}
use mathlib.Core.List.{append_assoc}
use carbonpaper.Lineage.Row.{
  RowParent, row_parent, RowLineage, shift_parent, shifted, rows_of_input,
  concatenated_inputs_lineage,
}

shift_parent_zero : (p : RowParent) → shift_parent 0 p ≡ p
shift_parent_zero p = rw (+ℕ_zero p.row_ordinal) refl

map_same : {A : Type 0} (f : A → A) (xs : List A) → ((x : A) → f x ≡ x) → map f xs ≡ xs
map_same f [] h = refl
map_same f (x ∷ xs) h = cc (h x, map_same f xs h)

map_twice :
    {A : Type 0} (f g h : A → A) (xs : List A)
    → ((x : A) → f (g x) ≡ h x)
    → map f (map g xs) ≡ map h xs
map_twice f g h [] e = refl
map_twice f g h (x ∷ xs) e = cc (e x, map_twice f g h xs e)

-- Whether or not the offset is zero, every ordinal moves by it.
pub shifted-eq :
    (offset : ℕ) (parents : RowLineage)
    → shifted offset parents ≡ map (map (shift_parent offset)) parents
unfolding shifted
shifted-eq offset parents = elim (Bool-cases (offset == 0)) [
  | inl e ↦
      rw (zero_of offset e) (sym (map_same _ parents (λ entry. map_same _ entry shift_parent_zero)))
  | inr e ↦ rw e refl
]
  where
    zero_of : (n : ℕ) → (n == 0) ≡ true → n ≡ 0
    zero_of n e = ground arith

-- Moving a lineage by one window and then by another moves it by both at once.
pub shifted_twice :
    (outer inner : ℕ) (parents : RowLineage)
    → shifted outer (shifted inner parents) ≡ shifted (inner + outer) parents
shifted_twice outer inner parents =
    rw (shifted-eq inner parents, shifted-eq outer _, shifted-eq (inner + outer) parents)
      (map_twice _ _ _ parents
        (λ entry. map_twice _ _ _ entry (λ p. rw (+ℕ_assoc p.row_ordinal inner outer) refl)))

-- The rows of all inputs together.
abbrev pub total_rows : List (String × ℕ) → ℕ
total_rows [] = 0
total_rows (input ∷ inputs) = input.1 + total_rows inputs

length-rows_of_input :
    (first : ℕ) (input : String × ℕ) → length (rows_of_input first input) ≡ input.1
length-rows_of_input first (id, rows) = length-map _ (range first rows) ∙ length-range first rows

length-concatenated :
    (inputs : List (String × ℕ)) (first : ℕ)
    → length (concatenated_inputs_lineage inputs first) ≡ total_rows inputs
unfolding concatenated_inputs_lineage
length-concatenated [] first = refl
length-concatenated (input ∷ inputs) first = omega (
  arith,
  length-append {0} (rows_of_input first input) (concatenated_inputs_lineage inputs first),
  length-rows_of_input first input,
  length-concatenated inputs first,
)

concatenated-append :
    (before after : List (String × ℕ)) (first : ℕ)
    → concatenated_inputs_lineage (before ++ after) first
      ≡ concatenated_inputs_lineage before first ++ concatenated_inputs_lineage after first
unfolding concatenated_inputs_lineage
concatenated-append [] after first = refl
concatenated-append (input ∷ before) after first =
    rw (concatenated-append before after first) (sym (append_assoc (rows_of_input first input) _ _))

row_of_input :
    (first rows r : ℕ) (id : String)
    → r < rows
    → get_elem? (rows_of_input first (id, rows)) r ≡ some (row_parent id (pos (first + r)) ∷ [])
row_of_input first rows r id h =
    get_elem?-map _ (range first rows) r ∙ ground (arith, range_at first rows r)
  where
    range_at :
        (start count i : ℕ)
        → get_elem? (range start count) i ≡ (if ltb i count then some (start + i) else none)
    range_at start count i =
        ap (λ l. get_elem? l i) (sym (map_same (λ n. n) (range start count) (λ n. refl)))
        ∙ get_elem?-range (λ n. n) start count i

-- A union's lineage has an entry for each row of its inputs, and the entry of the r-th row of an
-- input, which stands behind all rows of the inputs before it, names that input and that row,
-- counted from the first row of the window.
pub concatenated_inputs_lineage-at :
    (before after : List (String × ℕ)) (id : String) (rows r first : ℕ)
    → r < rows
    → (length (concatenated_inputs_lineage (before ++ (id, rows) ∷ after) first)
        ≡ total_rows (before ++ (id, rows) ∷ after))
      × (get_elem?
            (concatenated_inputs_lineage (before ++ (id, rows) ∷ after) first)
            (total_rows before + r)
          ≡ some (row_parent id (pos (first + r)) ∷ []))
unfolding concatenated_inputs_lineage
concatenated_inputs_lineage-at before after id rows r first h =
    let here = rows_of_input first (id, rows) in
    let rest = concatenated_inputs_lineage after first in
    let fits : r < length here = omega (arith, h, length-rows_of_input first (id, rows)) in
    (
      length-concatenated (before ++ (id, rows) ∷ after) first,
      ap (λ l. get_elem? l (total_rows before + r))
            (concatenated-append before ((id, rows) ∷ after) first)
          ∙ ap (λ n. get_elem? (concatenated_inputs_lineage before first ++ (here ++ rest)) (n + r))
              (sym (length-concatenated before first))
          ∙ get_elem?-append_add (concatenated_inputs_lineage before first) (here ++ rest) r
          ∙ get_elem?-append_lt here rest r fits
          ∙ row_of_input first rows r id h,
    )
