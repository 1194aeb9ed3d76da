-- ===== src/Lineage/Merged.antt =====
-- What the lineage of a merge says of its inputs.
use carbonpaper.Prelude.{
  ℕ, zero, suc, ◌<◌, ◌≡◌, refl, sym, ap, ◌∙◌, String, Option, some, none, List, [], ◌∷◌, map, ◌==◌,
  string_eq, eq_iff, length, length-map, get_elem?, ℤ, arith, All, if◌then◌else◌,
}
use carbonpaper.Lineage.Row.{
  ordinal_from, read_parent_ordinals, merged_entry, heads, zip_rows, first_length,
  merged_inputs_lineage,
}

abbrev or_else : Option ℤ → Option ℤ → Option ℤ
or_else (some o) other = some o
or_else none other = other

-- What the first input of a stage that has an ordinal in a row gives there.
abbrev pub first_given : String → ℕ → List (String × List (Option ℤ)) → Option ℤ
first_given id i [] = none
first_given id i ((s, column) ∷ rest) =
    if id == s
    then (elim (get_elem? column i) [
      | some (some o) ↦ some o
      | some none ↦ first_given id i rest
      | none ↦ first_given id i rest
    ])
    else first_given id i rest

abbrev first_of : String → List (String × Option ℤ) → Option ℤ
first_of id [] = none
first_of id ((s, o) ∷ rest) = if id == s then or_else o (first_of id rest) else first_of id rest

-- In the entry of a row, a stage has the first ordinal that it was given.
ordinal_from-merged_entry :
    (id : String) (row : List (String × Option ℤ))
    → ordinal_from id (merged_entry row) ≡ first_of id row
unfolding merged_entry
ordinal_from-merged_entry id [] = refl
ordinal_from-merged_entry id ((s, some o) ∷ rest) =
    ground (arith, ordinal_from-merged_entry id rest, eq_iff id s, eq_iff s id)
ordinal_from-merged_entry id ((s, none) ∷ rest) = ground (arith, ordinal_from-merged_entry id rest)

-- The first values of columns of one length, and what is left of the columns.
record Split (n : ℕ) (inputs : List (String × List (Option ℤ))) (row : List (String × Option ℤ))
    (tails : List (String × List (Option ℤ))) : Type 0 where
  splits : heads inputs ≡ some (row, tails)
  tail_lengths : All (λ p. length p.1 ≡ n) tails
  here : (id : String) → first_given id 0 inputs ≡ first_of id row
  behind : (id : String) (i : ℕ) → first_given id (suc i) inputs ≡ first_given id i tails

Split-heads :
    (n : ℕ) (inputs : List (String × List (Option ℤ)))
    → All (λ p. length p.1 ≡ suc n) inputs
    → (row : List (String × Option ℤ)) × (tails : List (String × List (Option ℤ))) × Split n inputs
        row tails
Split-heads n [] h =
    ([], [], record { splits = refl; tail_lengths = tt; here = λ id. refl; behind = λ id i. refl })
Split-heads n ((s, []) ∷ rest) h = absurd (omega (arith, h.0))
Split-heads n ((s, some y ∷ ys) ∷ rest) h =
    let (row, tails, sp) = Split-heads n rest h.1 in
    (
      (s, some y) ∷ row,
      (s, ys) ∷ tails,
      record {
        splits = rw (sp.splits) refl;
        tail_lengths = (omega (arith, h.0), sp.tail_lengths);
        here = λ id. ground (arith, sp.here id);
        behind = λ id i. ground (arith, sp.behind id i);
      },
    )
Split-heads n ((s, none ∷ ys) ∷ rest) h =
    let (row, tails, sp) = Split-heads n rest h.1 in
    (
      (s, none) ∷ row,
      (s, ys) ∷ tails,
      record {
        splits = rw (sp.splits) refl;
        tail_lengths = (omega (arith, h.0), sp.tail_lengths);
        here = λ id. ground (arith, sp.here id);
        behind = λ id i. ground (arith, sp.behind id i);
      },
    )

-- The rows of columns of one length: as many as that, each with what the inputs give in it.
record Zipped (n : ℕ) (inputs : List (String × List (Option ℤ))) : Type 0 where
  count : length (zip_rows n inputs) ≡ n
  at :
      (id : String) (i : ℕ)
      → i < n
      → get_elem? (read_parent_ordinals id (map merged_entry (zip_rows n inputs))) i
        ≡ some (first_given id i inputs)

zip_rows-Zipped :
    (n : ℕ) (inputs : List (String × List (Option ℤ)))
    → All (λ p. length p.1 ≡ n) inputs
    → Zipped n inputs
unfolding zip_rows read_parent_ordinals
zip_rows-Zipped zero inputs lengths = record {
  count = refl;
  at = λ id i h. absurd (omega (arith, h));
}
zip_rows-Zipped (suc n) inputs lengths =
    let (row, tails, sp) = Split-heads n inputs lengths in
    let z = zip_rows-Zipped n tails sp.tail_lengths in
    let opened : zip_rows (suc n) inputs ≡ row ∷ zip_rows n tails = rw (sp.splits, zip_rows) refl in
    record {
      count = ap length opened ∙ ap (λ k. suc k) z.count;
      at = λ id i h.
          ap (λ rows. get_elem? (read_parent_ordinals id (map merged_entry rows)) i) opened
          ∙ by_place row tails sp id (λ j k. z.at id j k) i h;
    }
  where
    by_place :
        (row : List (String × Option ℤ)) (tails : List (String × List (Option ℤ)))
        → Split n inputs row tails
        → (id : String)
        → ((j : ℕ)
            → j < n
            → get_elem? (read_parent_ordinals id (map merged_entry (zip_rows n tails))) j
              ≡ some (first_given id j tails))
        → (i : ℕ) → i < suc n
        → get_elem? (read_parent_ordinals id (map merged_entry (row ∷ zip_rows n tails))) i
          ≡ some (first_given id i inputs)
    by_place row tails sp id rest zero h =
        ap some (ordinal_from-merged_entry id row ∙ sym (sp.here id))
    by_place row tails sp id rest (suc i) h =
        rest i (omega (arith, h)) ∙ ap some (sym (sp.behind id i))

-- The lineage of a merge, whose inputs have as many ordinals each, has a row for each of these. Read
-- back off it, the ordinal of a stage in a row is the one that the first of the stage's inputs with
-- an ordinal there was given, and none where no input of the stage has one.
pub read_parent_ordinals-merged :
    (inputs : List (String × List (Option ℤ))) (id : String)
    → All (λ p. length p.1 ≡ first_length inputs) inputs
    → (length (read_parent_ordinals id (merged_inputs_lineage inputs)) ≡ first_length inputs)
      × ((i : ℕ)
          → i < first_length inputs
          → get_elem? (read_parent_ordinals id (merged_inputs_lineage inputs)) i
            ≡ some (first_given id i inputs))
unfolding merged_inputs_lineage read_parent_ordinals
read_parent_ordinals-merged inputs id lengths =
    let z = zip_rows-Zipped (first_length inputs) inputs lengths in
    (
      length-map _ (map merged_entry (zip_rows (first_length inputs) inputs))
          ∙ length-map _ (zip_rows (first_length inputs) inputs)
          ∙ z.count,
      λ i h. z.at id i h,
    )
