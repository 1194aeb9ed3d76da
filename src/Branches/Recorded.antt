-- ===== src/Branches/Recorded.antt =====
-- What the recorder holds of the rows that ran.
use carbonpaper.Prelude.{
  ℕ, ◌≡◌, refl, sym, ap, ◌∙◌, String, true, false, not, some, none, List, [], ◌∷◌, ◌++◌, map, any,
  All, All-map, is_unique, keys, lookup_last_unique, lookup_last-absent, nat_beq_iff, lookup,
  insert, lookup-insert, lookup_last, lookup-dict_of, dict_from, List-cases, ◌||◌, ◌⊎◌, >>=_of_ok,
  nat_eq, ◌==◌, is_empty, ok, if◌then◌else◌, arith, Bool-cases, inl, inr,
}
use mathlib.Core.List.{append_assoc, append-nil}
use carbonpaper.Branches.Recorder.{
  BranchRecorder, open_row, record_branch, close_row, record_all, run_row, branches_for, rows_kept,
  took_some, new_recorder, run_rows,
}

record_all-open :
    (index : ℕ) (taken : List String) (by_input : List (ℕ × List String)) (branches : List String)
    → record_all (record { open_index = some index; taken = taken; by_input = by_input }) branches
      ≡ ok (record { open_index = some index; taken = taken ++ branches; by_input = by_input })
unfolding record_all record_branch
record_all-open index taken by_input [] = rw (append-nil taken) refl
record_all-open index taken by_input (branch ∷ branches) =
    record_all-open index (taken ++ branch ∷ []) by_input branches
    ∙ ap (λ l. ok (record { open_index = some index; taken = l; by_input = by_input }))
        (append_assoc taken (branch ∷ []) branches)

-- A recorder between two rows.
abbrev resting : List String → List (ℕ × List String) → BranchRecorder
resting taken by_input = record { open_index = none; taken = taken; by_input = by_input }

run_row-resting :
    (taken : List String) (by_input : List (ℕ × List String)) (index : ℕ) (branches : List String)
    → run_row (resting taken by_input) index branches
      ≡ ok (resting [] (insert index branches by_input))
unfolding run_row open_row close_row
run_row-resting taken by_input index branches =
    >>=_of_ok _ _ (record_all-open index [] by_input branches) refl

-- A row that runs where no row is open raises nothing and leaves none open; afterwards the recorder
-- holds for it the branches that it reported, in order, and for every other row what it held.
pub run_row-branches_for :
    (b : BranchRecorder) (index : ℕ) (branches : List String)
    → b.open_index ≡ none
    → (b' : BranchRecorder) × (run_row b index branches ≡ ok b')
      × (b'.open_index ≡ none)
      × ((i : ℕ) → branches_for b' i ≡ (if i == index then some branches else branches_for b i))
unfolding branches_for
run_row-branches_for b index branches h = (
  resting [] (insert index branches b.by_input),
  ap (λ o. run_row (record b { open_index = o }) index branches) h
      ∙ run_row-resting b.taken b.by_input index branches,
  refl,
  λ i. lookup-insert index i branches b.by_input,
)

run_rows-resting :
    (taken : List String) (by_input rows : List (ℕ × List String))
    → (b : BranchRecorder) × (run_rows (resting taken by_input) rows ≡ ok b)
      × (b.open_index ≡ none)
      × (b.by_input ≡ dict_from by_input rows)
unfolding run_rows
run_rows-resting taken by_input [] = (resting taken by_input, refl, refl, refl)
run_rows-resting taken by_input ((index, branches) ∷ rows) =
    let (b, e, f, g) = run_rows-resting [] (insert index branches by_input) rows in
    (b, >>=_of_ok _ _ (run_row-resting taken by_input index branches) e, f, g)

never_branched :
    (m : List (ℕ × List String)) (i : ℕ) (l : List String)
    → any took_some m ≡ false
    → lookup i m ≡ some l
    → l ≡ []
never_branched [] i l h e = cc
never_branched ((j, k) ∷ m) i l h e = elim (List-cases k) [
  | inl n ↦ ground (arith, never_branched m i l)
  | inr (x, xs, n) ↦ absurd-of (sym (ap (λ v. not (is_empty v) || any took_some m) n) ∙ h)
]
  where
    absurd-of : true ≡ false → l ≡ []
    absurd-of f = cc

lookup_last-lookup :
    (i : ℕ) (rows : List (ℕ × List String))
    → is_unique (keys rows) ≡ true
    → lookup_last i rows ≡ lookup i rows
lookup_last-lookup i [] u = refl
lookup_last-lookup i ((j, l) ∷ rows) u =
    ground (arith, lookup_last-lookup i rows, lookup_last-absent i rows, nat_beq_iff i j)

-- The rows of an execution, each of which runs once, run without raising anything. For the rows that
-- are kept the recorder then answers what each of them reported, none for one that did not run; or
-- it answers none, and then no row reported a branch.
pub run_rows-rows_kept :
    (rows : List (ℕ × List String)) (kept : List ℕ)
    → is_unique (keys rows) ≡ true
    → (b : BranchRecorder) × (run_rows new_recorder rows ≡ ok b)
      × ((rows_kept b kept ≡ some (map (λ i. lookup i rows) kept))
          ⊎ ((rows_kept b kept ≡ none) × All (λ r. r.1 ≡ []) rows))
unfolding rows_kept
run_rows-rows_kept rows kept u =
    let (b, e, f, g) = run_rows-resting [] [] rows in
    (b, e, by_any b g (Bool-cases (any took_some b.by_input)))
  where
    same_rows :
        (b : BranchRecorder)
        → b.by_input ≡ dict_from [] rows
        → (is : List ℕ) → map (λ i. lookup i b.by_input) is ≡ map (λ i. lookup i rows) is
    same_rows b g [] = refl
    same_rows b g (i ∷ is) = cc (
      ap (λ m. lookup i m) g,
      lookup-dict_of i rows,
      lookup_last-lookup i rows u,
      same_rows b g is,
    )

    by_any :
        (b : BranchRecorder)
        → b.by_input ≡ dict_from [] rows
        → (any took_some b.by_input ≡ true) ⊎ (any took_some b.by_input ≡ false)
        → ((if not (any took_some b.by_input)
              then none
              else some (map (λ i. lookup i b.by_input) kept))
            ≡ some (map (λ i. lookup i rows) kept))
          ⊎ (((if not (any took_some b.by_input)
                  then none
                  else some (map (λ i. lookup i b.by_input) kept))
                ≡ none)
              × All (λ r. r.1 ≡ []) rows)
    by_any b g (inl t) = inl (
        ap (λ c. if not c then none else some (map (λ i. lookup i b.by_input) kept)) t
        ∙ ap some (same_rows b g kept))
    by_any b g (inr t) = inr (
      ap (λ c. if not c then none else some (map (λ i. lookup i b.by_input) kept)) t,
      All-map
          (λ (i, l) e.
            never_branched b.by_input i l t (ap (λ m. lookup i m) g ∙ lookup-dict_of i rows ∙ e))
          rows (lookup_last_unique rows u),
    )
