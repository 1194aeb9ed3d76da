-- ===== src/Executor/Window/Read.antt =====
-- Which rows a windowed stage reads, and which the lineage of what it makes then names.
use carbonpaper.Prelude.{
  ℕ, zero, suc, ◌+◌, ◌≤◌, ◌≡◌, refl, sym, ◌∙◌, ap, String, true, false, ◌&&◌, Option, some, none,
  List, [], ◌∷◌, map, take, drop, length, get_elem?, get_elem?-map, get_elem?-range, range, ltb,
  is_none, ◌==◌, nat_eq, pos, arith, if◌then◌else◌, Bool-cases, inl, inr, List-cases,
}
use carbonpaper.Lineage.Row.{RowLineage, row_parent, kept_rows_lineage}
use carbonpaper.Signature.{WorkflowStageInput}
use carbonpaper.Stage.{type_of}
use carbonpaper.Stage.Kind.{StageType, is_grain_and_order_preserving}
use carbonpaper.Workflow.Resolve.{WorkflowStage}
use carbonpaper.Executor.Records.{Table, StageOutput, StageRecord, RowSource}
use carbonpaper.Executor.Window.{
  RowWindow, skip_rows, cap_rows, take_row_window, is_union, sliced_input_lineage,
  stage_row_lineage,
}

module _ {A : Type 0} where
  -- The rows of a window, without the tests on what is there to cut.
  abbrev pub capped : Option ℕ → List A → List A
  capped none xs = xs
  capped (some n) xs = take n xs

  take_all : (n : ℕ) (xs : List A) → length xs ≤ n → take n xs ≡ xs
  take_all zero [] h = refl
  take_all zero (x ∷ xs) h = absurd (omega (arith, h))
  take_all (suc n) [] h = refl
  take_all (suc n) (x ∷ xs) h = ap (λ l. x ∷ l) (take_all n xs (omega (arith, h)))

  get_elem?-drop : (n k : ℕ) (xs : List A) → get_elem? (drop n xs) k ≡ get_elem? xs (n + k)
  get_elem?-drop zero k xs = ap (get_elem? xs) (zero_sum k)
    where
      zero_sum : (n : ℕ) → n ≡ 0 + n
      zero_sum n = omega arith
  get_elem?-drop (suc n) k [] = refl
  get_elem?-drop (suc n) k (x ∷ xs) = get_elem?-drop n k xs ∙ ap (get_elem? (x ∷ xs)) (sum-suc n k)
    where
      sum-suc : (n k : ℕ) → suc (n + k) ≡ suc n + k
      sum-suc n k = omega arith

  get_elem?-capped :
      (cap : Option ℕ) (k : ℕ) (xs : List A) (x : A)
      → get_elem? (capped cap xs) k ≡ some x
      → get_elem? xs k ≡ some x
  get_elem?-capped none k xs x h = h
  get_elem?-capped (some zero) k xs x h = cc
  get_elem?-capped (some (suc n)) k [] x h = h
  get_elem?-capped (some (suc n)) zero (y ∷ ys) x h = h
  get_elem?-capped (some (suc n)) (suc k) (y ∷ ys) x h = get_elem?-capped (some n) k ys x h

module _ {Row Usage : Type 0} where
  skip_rows-rows :
      (table : Table Row) (start : ℕ) (source : RowSource) (r : StageRecord Usage)
      → (skip_rows table start source r).0.rows ≡ drop start table.rows
  skip_rows-rows table zero source r = refl
  skip_rows-rows table (suc start) source r = elim (List-cases table.rows) [
    | inl e ↦ ground (arith, e, ap (drop (suc start)) e)
    | inr (x, rest, e) ↦ ground (arith, e)
  ]

  cap_rows-rows :
      (cap : Option ℕ) (source : RowSource) (cut : Table Row × StageRecord Usage)
      → (cap_rows cap source cut).0.rows ≡ capped cap cut.0.rows
  cap_rows-rows none source (table, r) = refl
  cap_rows-rows (some cap) source (table, r) = elim (Bool-cases (ltb cap (length table.rows))) [
    | inl e ↦ rw e refl
    | inr e ↦ rw e (sym (take_all cap table.rows (ground arith)))
  ]

  -- The rows that a window takes, in terms of those that are there.
  take_row_window-rows :
      (table : Table Row) (window : RowWindow) (source : RowSource) (r : StageRecord Usage)
      → (take_row_window table window source r).0.rows
        ≡ capped window.cap (drop window.start table.rows)
  unfolding take_row_window
  take_row_window-rows table window source r =
      cap_rows-rows window.cap source (skip_rows table window.start source r)
      ∙ ap (capped window.cap) (skip_rows-rows table window.start source r)

-- Where the row of an input is found that an output row's lineage names.
abbrev pub Names : {Row : Type 0} → String → List Row → ℕ → Row → Option RowLineage → Type 0
Names id rows k row none = get_elem? rows k ≡ some row
Names id rows k row (some lineage) =
    (n : ℕ) × (get_elem? lineage k ≡ some (row_parent id (pos n) ∷ []))
    × (get_elem? rows n ≡ some row)

preserving-not_union : (t : StageType) → is_grain_and_order_preserving t ≡ true → is_union t ≡ false
unfolding is_grain_and_order_preserving
preserving-not_union t h = ground arith

some_bound :
    {A : Type 0} (xs : List A) (k : ℕ) (x : A) → get_elem? xs k ≡ some x → ltb k (length xs) ≡ true
some_bound [] k x h = cc
some_bound (y ∷ ys) zero x h = ground arith
some_bound (y ∷ ys) (suc k) x h = ground (arith, some_bound ys k x h)

module _ {Row Usage : Type 0} (ws : WorkflowStage) (input : WorkflowStageInput)
    (upstream : Table Row) (window : RowWindow) (source : RowSource) (r : StageRecord Usage) where
  abbrev pub read : Table Row
  read = (take_row_window upstream window source r).0

  read-at :
      (k : ℕ) (row : Row)
      → get_elem? read.rows k ≡ some row
      → get_elem? upstream.rows (window.start + k) ≡ some row
  read-at k row h =
      sym (get_elem?-drop window.start k upstream.rows)
      ∙ get_elem?-capped window.cap k (drop window.start upstream.rows) row
          (ap (λ l. get_elem? l k) (sym (take_row_window-rows upstream window source r)) ∙ h)

  whole :
      (k : ℕ) (row : Row)
      → (window.start == 0) ≡ true
      → get_elem? read.rows k ≡ some row
      → get_elem? upstream.rows k ≡ some row
  whole k row e h = ap (get_elem? upstream.rows) (from_zero window.start e) ∙ read-at k row h
    where
      from_zero : (n : ℕ) → (n == 0) ≡ true → k ≡ n + k
      from_zero n e = ground arith

  kept-at :
      (made : ℕ) (k : ℕ)
      → ltb k made ≡ true
      → get_elem? (kept_rows_lineage input.id (map pos (range window.start made))) k
        ≡ some (row_parent input.id (pos (window.start + k)) ∷ [])
  unfolding kept_rows_lineage
  kept-at made k h =
      get_elem?-map _ (map pos (range window.start made)) k
      ∙ ap (λ o. elim o [ some n ↦ some (row_parent input.id n ∷ []) | none ↦ none ])
          (get_elem?-range pos window.start made k
            ∙ ap (λ b. if b then some (pos (window.start + k)) else none) h)

  sliced-Names :
      (output : Table Row) (k : ℕ) (row : Row)
      → ws.inputs ≡ input ∷ []
      → is_grain_and_order_preserving (type_of ws.stage) ≡ true
      → length output.rows ≡ length read.rows
      → get_elem? read.rows k ≡ some row
      → Names input.id upstream.rows k row (sliced_input_lineage ws output window)
  unfolding sliced_input_lineage
  sliced-Names output k row one preserving same h =
      elim (Bool-cases (window.start == 0 && is_none window.cap)) [
        | inl e ↦ rw (sliced_input_lineage, e) (whole k row (ground (arith, e)) h)
        | inr e ↦
            rw (sliced_input_lineage, e, preserving, one)
              (
                window.start + k,
                kept-at (length output.rows) k (ap (ltb k) same ∙ some_bound read.rows k row h),
                read-at k row h,
              )
      ]

  -- Of a stage that preserves grain and order, with one input and a handler that reports no lineage
  -- and makes a row of each row it read, the lineage of an output row names the input's row that
  -- was read for it; or there is no lineage, and the rows are at the same place.
  pub stage_row_lineage-Names :
      (output : StageOutput Row Usage) (inputs : List (String × Table Row)) (k : ℕ) (row : Row)
      → ws.inputs ≡ input ∷ []
      → is_grain_and_order_preserving (type_of ws.stage) ≡ true
      → output.lineage ≡ none
      → length output.table.rows ≡ length read.rows
      → get_elem? read.rows k ≡ some row
      → Names input.id upstream.rows k row (stage_row_lineage ws output inputs window)
  unfolding stage_row_lineage
  stage_row_lineage-Names output inputs k row one preserving unreported same h =
      rw (stage_row_lineage, unreported, preserving-not_union (type_of ws.stage) preserving)
        (sliced-Names output.table k row one preserving same h)
