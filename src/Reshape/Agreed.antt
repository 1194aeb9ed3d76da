-- ===== src/Reshape/Agreed.antt =====
-- What it means that a group is not refused.
use carbonpaper.Prelude.{
  ℕ, zero, suc, ◌+◌, ◌<◌, ◌≡◌, refl, sym, ap, subst, ◌∙◌, ◌↔◌, ◌⊎◌, Bool, true, false, String,
  Option, some, none, List, [], ◌∷◌, ◌++◌, any, length, Result, ok, All, arith, Bool-cases, inl,
  inr,
}
use carbonpaper.Reshape.Agreement.{
  Cells, StepRefused, same, distinct_from, distinct, agreed_value, take_the_agreed_value, column_at,
  one_value, column_agrees, refuse_from, refuse_a_disagreeing_group,
}

module _ {A : Type 0} (cells : Cells A) where
  -- Every value is the same as the first.
  abbrev pub Agree : List A → Type 0
  Agree [] = Unit
  Agree (x ∷ xs) = All (λ v. same cells v x ≡ true) xs

  Two : List A → Type 0
  Two xs = (a b : A) × (rest : List A) × (xs ≡ a ∷ b ∷ rest)

  Two-distinct_from : (a b : A) (rest vs : List A) → Two (distinct_from cells (a ∷ b ∷ rest) vs)
  unfolding Two
  Two-distinct_from a b rest [] = (a, b, rest, refl)
  Two-distinct_from a b rest (v ∷ vs) = elim (Bool-cases (any (same cells v) (a ∷ b ∷ rest))) [
    | inl e ↦ rw e (Two-distinct_from a b rest vs)
    | inr e ↦ rw e (Two-distinct_from a b (rest ++ v ∷ []) vs)
  ]

  -- Either all are the same as the first, which is the only one left, or two are left.
  abbrev Told : A → List A → Type 0
  Told x vs =
      (All (λ v. same cells v x ≡ true) vs × (distinct_from cells (x ∷ []) vs ≡ x ∷ []))
      ⊎ ((All (λ v. same cells v x ≡ true) vs → ⊥) × Two (distinct_from cells (x ∷ []) vs))

  told : (x : A) (vs : List A) → Told x vs
  told x [] = inl (tt, refl)
  told x (v ∷ vs) = elim (Bool-cases (same cells v x)) [
    | inl e ↦ again e (told x vs)
    | inr e ↦ inr (λ h. differs e h.0, rw e (Two-distinct_from x v [] vs))
  ]
    where
      differs : {b : Bool} → b ≡ false → b ≡ true → ⊥
      differs e f = cc

      passed :
          same cells v x ≡ true
          → distinct_from cells (x ∷ []) (v ∷ vs) ≡ distinct_from cells (x ∷ []) vs
      passed e = rw e refl

      again : same cells v x ≡ true → Told x vs → Told x (v ∷ vs)
      again e (inl (h, f)) = inl ((e, h), passed e ∙ f)
      again e (inr (h, t)) = inr (λ k. h k.1, subst Two (sym (passed e)) t)

  -- From the values of a group that are not null, the first is taken exactly if every other is the
  -- same as it.
  take_the_agreed_value_iff :
      (x : A) (xs : List A) (column : String)
      → (take_the_agreed_value cells (x ∷ xs) column ≡ ok (some x)) ↔ Agree (x ∷ xs)
  unfolding take_the_agreed_value Two
  take_the_agreed_value_iff x xs column = elim (told x xs) [
    | inl (h, e) ↦ (λ _. h, λ _. ap (agreed_value cells column) e)
    | inr (h, (a, b, rest, e)) ↦ (
      λ f. absurd (refused a b rest (sym (ap (agreed_value cells column) e) ∙ f)),
      λ k. absurd (h k),
    )
  ]
    where
      refused :
          (a b : A) (rest : List A) → agreed_value cells column (a ∷ b ∷ rest) ≡ ok (some x) → ⊥
      refused a b rest e = cc

  -- Every row has a value in the column, and they agree.
  abbrev pub ColumnAgrees : List (List A) → ℕ → Type 0
  ColumnAgrees rows i = (values : List A) × (column_at cells i rows ≡ some values) × Agree values

  one_value_iff :
      (column : String) (values : List A) (rest : Result {0, 0} (StepRefused A) Unit)
      → (one_value cells column (distinct cells values) rest ≡ ok tt)
        ↔ (Agree values × (rest ≡ ok tt))
  unfolding Two
  one_value_iff column [] rest = (λ h. (tt, h), λ h. h.1)
  one_value_iff column (x ∷ xs) rest = elim (told x xs) [
    | inl (h, e) ↦ (
      λ f. (h, sym (ap (λ d. one_value cells column d rest) e) ∙ f),
      λ k. ap (λ d. one_value cells column d rest) e ∙ k.1,
    )
    | inr (h, (a, b, more, e)) ↦ (
      λ f. absurd (refused a b more (sym (ap (λ d. one_value cells column d rest) e) ∙ f)),
      λ k. absurd (h k.0),
    )
  ]
    where
      refused : (a b : A) (more : List A) → one_value cells column (a ∷ b ∷ more) rest ≡ ok tt → ⊥
      refused a b more e = cc

  next_column :
      (P : ℕ → Type 0) (start n : ℕ)
      → (P start × ((i : ℕ) → i < n → P (suc start + i))) ↔ ((i : ℕ) → i < suc n → P (start + i))
  next_column P start n = (
    both,
    λ h. (subst P at_zero (h 0 (omega arith)), λ i b. later i (h (suc i) (omega (arith, b)))),
  )
    where
      at_zero : start + 0 ≡ start
      at_zero = omega arith

      moved : (i : ℕ) → start + suc i ≡ suc start + i
      moved i = omega arith

      later : (i : ℕ) → P (start + suc i) → P (suc start + i)
      later i h = subst P (moved i) h

      both : P start × ((i : ℕ) → i < n → P (suc start + i)) → (i : ℕ) → i < suc n → P (start + i)
      both (h, k) zero b = subst P (sym at_zero) h
      both (h, k) (suc i) b = subst P (sym (moved i)) (k i (omega (arith, b)))

  some_injective : {a b : List A} → ◌≡◌ {A = Option (List A)} (some a) (some b) → a ≡ b
  some_injective e = cc

  column_agrees_iff :
      (column : String) (rows : List (List A)) (position : ℕ)
      (rest : Result {0, 0} (StepRefused A) Unit)
      → (column_agrees cells column (column_at cells position rows) rest ≡ ok tt)
        ↔ (ColumnAgrees rows position × (rest ≡ ok tt))
  column_agrees_iff column rows position rest = by_values (column_at cells position rows)
    where
      by_values :
          (o : Option (List A))
          → (column_agrees cells column o rest ≡ ok tt)
            ↔ (((values : List A) × (o ≡ some values) × Agree values) × (rest ≡ ok tt))
      by_values none = (λ h. cc, λ ((values, e, h), k). absurd (none_is e))
        where
          none_is : {values : List A} → ◌≡◌ {A = Option (List A)} none (some values) → ⊥
          none_is e = cc
      by_values (some values) = (
        λ h. (let k = (one_value_iff column values rest).0 h in ((values, refl, k.0), k.1)),
        λ h. (one_value_iff column values rest).1 (found h.0, h.1),
      )
        where
          found :
              (ws : List A) × (◌≡◌ {A = Option (List A)} (some values) (some ws)) × Agree ws
              → Agree values
          found (ws, e, h) = subst Agree (sym (some_injective e)) h

  refuse_from_iff :
      (start : ℕ) (rows : List (List A)) (columns : List String)
      → (refuse_from cells start rows columns ≡ ok tt)
        ↔ ((i : ℕ) → i < length columns → ColumnAgrees rows (start + i))
  refuse_from_iff start rows [] = (λ h i b. absurd (omega (arith, b)), λ h. refl)
  refuse_from_iff start rows (column ∷ columns) =
      let ih = refuse_from_iff (suc start) rows columns in
      let step = column_agrees_iff column rows start (refuse_from cells (suc start) rows columns) in
      let next = next_column (ColumnAgrees rows) start (length columns) in
      (λ h. next.0 ((step.0 h).0, ih.0 (step.0 h).1), λ h. step.1 ((next.1 h).0, ih.1 (next.1 h).1))

  -- A group is not refused exactly if, for the place of every column, each row has a value there and
  -- all are the same as that of the first row.
  pub refuse_a_disagreeing_group_iff :
      (rows : List (List A)) (columns : List String)
      → (refuse_a_disagreeing_group cells rows columns ≡ ok tt)
        ↔ ((i : ℕ) → i < length columns → ColumnAgrees rows i)
  unfolding refuse_a_disagreeing_group
  refuse_a_disagreeing_group_iff rows columns =
      let counted = refuse_from_iff 0 rows columns in
      (
        λ h i b. subst (ColumnAgrees rows) (from_zero i) (counted.0 h i b),
        λ h. counted.1 (λ i b. subst (ColumnAgrees rows) (sym (from_zero i)) (h i b)),
      )
    where
      from_zero : (i : ℕ) → 0 + i ≡ i
      from_zero i = omega arith
