-- ===== src/Trace/Sampled.antt =====
-- The place that a trace gives the row it sampled.
use carbonpaper.Prelude.{
  ℕ, ◌+◌, ◌≤◌, ◌<◌, ◌≡◌, refl, ap, sym, subst, String, true, Option, some, List, [], ◌∷◌, length,
  ◌==◌, ok, arith, inl, inr, Bool-cases, All, All-map, Memᴰ, get_elem?,
}
use carbonpaper.Lineage.Row.{RowParent}
use carbonpaper.Lineage.Equal.{parent_eq, parent_beq_iff}
use carbonpaper.Trace.FanIn.{RowSampleChoice, index_of, read_row_sample}
use carbonpaper.Trace.Step.{follow}
use carbonpaper.Trace.Hops.{All-follow}

-- The place is the row's own.
index_of-at :
    (p : RowParent) (qs : List RowParent)
    → Memᴰ p qs
    → (index_of p qs < length qs) × (get_elem? qs (index_of p qs) ≡ some p)
index_of-at p [] m = elim m [ ]
index_of-at p (q ∷ qs) (Memᴰ.head e) =
    let same : (q == p) ≡ true = (parent_beq_iff q p).1 (sym e) in
    rw same (omega arith, ap some (sym e))
index_of-at p (q ∷ qs) (Memᴰ.tail m) = elim (Bool-cases (q == p)) [
  | inl same ↦ rw same (omega arith, ap some ((parent_beq_iff q p).0 same))
  | inr differ ↦ let (lt, at) = index_of-at p qs m in rw differ (omega (arith, lt), at)
]

All-self : {A : Type 0} (xs : List A) → All (λ x. Memᴰ x xs) xs
All-self [] = tt
All-self (x ∷ xs) = (Memᴰ.head refl, All-map (λ y m. Memᴰ.tail m) xs (All-self xs))

-- Where the walk follows a row of a fan-in, the sample that the step records has that row's place,
-- counted from 1 and at most the number of rows in the fan-in.
pub read_row_sample-bounds :
    (sid : String) (fan_in : List RowParent) (pending left : List RowSampleChoice) (p : RowParent)
    → follow sid (some fan_in) pending ≡ ok (some p, left)
    → (i : ℕ) × (read_row_sample (some fan_in) (some p)
        ≡ some (record { place = i + 1; of = length fan_in }))
      × (1 ≤ i + 1)
      × (i + 1 ≤ length fan_in)
      × (get_elem? fan_in i ≡ some p)
unfolding read_row_sample
read_row_sample-bounds sid fan_in pending left p e =
    let m =
      All-follow (λ q. Memᴰ q fan_in) sid (some fan_in) pending left p
        (λ ps f. subst (λ l. All (λ q. Memᴰ q fan_in) l) (some_inj f) (All-self fan_in)) e in
    let (lt, at) = index_of-at p fan_in m in
    (index_of p fan_in, refl, omega arith, omega (arith, lt), at)
  where
    some_inj : {a b : List RowParent} → ◌≡◌ {A = Option (List RowParent)} (some a) (some b) → a ≡ b
    some_inj f = cc
