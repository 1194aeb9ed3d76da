-- ===== src/Trace/Hops.antt =====
-- Where one round of the walk can lead.
use carbonpaper.Prelude.{
  ◌≡◌, refl, subst, String, Bool, true, false, Option, some, none, List, [], ◌∷◌, map, find,
  contains, string_eq, nat_eq, int_eq, ◌==◌, Result, ok, >>=-eq-ok, inl, inr, Bool-cases, All,
  All-filter, All-sorted, sorted,
}
use carbonpaper.Lineage.Row.{RowParent, direct}
use carbonpaper.Stage.Kind.{StageType}
use carbonpaper.Trace.Frames.{split_at, split_spine}
use carbonpaper.Trace.FanIn.{
  RowSampleChoice, TraceError, contributions, in_row_order, find_fan_in, is_chosen, found_or_raise,
  match_named_contributor, sample_from_fan_in,
}
use carbonpaper.Trace.Step.{follow, or_no_hops}

some_inj : {A : Type 0} {a b : A} → ◌≡◌ {A = Option A} (some a) (some b) → a ≡ b
some_inj f = cc

module _ (P : RowParent → Type 0) where
  All-split_at :
      (p q : RowParent) (hops : List RowParent) (split : Option RowParent × List RowParent)
      (is_direct : Bool)
      → P q
      → (split.0 ≡ some p → P p)
      → (split_at q hops split is_direct).0 ≡ some p
      → P p
  All-split_at p q hops split true h g e = subst P (some_inj e) h
  All-split_at p q hops split false h g e = g e

  -- What holds of all parents of a row holds of its spine.
  pub All-split_spine :
      (hops : List RowParent) (p : RowParent) → All P hops → (split_spine hops).0 ≡ some p → P p
  unfolding split_spine
  All-split_spine [] p h e = cc
  All-split_spine (q ∷ hops) p h e =
      All-split_at p q hops (split_spine hops) (q.kind == direct) h.0 (All-split_spine hops p h.1) e

  All-find :
      (test : RowParent → Bool) (ps : List RowParent) (p : RowParent)
      → All P ps
      → find test ps ≡ some p
      → P p
  All-find test [] p h e = cc
  All-find test (q ∷ ps) p h e = elim (Bool-cases (test q)) [
    | inl t ↦ subst P (some_inj (rw t at e)) h.0
    | inr t ↦ All-find test ps p h.1 (rw t at e)
  ]

  All-found_or_raise :
      (sid : String) (choice : RowSampleChoice) (found : Option RowParent) (p : RowParent)
      → found_or_raise sid choice found ≡ ok p
      → found ≡ some p
  All-found_or_raise sid choice none p e = cc
  All-found_or_raise sid choice (some q) p e = cc

  -- And of the row that the walk samples among them.
  All-sample_from_fan_in :
      (sid : String) (fan_in : List RowParent) (pending left : List RowSampleChoice) (p : RowParent)
      → All P fan_in
      → sample_from_fan_in sid fan_in pending ≡ ok (some p, left)
      → P p
  unfolding sample_from_fan_in match_named_contributor
  All-sample_from_fan_in sid [] pending left p h e = cc
  All-sample_from_fan_in sid (q ∷ fan_in) [] left p h e = subst P (cc) h.0
  All-sample_from_fan_in sid (q ∷ fan_in) (choice ∷ pending) left p h e =
      elim (Bool-cases (contains (map (λ r. r.stage_id) (q ∷ fan_in)) choice.stage_id)) [
        | inl c ↦
            let (followed, f, g) =
              >>=-eq-ok (match_named_contributor sid (q ∷ fan_in) choice) _ (rw c at e) in
            let found = All-found_or_raise sid choice _ followed f in
            subst P (cc g) (All-find (is_chosen choice) (q ∷ fan_in) followed h found)
        | inr c ↦ subst P (first (rw c at e)) h.0
      ]
    where
      first :
          ◌≡◌ {A = Result TraceError (Option RowParent × List RowSampleChoice)}
            (ok (some q, choice ∷ pending))
            (ok (some p, left))
          → q ≡ p
      first f = cc

  pub All-follow :
      (sid : String) (fan_in : Option (List RowParent)) (pending left : List RowSampleChoice)
      (p : RowParent)
      → ((ps : List RowParent) → fan_in ≡ some ps → All P ps)
      → follow sid fan_in pending ≡ ok (some p, left)
      → P p
  All-follow sid none pending left p h e = cc
  All-follow sid (some ps) pending left p h e =
      All-sample_from_fan_in sid ps pending left p (h ps refl) e

-- What holds of all parents of a row holds of all that were summarized into it.
pub All-find_fan_in :
    (P : RowParent → Type 0) (type : Option StageType) (spine : Option RowParent)
    (hops : Option (List RowParent)) (fan_in : List RowParent)
    → All P (or_no_hops hops)
    → find_fan_in type spine hops ≡ some fan_in
    → All P fan_in
unfolding find_fan_in
All-find_fan_in P (some StageType.input_data) spine hops fan_in h e = cc
All-find_fan_in P type (some spine) hops fan_in h e = absurd (none_is_some type e)
  where
    none_is_some : (t : Option StageType) → find_fan_in t (some spine) hops ≡ some fan_in → ⊥
    none_is_some _ f = cc
All-find_fan_in P type none none fan_in h e = absurd (none_is_some type e)
  where
    none_is_some : (t : Option StageType) → find_fan_in t none none ≡ some fan_in → ⊥
    none_is_some _ f = cc
All-find_fan_in P type none (some hops) fan_in h e =
    subst (All P) (is_sorted type e)
      (All-sorted P in_row_order (contributions hops) (All-filter P _ hops h))
  where
    is_sorted :
        (t : Option StageType)
        → find_fan_in t none (some hops) ≡ some fan_in
        → sorted in_row_order (contributions hops) ≡ fan_in
    is_sorted _ f = cc
