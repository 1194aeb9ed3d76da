-- ===== src/Trace/Picked.antt =====
-- Which row a choice names, and what the walk follows at a fan-in.
use carbonpaper.Prelude.{
  ◌≡◌, refl, sym, ap, ◌∙◌, subst, String, Bool, Option, some, none, List, [], ◌∷◌, map, find,
  contains, if◌then◌else◌, Result, ok, ◌>>=◌, >>=-eq-ok, ok-injective, arith, ◌⊎◌, inl, inr,
  Bool-cases, string_eq, int_eq, int_beq_iff, eq_iff,
}
use carbonpaper.Lineage.Row.{RowParent}
use carbonpaper.Stage.Kind.{StageType}
use carbonpaper.Trace.FanIn.{
  RowSampleChoice, TraceError, find_fan_in, is_chosen, found_or_raise, match_named_contributor,
  sample_from_fan_in,
}
use carbonpaper.Trace.Step.{follow}

-- The row is the one that the choice names.
abbrev pub Names : RowSampleChoice → RowParent → Type 0
Names choice p = (p.stage_id ≡ choice.stage_id) × (p.row_ordinal ≡ choice.row_ordinal)

find-chosen :
    (choice : RowSampleChoice) (ps : List RowParent) (p : RowParent)
    → find (is_chosen choice) ps ≡ some p
    → Names choice p
find-chosen choice [] p e = cc
find-chosen choice (q ∷ ps) p e = elim (Bool-cases (is_chosen choice q)) [
  | inl h ↦
      let same : q ≡ p = some_inj (ground arith) in
      subst (Names choice) same (
        (eq_iff q.stage_id choice.stage_id).0 (ground arith),
        (int_beq_iff q.row_ordinal choice.row_ordinal).0 (ground arith),
      )
  | inr h ↦ find-chosen choice ps p (ground arith)
]
  where
    some_inj : {a b : RowParent} → ◌≡◌ {A = Option RowParent} (some a) (some b) → a ≡ b
    some_inj f = cc

matched :
    (sid : String) (choice : RowSampleChoice) (ps : List RowParent) (p : RowParent)
    → match_named_contributor sid ps choice ≡ ok p
    → Names choice p
unfolding match_named_contributor
matched sid choice ps p e = by_found (find (is_chosen choice) ps) refl e
  where
    by_found :
        (o : Option RowParent)
        → find (is_chosen choice) ps ≡ o
        → found_or_raise sid choice o ≡ ok p
        → Names choice p
    by_found none f g = cc
    by_found (some q) f g = find-chosen choice ps p (f ∙ ap some (ok-injective g))

-- No choice is used, or the first is, at a fan-in, and then what is followed is the row that it names.
abbrev pub Used :
    Option (List RowParent)
    → Option RowParent
    → List RowSampleChoice
    → List RowSampleChoice
    → Type 0
Used fan_in followed pending left =
    (left ≡ pending)
    ⊎ ((choice : RowSampleChoice) × (p : RowParent) × (ps : List RowParent) × (pending
          ≡ choice ∷ left)
        × (followed ≡ some p)
        × (fan_in ≡ some ps)
        × Names choice p)

pub follow-Used :
    (sid : String) (fan_in : Option (List RowParent)) (pending left : List RowSampleChoice)
    (followed : Option RowParent)
    → follow sid fan_in pending ≡ ok (followed, left)
    → Used fan_in followed pending left
unfolding sample_from_fan_in
follow-Used sid none pending left followed e = inl (ap (λ x. x.1) (sym (ok-injective e)))
follow-Used sid (some []) pending left followed e = inl (ap (λ x. x.1) (sym (ok-injective e)))
follow-Used sid (some (q ∷ ps)) [] left followed e = inl (ap (λ x. x.1) (sym (ok-injective e)))
follow-Used sid (some (q ∷ ps)) (choice ∷ pending) left followed e =
    elim (Bool-cases (contains (map (λ q. q.stage_id) (q ∷ ps)) choice.stage_id)) [
      | inr h ↦ inl (ap (λ x. x.1) (sym (ok-injective (sym (ap branch h) ∙ e))))
      | inl h ↦
          let (p, f, g) =
            >>=-eq-ok (match_named_contributor sid (q ∷ ps) choice) _ (sym (ap branch h) ∙ e) in
          inr (
            choice,
            p,
            q ∷ ps,
            ap (λ x. choice ∷ x.1) (ok-injective g),
            ap (λ x. x.0) (sym (ok-injective g)),
            refl,
            matched sid choice (q ∷ ps) p f,
          )
    ]
  where
    branch : Bool → Result TraceError (Option RowParent × List RowSampleChoice)
    branch b =
        if b
        then (match_named_contributor sid (q ∷ ps) choice >>= λ chosen. ok (some chosen, pending))
        else ok (some q, choice ∷ pending)

pub no_spine :
    (type : Option StageType) (spine : Option RowParent) (hops : Option (List RowParent))
    (ps : List RowParent)
    → find_fan_in type spine hops ≡ some ps
    → spine ≡ none
unfolding find_fan_in
no_spine type none hops ps e = refl
no_spine type (some s) hops ps e = absurd (none_there type e)
  where
    none_there : (t : Option StageType) → find_fan_in t (some s) hops ≡ some ps → ⊥
    none_there (some StageType.input_data) f = cc
    none_there _ f = cc
