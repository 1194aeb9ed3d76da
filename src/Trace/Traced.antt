-- ===== src/Trace/Traced.antt =====
-- A trace ends, raises for nothing but what its caller asked, and goes up the recorded lineage.
use carbonpaper.Prelude.{
  ℕ, zero, suc, ◌<◌, ◌≡◌, refl, sym, ap, ◌∙◌, subst, String, true, false, Option, some, none, List,
  [], ◌∷◌, ℤ, Result, ok, err, ◌>>=◌, arith, inl, inr, Bool-cases, All, All-mem, lookup, keys,
  contains, string_eq, ◌==◌,
}
use carbonpaper.Lineage.Row.{RowParent}
use carbonpaper.Trace.Frames.{StageRecord, RunFrames, parents_of, lineage_hops, split_spine}
use carbonpaper.Trace.FanIn.{RowSampleChoice, TraceError, find_fan_in, sample_from_fan_in}
use carbonpaper.Trace.Step.{
  Manifest, Next, hop, stop, TraceEnd, StageTransform, Turn, ended, or_no_hops, follow, recorded,
  Walked, behind, after_turn, Trace, finished,
}
use carbonpaper.Trace.Walk.{
  is_in_run, turn_if_in_range, turn_in_stage, turn_of_record, turn, walk, trace_row_from, advance,
  record_step,
}
use carbonpaper.Trace.Landing.{IsRow}
use carbonpaper.Trace.Linked.{Stepped, OfTurn, turn-OfTurn, CameFrom}

contains-lookup :
    {V : Type 0} (k : String) (m : List (String × V))
    → contains (keys m) k ≡ true
    → (v : V) × (lookup k m ≡ some v)
contains-lookup k [] h = cc
contains-lookup k ((j, v) ∷ m) h = elim (Bool-cases (k == j)) [
  | inl e ↦ (v, ground arith)
  | inr e ↦ let (w, f) = contains-lookup k m (ground arith) in (w, ground arith)
]

module _ (manifest : Manifest) (frames : RunFrames) where
  -- The stages can be numbered so that lineage and manifest lead only to lower numbers, as the
  -- stages of a run that was executed in order can.
  pub record IsRanked (rank : String → ℕ) : Type 0 where
    pub by_lineage :
        (sid : String) (r : ℤ) (hops : List RowParent)
        → lineage_hops frames sid r ≡ some hops
        → All (λ p. rank p.stage_id < rank sid) hops
    pub by_manifest :
        (sid : String) (stage_record : StageRecord) (parent : String)
        → lookup sid manifest.by_id ≡ some stage_record
        → parents_of stage_record ≡ parent ∷ []
        → rank parent < rank sid

  rank_falls :
      (rank : String → ℕ) (sid : String) (r : ℤ) (sid' : String) (r' : ℤ)
      → IsRanked rank
      → CameFrom manifest frames sid r sid' r'
      → rank sid' < rank sid
  rank_falls rank sid r sid' r' h (inl (hops, p, e, m, x, y)) =
      subst (λ s. rank s < rank sid) x
        (All-mem (λ q. rank q.stage_id < rank sid) hops (h.by_lineage sid r hops e) m)
  rank_falls rank sid r sid' r' h (inr (stage_record, table, e, f, g, kept)) =
      h.by_manifest sid stage_record sid' e kept.only_parent

  follow_freely :
      (sid : String) (fan_in : Option (List RowParent))
      → (followed : Option RowParent) × (follow sid fan_in [] ≡ ok (followed, []))
  unfolding sample_from_fan_in
  follow_freely sid none = (none, refl)
  follow_freely sid (some []) = (none, refl)
  follow_freely sid (some (p ∷ ps)) = (some p, refl)

  -- At a row of the run, with no choice to honour, a round makes a step.
  turn_freely :
      (sid : String) (r : ℤ)
      → IsRow manifest frames sid r
      → (s : StageTransform) × (next : Next) × (turn manifest frames sid r []
          ≡ ok (recorded s next []))
  unfolding turn
  turn_freely sid r row =
      let (stage_record, e) = contains-lookup sid manifest.by_id row.in_run in
      let hops = lineage_hops frames sid r in
      let spine = (split_spine (or_no_hops hops)).0 in
      let fan_in = find_fan_in stage_record.type spine hops in
      let (followed, g) = follow_freely sid fan_in in
      (
        record_step manifest frames sid stage_record r row.table (split_spine (or_no_hops hops)).1
            spine fan_in followed,
        advance manifest frames sid stage_record.type r row.table (parents_of stage_record) spine
            fan_in followed,
        ap (turn_of_record manifest frames sid r []) e
            ∙ ap (turn_in_stage manifest frames sid stage_record r []) row.is_output
            ∙ ap (turn_if_in_range manifest frames sid stage_record r [] row.table) row.in_table
            ∙ ap
                (λ o. o >>= λ (x, left). ok (
                  recorded
                    (record_step manifest frames sid stage_record r row.table
                      (split_spine (or_no_hops hops)).1 spine fan_in x)
                    (advance manifest frames sid stage_record.type r row.table
                      (parents_of stage_record) spine fan_in x)
                    left))
                g,
      )

  -- A walk of its row ends, on more fuel than the stage's number, and raises nothing.
  abbrev Ends : Option Walked → Type 0
  Ends w = (steps : List StageTransform) × (last : TraceEnd) × (w ≡ some (ok (steps, last, [])))

  Ends-behind : (s : StageTransform) (w : Option Walked) → Ends w → Ends (behind s w)
  Ends-behind s w (steps, last, e) = (s ∷ steps, last, ap (behind s) e)

  walk-Ends :
      (rank : String → ℕ) (fuel : ℕ) (sid : String) (r : ℤ)
      → IsRanked rank
      → IsRow manifest frames sid r
      → rank sid < fuel
      → Ends (walk manifest frames fuel sid r [])
  unfolding walk OfTurn
  walk-Ends rank zero sid r h row b = absurd (omega (arith, b))
  walk-Ends rank (suc fuel) sid r h row b =
      let (s, next, e) = turn_freely sid r row in
      let stepped = subst (OfTurn manifest frames sid r) e (turn-OfTurn manifest frames sid r []) in
      subst (λ o. Ends (after_turn (walk manifest frames fuel) o)) (sym e)
        (by_next s next stepped
          (λ sid' r' row' lower. walk-Ends rank fuel sid' r' h row' (omega (arith, b, lower))))
    where
      by_next :
          (s : StageTransform) (next : Next)
          → Stepped manifest frames sid r s next
          → ((sid' : String) (r' : ℤ)
              → IsRow manifest frames sid' r'
              → rank sid' < rank sid
              → Ends (walk manifest frames fuel sid' r' []))
          → Ends (after_turn (walk manifest frames fuel) (ok (recorded s next [])))
      by_next s (stop last) stepped go = (s ∷ [], last, refl)
      by_next s (hop sid' r') (at, came, landed) go =
          Ends-behind s (walk manifest frames fuel sid' r' [])
            (go sid' r' landed (rank_falls rank sid r sid' r' h came))

  behind-some : (s : StageTransform) (w : Walked) → (v : Walked) × (behind s (some w) ≡ some v)
  behind-some s (err e) = (err e, refl)
  behind-some s (ok (steps, last, left)) = (ok (s ∷ steps, last, left), refl)

  -- A walk ends, whatever it is asked, on more fuel than the stage's number.
  walk-some :
      (rank : String → ℕ) (fuel : ℕ) (sid : String) (r : ℤ) (pending : List RowSampleChoice)
      → IsRanked rank
      → rank sid < fuel
      → (w : Walked) × (walk manifest frames fuel sid r pending ≡ some w)
  unfolding walk OfTurn
  walk-some rank zero sid r pending h b = absurd (omega (arith, b))
  walk-some rank (suc fuel) sid r pending h b =
      by_turn (turn manifest frames sid r pending) (turn-OfTurn manifest frames sid r pending)
        (λ sid' r' left lower. walk-some rank fuel sid' r' left h (omega (arith, b, lower)))
    where
      by_turn :
          (o : Result TraceError Turn)
          → OfTurn manifest frames sid r o
          → ((sid' : String) (r' : ℤ) (left : List RowSampleChoice)
              → rank sid' < rank sid
              → (w : Walked) × (walk manifest frames fuel sid' r' left ≡ some w))
          → (w : Walked) × (after_turn (walk manifest frames fuel) o ≡ some w)
      by_turn (err e) t go = (err e, refl)
      by_turn (ok (ended last left)) t go = (ok ([], last, left), refl)
      by_turn (ok (recorded s (stop last) left)) t go = (ok (s ∷ [], last, left), refl)
      by_turn (ok (recorded s (hop sid' r') left)) (at, came, landed) go =
          let (w, e) = go sid' r' left (rank_falls rank sid r sid' r' h came) in
          let (v, f) = behind-some s w in (v, ap (behind s) e ∙ f)

  -- Where the run's stages can be numbered so that its lineage and its manifest lead only to lower
  -- numbers, a trace of any row of any stage, with any choices, ends on more fuel than the number of
  -- the stage: it answers or raises. With no choices, and for a row that the stage's output has, it
  -- answers.
  pub trace_row_from-total :
      (rank : String → ℕ) (fuel : ℕ) (sid : String) (r : ℤ) (choices : List RowSampleChoice)
      → IsRanked rank
      → rank sid < fuel
      → (answer : Result TraceError Trace) × (trace_row_from manifest frames fuel sid r choices
          ≡ some answer)
        × (choices ≡ [] → IsRow manifest frames sid r → (trace : Trace) × (answer ≡ ok trace))
  unfolding trace_row_from
  trace_row_from-total rank fuel sid r choices h b =
      let (w, e) = walk-some rank fuel sid r choices h b in
      elim (Bool-cases (is_in_run manifest frames sid)) [
        | inr out ↦ (
          err (TraceError.stage_not_in_run sid),
          rw out refl,
          λ _ row. absurd-of (sym out ∙ row.in_run),
        )
        | inl in_run ↦ (
          finished sid r w,
          rw in_run (ap answered e),
          λ none_chosen row.
              let (steps, last, f) = walk-Ends rank fuel sid r h row b in
              let g = sym e ∙ ap (walk manifest frames fuel sid r) none_chosen ∙ f in
              (
                record { start_stage = sid; start_row = r; steps = steps; last = last },
                some_ok (ap answered g),
              ),
        )
      ]
    where
      answered : Option Walked → Option (Result TraceError Trace)
      answered o = elim o [ none ↦ none | some x ↦ some (finished sid r x) ]

      absurd-of : {A : Type 0} → false ≡ true → A
      absurd-of e = cc

      some_ok : {A : Type 0} {a b : A} → ◌≡◌ {A = Option A} (some a) (some b) → a ≡ b
      some_ok e = cc
