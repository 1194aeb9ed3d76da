-- ===== src/Trace/Chained.antt =====
-- The rows that a walk went through are linked.
use carbonpaper.Prelude.{
  ℕ, zero, suc, ◌≡◌, sym, ◌∙◌, subst, String, true, false, Option, some, none, List, [], ◌∷◌, ℤ,
  Result, ok, err, ◌↔◌, string_eq,
}
use carbonpaper.Trace.Frames.{Table, RunFrames}
use carbonpaper.Trace.FanIn.{RowSampleChoice, TraceError}
use carbonpaper.Trace.Step.{
  Manifest, hop, stop, TraceEnd, StageTransform, is_input_data, Turn, ended, recorded, Walked,
  behind, after_turn,
}
use carbonpaper.Trace.Walk.{walk}
use carbonpaper.Trace.Linked.{IsStepAt, CameFrom, Stepped, OfTurn, turn-OfTurn}

module _ (manifest : Manifest) (frames : RunFrames) where
  -- The rows that a walk from a row went through, newest first, up to its end.
  abbrev pub Chain : String → ℤ → List StageTransform → TraceEnd → Type 0
  Chain sid r [] last = (frames.output sid ≡ none) × (last.reached_origin ≡ false)
  Chain sid r (s ∷ []) last =
      IsStepAt manifest frames sid r s
      × ((last.reached_origin ≡ true) ↔ (is_input_data s.stage_type ≡ true))
  Chain sid r (s ∷ t ∷ rest) last =
      IsStepAt manifest frames sid r s
      × CameFrom manifest frames sid r t.stage_id t.row_ordinal
      × Chain t.stage_id t.row_ordinal (t ∷ rest) last

  unfoldable pub OfWalked : String → ℤ → Option Walked → Type 0
  OfWalked sid r none = Unit
  OfWalked sid r (some (err e)) = Unit
  OfWalked sid r (some (ok (steps, last, left))) = Chain sid r steps last

  Chain-cons :
      (sid : String) (r : ℤ) (s : StageTransform) (sid' : String) (r' : ℤ)
      (steps : List StageTransform) (last : TraceEnd)
      → Stepped manifest frames sid r s (hop sid' r')
      → Chain sid' r' steps last
      → Chain sid r (s ∷ steps) last
  Chain-cons sid r s sid' r' [] last (at, came, landed) (missing, _) =
      absurd-of (sym missing ∙ landed.is_output)
    where
      absurd-of : {A : Type 0} {t : Table} → ◌≡◌ {A = Option Table} none (some t) → A
      absurd-of e = cc
  Chain-cons sid r s sid' r' (t ∷ rest) last (at, came, landed) chain =
      let (x, y) = first_at sid' r' t rest last chain in
      (
        at,
        subst (λ i. CameFrom manifest frames sid r i t.row_ordinal) (sym x)
            (subst (CameFrom manifest frames sid r sid') (sym y) came),
        subst (λ i. Chain i t.row_ordinal (t ∷ rest) last) (sym x)
            (subst (λ q. Chain sid' q (t ∷ rest) last) (sym y) chain),
      )
    where
      first_at :
          (sid' : String) (r' : ℤ) (t : StageTransform) (rest : List StageTransform)
          (last : TraceEnd)
          → Chain sid' r' (t ∷ rest) last
          → (t.stage_id ≡ sid') × (t.row_ordinal ≡ r')
      first_at sid' r' t [] last c = (c.0.same_stage, c.0.same_row)
      first_at sid' r' t (u ∷ rest) last c = (c.0.same_stage, c.0.same_row)

  behind-OfWalked :
      (sid : String) (r : ℤ) (s : StageTransform) (sid' : String) (r' : ℤ) (w : Option Walked)
      → Stepped manifest frames sid r s (hop sid' r')
      → OfWalked sid' r' w
      → OfWalked sid r (behind s w)
  unfolding OfWalked
  behind-OfWalked sid r s sid' r' none h k = tt
  behind-OfWalked sid r s sid' r' (some (err e)) h k = tt
  behind-OfWalked sid r s sid' r' (some (ok (steps, last, left))) h k =
      Chain-cons sid r s sid' r' steps last h k

  after_turn-OfWalked :
      (go : String → ℤ → List RowSampleChoice → Option Walked) (sid : String) (r : ℤ)
      (o : Result TraceError Turn)
      → ((sid' : String) (r' : ℤ) (left : List RowSampleChoice)
          → OfWalked sid' r' (go sid' r' left))
      → OfTurn manifest frames sid r o
      → OfWalked sid r (after_turn go o)
  unfolding OfTurn OfWalked
  after_turn-OfWalked go sid r (err e) h t = tt
  after_turn-OfWalked go sid r (ok (ended last left)) h t = t
  after_turn-OfWalked go sid r (ok (recorded s (stop last) left)) h t = t
  after_turn-OfWalked go sid r (ok (recorded s (hop sid' r') left)) h t =
      behind-OfWalked sid r s sid' r' (go sid' r' left) t (h sid' r' left)

  pub walk-OfWalked :
      (fuel : ℕ) (sid : String) (r : ℤ) (pending : List RowSampleChoice)
      → OfWalked sid r (walk manifest frames fuel sid r pending)
  unfolding walk OfWalked
  walk-OfWalked zero sid r pending = tt
  walk-OfWalked (suc fuel) sid r pending =
      after_turn-OfWalked (walk manifest frames fuel) sid r _ (walk-OfWalked fuel)
        (turn-OfTurn manifest frames sid r pending)
