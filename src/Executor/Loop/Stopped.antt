-- ===== src/Executor/Loop/Stopped.antt =====
-- Where the loop stops before its end.
use mathlib.Core.List.{append_assoc}
use carbonpaper.Prelude.{
  ℕ, suc, ◌+◌, ◌≡◌, refl, ◌∙◌, ap, subst, ◌⊎◌, inl, inr, String, false, some, List, [], ◌∷◌, ◌++◌,
  All, contains, string_eq, eq_iff, length, arith,
}
use carbonpaper.Workflow.Resolve.{WorkflowStage}
use carbonpaper.Executor.Status.{StageStatus}
use carbonpaper.Executor.Progress.{Progress}
use carbonpaper.Executor.Loop.Turn.{record_at, status_at, Settled, Turned}
use carbonpaper.Executor.Loop.Between.{stage_ids, InOrder, Between}

stage_ids-suffix :
    (i : String) (xs ys : List WorkflowStage)
    → contains (stage_ids (xs ++ ys)) i ≡ false
    → contains (stage_ids ys) i ≡ false
stage_ids-suffix i [] ys h = h
stage_ids-suffix i (x ∷ xs) ys h = stage_ids-suffix i xs ys (ground (arith, h))

pub All_refl : {A B : Type 0} (f : A → B) (xs : List A) → All (λ x. f x ≡ f x) xs
All_refl f [] = tt
All_refl f (x ∷ xs) = (refl, All_refl f xs)

module _ {Row Usage World : Type 0} where
  -- Where the loop stopped before its end: the stages in front are settled, those behind have the
  -- records that they had, and so has the stage itself, unless its record says that it was cancelled.
  pub record Stopped (index : ℕ) (done rest : List WorkflowStage) (p q : Progress Row Usage World)
      : Type 0 where
    pub before : List WorkflowStage
    pub stage : WorkflowStage
    pub after : List WorkflowStage
    pub split : rest ≡ before ++ stage ∷ after
    pub at_index : q.cancel_at_index ≡ some (index + length before)
    pub settled : All (λ w. Settled w q) (done ++ before)
    pub untouched : All (λ w. record_at q w.stage.id ≡ record_at p w.stage.id) after
    pub stopped :
        (record_at q stage.stage.id ≡ record_at p stage.stage.id)
        ⊎ (status_at q stage.stage.id ≡ some StageStatus.cancelled)

  abbrev pub Ran :
      ℕ
      → List WorkflowStage
      → List WorkflowStage
      → Progress Row Usage World
      → Progress Row Usage World
      → Type 0
  Ran index done rest p q = Between (done ++ rest) [] q ⊎ Stopped index done rest p q

  module _ (index : ℕ) (ws : WorkflowStage) (done rest : List WorkflowStage)
      (p q r : Progress Row Usage World) (t : Turned ws.stage.id p q)
      (o : InOrder (ws ∷ rest)) where
    -- The stages behind do not stand in the turn's way.
    pub apart_rest :
        (some_rest : List WorkflowStage)
        → contains (stage_ids some_rest) ws.stage.id ≡ false
        → All (λ w. record_at r w.stage.id ≡ record_at q w.stage.id) some_rest
        → All (λ w. record_at r w.stage.id ≡ record_at p w.stage.id) some_rest
    apart_rest [] h k = tt
    apart_rest (w ∷ ws') h k = (
      k.0
          ∙ t.records w.stage.id
              (ground (arith, h, eq_iff ws.stage.id w.stage.id, eq_iff w.stage.id ws.stage.id)),
      apart_rest ws' (ground (arith, h)) k.1,
    )

    pub Ran-later : Ran (suc index) (done ++ ws ∷ []) rest q r → Ran index done (ws ∷ rest) p r
    Ran-later (inl b) = inl (subst (λ l. Between l [] r) (append_assoc done (ws ∷ []) rest) b)
    Ran-later (inr s) = inr (record {
      before = ws ∷ s.before;
      stage = s.stage;
      after = s.after;
      split = ap (λ l. ws ∷ l) s.split;
      at_index = s.at_index ∙ ap some (omega arith);
      settled =
          subst (λ l. All (λ w. Settled w r) l) (append_assoc done (ws ∷ []) s.before) s.settled;
      untouched = apart_rest s.after (ground (arith, behind s)) s.untouched;
      stopped = elim s.stopped [
        | inl e ↦ inl (apart_rest (s.stage ∷ []) (ground (arith, behind s)) (e, tt)).0
        | inr e ↦ inr e
      ];
    })
      where
        behind :
            (s : Stopped (suc index) (done ++ ws ∷ []) rest q r)
            → contains (stage_ids (s.stage ∷ s.after)) ws.stage.id ≡ false
        behind s =
            stage_ids-suffix ws.stage.id s.before (s.stage ∷ s.after)
              (subst (λ l. contains (stage_ids l) ws.stage.id ≡ false) s.split o.1.0)
