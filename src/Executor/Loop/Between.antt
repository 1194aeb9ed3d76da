-- ===== src/Executor/Loop/Between.antt =====
-- What holds between two turns of the loop, and that a turn that settles its stage keeps it.
use carbonpaper.Prelude.{
  ℕ, ◌≡◌, refl, sym, ◌∙◌, ap, subst, inl, inr, String, Bool, true, false, not, ◌||◌, Option, some,
  none, List, [], ◌∷◌, ◌++◌, map, filter, any, All, All-map, All-append, contains, string_eq, ◌==◌,
  eq_iff, is_empty, arith, Bool-cases,
}
use carbonpaper.Workflow.Resolve.{WorkflowStage}
use carbonpaper.Executor.Status.{StageStatus}
use carbonpaper.Executor.Progress.{Progress, find_blocking_upstream}
use carbonpaper.Executor.Loop.Turn.{
  is_pending, is_failed, refs, status_of, status_at, Settled, Turned, same_blocking, Settled-Turned,
}

abbrev pub stage_ids : List WorkflowStage → List String
stage_ids stages = map (λ ws. ws.stage.id) stages

-- No stage of the list, and none of the inputs of one, has its turn later in the list.
abbrev pub InOrder : List WorkflowStage → Type 0
InOrder [] = Unit
InOrder (ws ∷ rest) =
    All (λ i. contains (stage_ids (ws ∷ rest)) i ≡ false) (refs ws)
    × ((contains (stage_ids rest) ws.stage.id ≡ false) × InOrder rest)

abbrev pub Past : List WorkflowStage → WorkflowStage → Type 0
Past rest ws =
    (contains (stage_ids rest) ws.stage.id ≡ false)
    × All (λ i. contains (stage_ids rest) i ≡ false) (refs ws)

any-append :
    {A : Type 0} (test : A → Bool) (xs ys : List A)
    → any test (xs ++ ys) ≡ (any test xs || any test ys)
any-append test [] ys = refl
any-append test (x ∷ xs) ys = ground (arith, any-append test xs ys)

abbrev pub failed_status : Option StageStatus → Bool
failed_status (some s) = is_failed s
failed_status none = false

module _ {Row Usage World : Type 0} where
  abbrev pub failed_at : Progress Row Usage World → WorkflowStage → Bool
  failed_at p ws = failed_status (status_at p ws.stage.id)

  -- Between two turns, with the stages that had theirs and those that wait.
  pub record Between (done rest : List WorkflowStage) (p : Progress Row Usage World) : Type 0 where
    pub going : p.cancel_at_index ≡ none
    pub settled : All (λ w. Settled w p) done
    pub past : All (Past rest) done
    pub fresh :
        (i : String)
        → contains (stage_ids rest) i ≡ true
        → (contains p.blocked i ≡ false) × (contains p.halted_stage_ids i ≡ false)
    -- A stage is blocked only where one failed or awaits review.
    pub caused : (i : String) → contains p.blocked i ≡ true → any (failed_at p) done ≡ true

  -- What is settled does not hang on the world, nor on a cancellation.
  pub Settled-world :
      (p : Progress Row Usage World) (world : World) (cancel : Option ℕ) (w : WorkflowStage)
      → Settled w p
      → Settled w (record p { world = world; cancel_at_index = cancel })
  Settled-world p world cancel w s = record {
    status = s.status;
    found = s.found;
    settled = s.settled;
    blocked_iff = s.blocked_iff;
    halted_iff = s.halted_iff;
    pending_iff = s.pending_iff;
    produced = s.produced;
    dropped = s.dropped;
  }

  pub Between-world :
      (done rest : List WorkflowStage) (p : Progress Row Usage World) (world : World)
      → Between done rest p
      → Between done rest (record p { world = world })
  Between-world done rest p world b = record {
    going = b.going;
    settled = All-map (Settled-world p world p.cancel_at_index) done b.settled;
    past = b.past;
    fresh = b.fresh;
    caused = b.caused;
  }

  module _ (ws : WorkflowStage) (done rest : List WorkflowStage) (p q : Progress Row Usage World)
      (b : Between done (ws ∷ rest) p) (o : InOrder (ws ∷ rest)) (t : Turned ws.stage.id p q) where
    apart_from :
        (i : String) → contains (stage_ids (ws ∷ rest)) i ≡ false → (i == ws.stage.id) ≡ false
    apart_from i h = ground arith

    pub later : (i : String) → contains (stage_ids rest) i ≡ true → (i == ws.stage.id) ≡ false
    later i h = ground (arith, o.1.0, eq_iff i ws.stage.id)

    -- The stages that had their turn keep what holds of them.
    pub done-Settled :
        (some_done : List WorkflowStage)
        → All (λ w. Settled w p) some_done
        → All (Past (ws ∷ rest)) some_done
        → All (λ w. Settled w q) some_done
    done-Settled [] h k = tt
    done-Settled (w ∷ ws') h k = (
      Settled-Turned w ws.stage.id p q t (apart_from w.stage.id k.0.0)
          (All-map apart_from (refs w) k.0.1) h.0,
      done-Settled ws' h.1 k.1,
    )

    any_failed :
        (some_done : List WorkflowStage)
        → All (Past (ws ∷ rest)) some_done
        → any (failed_at q) some_done ≡ any (failed_at p) some_done
    any_failed [] k = refl
    any_failed (w ∷ ws') k =
        let same : failed_at q w ≡ failed_at p w =
          ap (λ o. failed_status (status_of o))
            (t.records w.stage.id (apart_from w.stage.id k.0.0)) in
        cc (same, any_failed ws' k.1)

    Past-rest : (w : WorkflowStage) → Past (ws ∷ rest) w → Past rest w
    Past-rest w k = (ground (arith, k.0), All-map (λ i h. ground arith) (refs w) k.1)

    blocking-cause :
        (is : List String)
        → not (is_empty (filter (contains p.blocked) is)) ≡ true
        → any (failed_at p) done ≡ true
    blocking-cause [] h = cc
    blocking-cause (i ∷ is) h = elim (Bool-cases (contains p.blocked i)) [
      | inl e ↦ b.caused i e
      | inr e ↦ blocking-cause is (rw e at h)
    ]

    failed-append : any (failed_at p) done ≡ true → any (failed_at q) (done ++ ws ∷ []) ≡ true
    failed-append h =
        any-append (failed_at q) done (ws ∷ [])
        ∙ ap (λ c. c || any (failed_at q) (ws ∷ [])) (any_failed done b.past ∙ h)

    here-caused :
        Settled ws q
        → contains q.blocked ws.stage.id ≡ true
        → any (failed_at q) (done ++ ws ∷ []) ≡ true
    unfolding find_blocking_upstream
    here-caused s h = elim (Bool-cases (is_pending s.status)) [
      | inl e ↦ failed-append (
          blocking-cause (refs ws) (
            ap (λ l. not (is_empty l))
              (sym (same_blocking ws ws.stage.id p q t (All-map apart_from (refs ws) o.0)))
            ∙ sym s.pending_iff
            ∙ e))
      | inr e ↦
          let failed : is_failed s.status ≡ true = ground (arith, s.settled, s.blocked_iff, h, e) in
          let here : failed_at q ws ≡ true = ap failed_status s.found ∙ failed in
          any-append (failed_at q) done (ws ∷ []) ∙ ground (arith, here)
    ]

    -- A turn that settles its stage leads from between two turns to between two turns.
    pub Between-next : (q.cancel_at_index ≡ none) → Settled ws q → Between (done ++ ws ∷ []) rest q
    Between-next going s = record {
      going = going;
      settled = All-append _ done (ws ∷ []) (done-Settled done b.settled b.past) (s, tt);
      past =
          All-append _ done (ws ∷ []) (All-map Past-rest done b.past)
            ((o.1.0, All-map (λ i h. ground arith) (refs ws) o.0), tt);
      fresh = λ i h.
          let (f, g) = b.fresh i (ground arith) in
          (t.blocks i (later i h) ∙ f, t.halts i (later i h) ∙ g);
      caused = λ i h. elim (Bool-cases (i == ws.stage.id)) [
        | inl e ↦
            here-caused s (subst (λ k. contains q.blocked k ≡ true) ((eq_iff i ws.stage.id).0 e) h)
        | inr e ↦ failed-append (b.caused i (sym (t.blocks i e) ∙ h))
      ];
    }
