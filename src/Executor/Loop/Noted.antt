-- ===== src/Executor/Loop/Noted.antt =====
-- What the loop notes of a stage that ran: it is settled, or the run is cancelled.
use carbonpaper.Prelude.{
  ℕ, ◌≡◌, refl, sym, ◌∙◌, ap, ◌⊎◌, inl, inr, String, Bool, true, false, not, some, none, [], ◌∷◌,
  ◌++◌, All, contains, string_eq, ◌==◌, is_empty, arith, if◌then◌else◌,
}
use carbonpaper.Workflow.Resolve.{WorkflowStage}
use carbonpaper.Executor.Status.{StageStatus, is_produced, is_error, is_awaiting_review}
use carbonpaper.Executor.Runtime.{StageRun, StageOutcome, ran, halted, cancelled}
use carbonpaper.Executor.StageRun.Outcome.{Elsewhere, Ended}
use carbonpaper.Executor.Loop.{note_outcome, store_run}
use carbonpaper.Executor.Progress.{Progress, find_blocking_upstream}
use carbonpaper.Executor.Loop.Turn.{
  is_pending, is_settled, refs, status_at, Settled, Turned, same_blocking, record-insert,
  status-here, contains-snoc, contains-snoc_here,
}

pub apart_bits : {b : Bool} → b ≡ true → b ≡ false → ⊥
apart_bits c e = cc

of_error :
    (s : StageStatus)
    → is_error s ≡ true
    → (is_settled s ≡ true)
      × (is_produced s ≡ false)
      × (is_awaiting_review s ≡ false)
      × (is_pending s ≡ false)
of_error s e = ground arith

pub of_produced :
    (s : StageStatus)
    → is_produced s ≡ true
    → (is_settled s ≡ true) × (is_awaiting_review s ≡ false) × (is_pending s ≡ false)
of_produced s e = ground arith

module _ {Row Usage World : Type 0} (index : ℕ) (ws : WorkflowStage)
    (p : Progress Row Usage World) where
  -- The outcome of a turn: the stage is settled and the loop goes on, or it was cancelled.
  abbrev pub Took : Progress Row Usage World → Type 0
  Took q =
      ((q.cancel_at_index ≡ none) × Settled ws q)
      ⊎ ((q.cancel_at_index ≡ some index) × (status_at q ws.stage.id ≡ some StageStatus.cancelled))

  store_run-Turned :
      (run : StageRun Row Usage World)
      → Elsewhere ws.stage.id p.outputs_so_far run.outputs_so_far
      → Turned ws.stage.id p (store_run ws.stage.id run p)
  store_run-Turned run h = record {
    records = λ i n. record-insert p.records_by_id ws.stage.id i run.stage_record n;
    outputs = h;
    blocks = λ i n. refl;
    halts = λ i n. refl;
  }

  blocks-joining :
      (joins : Bool) (i : String)
      → (i == ws.stage.id) ≡ false
      → contains (if joins then p.blocked ++ ws.stage.id ∷ [] else p.blocked) i
        ≡ contains p.blocked i
  blocks-joining true i n = contains-snoc p.blocked ws.stage.id i n
  blocks-joining false i n = refl

  -- The noting of an outcome changes nothing of the other stages.
  pub noted-Turned :
      (outcome : StageOutcome) (joins : Bool) (run : StageRun Row Usage World)
      → Elsewhere ws.stage.id p.outputs_so_far run.outputs_so_far
      → Turned ws.stage.id p
          (note_outcome index ws.stage.id (outcome, joins) (store_run ws.stage.id run p))
  noted-Turned ran joins run h = record {
    records = (store_run-Turned run h).records;
    outputs = h;
    blocks = blocks-joining joins;
    halts = λ i n. refl;
  }
  noted-Turned halted joins run h = record {
    records = (store_run-Turned run h).records;
    outputs = h;
    blocks = blocks-joining joins;
    halts = λ i n. contains-snoc p.halted_stage_ids ws.stage.id i n;
  }
  noted-Turned cancelled joins run h = record {
    records = (store_run-Turned run h).records;
    outputs = h;
    blocks = blocks-joining joins;
    halts = λ i n. refl;
  }

  pub elsewhere :
      (res : (StageOutcome × Bool) × StageRun Row Usage World)
      → Ended ws.stage.id p.outputs_so_far res
      → Elsewhere ws.stage.id p.outputs_so_far res.1.outputs_so_far
  elsewhere ((ran, true), run) e = e.0
  elsewhere ((ran, false), run) e = e.0
  elsewhere ((halted, joins), run) e = e.0
  elsewhere ((cancelled, joins), run) e = e.0

  module _ (going : p.cancel_at_index ≡ none)
      (apart : All (λ i. (i == ws.stage.id) ≡ false) (refs ws))
      (not_blocked : contains p.blocked ws.stage.id ≡ false)
      (not_halted : contains p.halted_stage_ids ws.stage.id ≡ false)
      (free : not (is_empty (find_blocking_upstream ws p.blocked)) ≡ false) where
    still_free :
        (q : Progress Row Usage World)
        → Turned ws.stage.id p q
        → (s : StageStatus) → is_pending s ≡ false
        → is_pending s ≡ not (is_empty (find_blocking_upstream ws q.blocked))
    still_free q t s e =
        e ∙ sym free ∙ ap (λ l. not (is_empty l)) (sym (same_blocking ws ws.stage.id p q t apart))

    pub noted-Took :
        (res : (StageOutcome × Bool) × StageRun Row Usage World)
        → Ended ws.stage.id p.outputs_so_far res
        → Took (note_outcome index ws.stage.id res.0 (store_run ws.stage.id res.1 p))
    noted-Took ((ran, true), run) (h, e) =
        let (settled, unproduced, awaits, pends) = of_error run.stage_record.status e in
        inl (
          going,
          record {
            status = run.stage_record.status;
            found = status-here p.records_by_id ws.stage.id run.stage_record;
            settled = settled;
            blocked_iff = contains-snoc_here p.blocked ws.stage.id ∙ sym (ap not unproduced);
            halted_iff = not_halted ∙ sym awaits;
            pending_iff = still_free _ (noted-Turned ran true run h) run.stage_record.status pends;
            produced = λ c. absurd (apart_bits c unproduced);
            dropped = λ c. absurd (apart_bits c pends);
          },
        )
    noted-Took ((ran, false), run) (h, e, k) =
        let (settled, awaits, pends) = of_produced run.stage_record.status e in
        inl (
          going,
          record {
            status = run.stage_record.status;
            found = status-here p.records_by_id ws.stage.id run.stage_record;
            settled = settled;
            blocked_iff = not_blocked ∙ sym (ap not e);
            halted_iff = not_halted ∙ sym awaits;
            pending_iff = still_free _ (noted-Turned ran false run h) run.stage_record.status pends;
            produced = λ c. k;
            dropped = λ c. absurd (apart_bits c pends);
          },
        )
    noted-Took ((halted, joins), run) (h, j, e) = inl (
      going,
      record {
        status = StageStatus.awaiting_review;
        found = status-here p.records_by_id ws.stage.id run.stage_record ∙ ap some e;
        settled = refl;
        blocked_iff =
            ap (λ b. contains (if b then p.blocked ++ ws.stage.id ∷ [] else p.blocked) ws.stage.id)
              j
            ∙ contains-snoc_here p.blocked ws.stage.id;
        halted_iff = contains-snoc_here p.halted_stage_ids ws.stage.id;
        pending_iff =
            still_free _ (noted-Turned halted joins run h) StageStatus.awaiting_review refl;
        produced = λ c. absurd (apart_bits c refl);
        dropped = λ c. absurd (apart_bits c refl);
      },
    )
    noted-Took ((cancelled, joins), run) (h, j, e) =
        inr (refl, status-here p.records_by_id ws.stage.id run.stage_record ∙ ap some e)
