-- ===== src/Executor/Loop/Took.antt =====
-- What a turn of the loop does: it settles the stage, or the run is cancelled in it.
use carbonpaper.Prelude.{
  ℕ, ◌≡◌, refl, sym, ◌∙◌, ap, inl, inr, Bool, true, false, not, some, none, List, All, contains,
  lookup, string_eq, ◌==◌, is_empty, is_none, arith, if◌then◌else◌, Option-cases,
}
use carbonpaper.Workflow.Resolve.{WorkflowStage}
use carbonpaper.Executor.Status.{StageStatus, is_produced}
use carbonpaper.Executor.Records.{StageRecord, record_with_status}
use carbonpaper.Executor.Runtime.{RunContext, Runtime, StageRun}
use carbonpaper.Executor.StageRun.{run_stage}
use carbonpaper.Executor.StageRun.Ended.{run_stage-Ended}
use carbonpaper.Executor.StageRun.Outcome.{if-both, Ended}
use carbonpaper.Executor.Loop.{flush_manifest, block_stage, start_stage, execute_stage, take_turn}
use carbonpaper.Executor.Progress.{Progress, find_blocking_upstream, stage_output_already_produced}
use carbonpaper.Executor.Loop.Turn.{
  refs, status_of, Settled, Turned, Turned-refl, Turned-trans, record-insert, block_stage-Turned,
  block_stage-Settled,
}
use carbonpaper.Executor.Loop.Noted.{
  apart_bits, of_produced, Took, noted-Turned, elsewhere, noted-Took,
}

module _ {Row Usage World : Type 0} (runtime : Runtime Row Usage World) (ctx : RunContext)
    (ordered : List WorkflowStage) (index : ℕ) (ws : WorkflowStage)
    (p : Progress Row Usage World) where
  abbrev started : Progress Row Usage World
  started = start_stage ordered ws p

  abbrev handed : StageRun Row Usage World
  handed = record {
    stage_record = record_with_status ws.stage StageStatus.running;
    manifest = started.manifest;
    outputs_so_far = started.outputs_so_far;
    world = started.world;
  }

  started-Turned : Turned ws.stage.id p started
  unfolding start_stage flush_manifest
  started-Turned = record {
    records = λ i n. record-insert p.records_by_id ws.stage.id i _ n;
    outputs = λ i n. refl;
    blocks = λ i n. refl;
    halts = λ i n. refl;
  }

  ended : Ended ws.stage.id started.outputs_so_far (run_stage runtime ctx ws handed)
  ended = run_stage-Ended runtime ctx ws started.outputs_so_far handed (λ i n. refl)

  execute_stage-Turned : Turned ws.stage.id p (execute_stage runtime ctx ordered index ws p)
  unfolding execute_stage
  execute_stage-Turned =
      let res = run_stage runtime ctx ws handed in
      Turned-trans ws.stage.id p started _ started-Turned
        (noted-Turned index ws started res.0.0 res.0.1 res.1 (elsewhere index ws started res ended))

  -- A turn leaves the other stages as they are.
  pub take_turn-Turned : Turned ws.stage.id p (take_turn runtime ctx ordered index ws p)
  unfolding take_turn
  take_turn-Turned =
      if-both (Turned ws.stage.id p) (not (is_empty (find_blocking_upstream ws p.blocked)))
        (block_stage ordered ws p) _ (block_stage-Turned ordered ws p)
        (if-both (Turned ws.stage.id p)
          (stage_output_already_produced ws.stage.id p.outputs_so_far p.records_by_id) p
          (execute_stage runtime ctx ordered index ws p) (Turned-refl ws.stage.id p)
          execute_stage-Turned)

  module _ (going : p.cancel_at_index ≡ none)
      (apart : All (λ i. (i == ws.stage.id) ≡ false) (refs ws))
      (not_blocked : contains p.blocked ws.stage.id ≡ false)
      (not_halted : contains p.halted_stage_ids ws.stage.id ≡ false) where
    execute_stage-Took :
        not (is_empty (find_blocking_upstream ws p.blocked)) ≡ false
        → Took index ws p (execute_stage runtime ctx ordered index ws p)
    unfolding execute_stage start_stage flush_manifest
    execute_stage-Took free =
        noted-Took index ws started going apart not_blocked not_halted free
          (run_stage runtime ctx ws handed) ended

    kept-Settled :
        not (is_empty (find_blocking_upstream ws p.blocked)) ≡ false
        → stage_output_already_produced ws.stage.id p.outputs_so_far p.records_by_id ≡ true
        → Settled ws p
    unfolding stage_output_already_produced
    kept-Settled free made = elim (Option-cases (lookup ws.stage.id p.records_by_id)) [
      | inl e ↦ absurd (nothing e made)
      | inr (r, e) ↦
          let (output, status) = both r e made in
          let (settled, awaits, pends) = of_produced r.status status in
          record {
            status = r.status;
            found = ap status_of e;
            settled = settled;
            blocked_iff = not_blocked ∙ sym (ap not status);
            halted_iff = not_halted ∙ sym awaits;
            pending_iff = pends ∙ sym free;
            produced = λ c. output;
            dropped = λ c. absurd (apart_bits c pends);
          }
    ]
      where
        nothing :
            lookup ws.stage.id p.records_by_id ≡ none
            → stage_output_already_produced ws.stage.id p.outputs_so_far p.records_by_id ≡ true
            → ⊥
        nothing e h = ground arith

        both :
            (r : StageRecord Usage)
            → lookup ws.stage.id p.records_by_id ≡ some r
            → stage_output_already_produced ws.stage.id p.outputs_so_far p.records_by_id ≡ true
            → (is_none (lookup ws.stage.id p.outputs_so_far) ≡ false)
              × (is_produced r.status ≡ true)
        both r e h = ground arith

    -- The turn of a stage that has none of its inputs behind it settles it, or the run is
    -- cancelled.
    pub take_turn-Took : Took index ws p (take_turn runtime ctx ordered index ws p)
    unfolding take_turn
    take_turn-Took =
        by_test (not (is_empty (find_blocking_upstream ws p.blocked)))
          (stage_output_already_produced ws.stage.id p.outputs_so_far p.records_by_id) refl refl
      where
        by_test :
            (behind made : Bool)
            → not (is_empty (find_blocking_upstream ws p.blocked)) ≡ behind
            → stage_output_already_produced ws.stage.id p.outputs_so_far p.records_by_id ≡ made
            → Took index ws p (
                if behind
                then block_stage ordered ws p
                else if made
                then p
                else execute_stage runtime ctx ordered index ws p)
        by_test true made e f = inl (going, block_stage-Settled ordered ws p apart not_halted e)
        by_test false true e f = inl (going, kept-Settled e f)
        by_test false false e f = execute_stage-Took e
