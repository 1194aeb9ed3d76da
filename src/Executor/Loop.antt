-- ===== src/Executor/Loop.antt =====
-- app/runtime/executor.py: `_run_ordered_stages`, the loop over the ordered stages, with what it
-- decides for each and the manifest that it ends with.
pub mod Between
pub mod Stopped
pub mod Ran
pub mod Final
pub mod Turn
pub mod Noted
pub mod Took
use carbonpaper.Prelude.{
  ℕ, suc, String, Bool, true, false, ◌&&◌, not, Option, some, none, List, [], ◌∷◌, ◌++◌, map,
  flat_map, filter, any, contains, lookup, insert, dict_of, string_eq, ◌==◌, get_elem?, is_empty,
  is_none, if◌then◌else◌,
}
use carbonpaper.Signature.{WorkflowStageInput}
use carbonpaper.Workflow.Resolve.{WorkflowStage}
use carbonpaper.Executor.Status.{
  StageStatus, RunStatus, is_produced, is_error, is_awaiting_review, is_warned,
}
use carbonpaper.Executor.Records.{
  StageRecord, record_with_status, RunManifest, settle_stage_records, clear_halt,
}
use carbonpaper.Executor.Runtime.{
  RunContext, RunIdentity, Inputs, Runtime, StageRun, StageOutcome, ran, halted, cancelled,
}
use carbonpaper.Executor.StageRun.{run_stage}
use carbonpaper.Executor.Progress.{
  find_blocking_upstream, final_run_status, Records, pop, Progress, stage_output_already_produced,
  record_or_pending, settled_records, finalize_run_manifest,
}

module _ {Row Usage World : Type 0} where
  -- What the stage's run shares with the loop.
  abbrev pub store_run :
      String → StageRun Row Usage World → Progress Row Usage World → Progress Row Usage World
  store_run sid run p = record p {
    records_by_id = insert sid run.stage_record p.records_by_id;
    outputs_so_far = run.outputs_so_far;
    manifest = run.manifest;
    world = run.world;
  }

  -- What the loop does with a stage's outcome.
  abbrev pub note_outcome :
      ℕ → String → StageOutcome × Bool → Progress Row Usage World → Progress Row Usage World
  note_outcome index sid (outcome, joins_blocked) p =
      let q : Progress Row Usage World = record p {
        blocked = if joins_blocked then p.blocked ++ sid ∷ [] else p.blocked;
      } in
      elim outcome [
        | ran ↦ q
        | halted ↦ record q { halted_stage_ids = q.halted_stage_ids ++ sid ∷ [] }
        | cancelled ↦ record q { cancel_at_index = some index }
      ]

  -- The variables before the first turn: the records of a manifest that a resume carries over.
  abbrev pub initial_progress : RunManifest Usage → Inputs Row → World → Progress Row Usage World
  initial_progress manifest outputs world = record {
    records_by_id = dict_of (map (λ r. (r.stage_id, r)) manifest.stage_records);
    outputs_so_far = outputs;
    manifest = manifest;
    world = world;
    written = [];
    blocked = [];
    halted_stage_ids = [];
    cancel_at_index = none;
  }

module _ {Row Usage World : Type 0} (ordered : List WorkflowStage) where
  unfoldable pub flush_manifest : Progress Row Usage World → Progress Row Usage World
  flush_manifest p =
      let snapshot : RunManifest Usage = record p.manifest {
        stage_records = map (record_or_pending p.records_by_id) ordered;
        status = RunStatus.running;
      } in
      record p { written = p.written ++ snapshot ∷ [] }

  -- The record with status RUNNING stands in the manifest while the stage runs.
  unfoldable pub start_stage : WorkflowStage → Progress Row Usage World → Progress Row Usage World
  unfolding flush_manifest record_with_status
  start_stage ws p = flush_manifest (record p {
    records_by_id =
        insert ws.stage.id (record_with_status ws.stage StageStatus.running) p.records_by_id;
  })

  -- A stage behind a blocked one: it stays pending and joins them, and a stale output is dropped.
  abbrev pub block_stage : WorkflowStage → Progress Row Usage World → Progress Row Usage World
  block_stage ws p = flush_manifest (record p {
    records_by_id =
        insert ws.stage.id (record_with_status ws.stage StageStatus.pending) p.records_by_id;
    blocked = p.blocked ++ ws.stage.id ∷ [];
    outputs_so_far = pop ws.stage.id p.outputs_so_far;
  })

module _ {Row Usage World : Type 0} (runtime : Runtime Row Usage World) (ctx : RunContext) where
  abbrev pub consume_for :
      Option RunIdentity → Progress Row Usage World → Bool × Progress Row Usage World
  consume_for none p = (false, p)
  consume_for (some identity) p =
      let (cancel, world) = runtime.consume_cancel identity p.world in
      (cancel, record p { world = world })

  unfoldable pub consume_cancel : Progress Row Usage World → Bool × Progress Row Usage World
  consume_cancel p = consume_for ctx.identity p

module _ {Row Usage World : Type 0} (runtime : Runtime Row Usage World) (ctx : RunContext)
    (ordered : List WorkflowStage) where
  unfoldable pub execute_stage :
      ℕ → WorkflowStage → Progress Row Usage World → Progress Row Usage World
  unfolding start_stage run_stage
  execute_stage index ws p =
      let started = start_stage ordered ws p in
      let (outcome, run) = run_stage runtime ctx ws (record {
        stage_record = record_with_status ws.stage StageStatus.running;
        manifest = started.manifest;
        outputs_so_far = started.outputs_so_far;
        world = started.world;
      }) in
      note_outcome index ws.stage.id outcome (store_run ws.stage.id run started)

  -- One turn of the loop behind its cancel checkpoint.
  unfoldable pub take_turn : ℕ → WorkflowStage → Progress Row Usage World → Progress Row Usage World
  unfolding find_blocking_upstream flush_manifest stage_output_already_produced execute_stage
  take_turn index ws p =
      if not (is_empty (find_blocking_upstream ws p.blocked))
      then block_stage ordered ws p
      else if stage_output_already_produced ws.stage.id p.outputs_so_far p.records_by_id
      then p
      else execute_stage index ws p

  -- The loop ends with a stage in which the run is cancelled.
  abbrev pub unless_cancelled :
      (Progress Row Usage World → Progress Row Usage World)
      → Progress Row Usage World
      → Option ℕ
      → Progress Row Usage World
  unless_cancelled go next (some _) = next
  unless_cancelled go next none = go next

  -- What follows the cancel checkpoint in front of a stage.
  abbrev pub behind_checkpoint :
      ℕ
      → WorkflowStage
      → (Progress Row Usage World → Progress Row Usage World)
      → Bool × Progress Row Usage World
      → Progress Row Usage World
  behind_checkpoint index ws go (true, p) = record p { cancel_at_index = some index }
  behind_checkpoint index ws go (false, p) =
      let next = take_turn index ws p in unless_cancelled go next next.cancel_at_index

  unfoldable pub run_from :
      ℕ → List WorkflowStage → Progress Row Usage World → Progress Row Usage World
  unfolding consume_cancel take_turn
  run_from index [] p = p
  run_from index (ws ∷ rest) p =
      behind_checkpoint index ws (run_from (suc index) rest) (consume_cancel runtime ctx p)

  -- The final manifest, and the loop's variables, which it is made of.
  unfoldable pub run_ordered_stages :
      RunManifest Usage → Inputs Row → World → RunManifest Usage × Progress Row Usage World
  unfolding run_from flush_manifest finalize_run_manifest
  run_ordered_stages manifest outputs world =
      let p =
        run_from 0 ordered (flush_manifest ordered (initial_progress manifest outputs world)) in
      let final =
        finalize_run_manifest p.manifest p.records_by_id ordered p.cancel_at_index
          p.halted_stage_ids in
      (final, record p { manifest = final; written = p.written ++ final ∷ [] })
