-- ===== src/Executor/Progress.antt =====
-- app/runtime/executor.py: the variables of `_run_ordered_stages`, its decisions, and the manifest
-- that it ends with.
use carbonpaper.Prelude.{
  ℕ, String, Bool, false, ◌&&◌, not, Option, some, none, List, [], ◌∷◌, map, flat_map, filter, any,
  contains, lookup, string_eq, ◌==◌, get_elem?, is_empty, is_none, if◌then◌else◌,
}
use carbonpaper.Workflow.Resolve.{WorkflowStage}
use carbonpaper.Executor.Status.{
  StageStatus, RunStatus, is_produced, is_error, is_awaiting_review, is_warned,
}
use carbonpaper.Executor.Records.{
  StageRecord, record_with_status, RunManifest, settle_stage_records, clear_halt,
}
use carbonpaper.Executor.Runtime.{Inputs}

unfoldable pub find_blocking_upstream : WorkflowStage → List String → List String
find_blocking_upstream ws blocked = filter (contains blocked) (map (λ ref. ref.id) ws.inputs)

unfoldable pub final_run_status : List StageStatus → RunStatus
final_run_status statuses =
    if any is_error statuses
    then RunStatus.errors
    else if any is_awaiting_review statuses
    then RunStatus.awaiting_review
    else if any is_warned statuses
    then RunStatus.warnings
    else RunStatus.ok

abbrev pub Records : Type 0 → Type 0
Records Usage = List (String × StageRecord Usage)

-- `d.pop(key, None)`, of a dictionary, where a key stands once.
abbrev pub pop : {A : Type 0} → String → List (String × A) → List (String × A)
pop key m = filter (λ entry. not (key == entry.0)) m

-- The variables of the loop, and the manifests written so far.
pub record Progress (Row Usage World : Type 0) : Type 0 where
  pub records_by_id : Records Usage
  pub outputs_so_far : Inputs Row
  pub manifest : RunManifest Usage
  pub world : World
  pub written : List (RunManifest Usage)
  pub blocked : List String
  pub halted_stage_ids : List String
  pub cancel_at_index : Option ℕ

module _ {Row Usage : Type 0} where
  unfoldable pub stage_output_already_produced : String → Inputs Row → Records Usage → Bool
  stage_output_already_produced sid outputs records_by_id =
      not (is_none (lookup sid outputs))
      && (elim (lookup sid records_by_id) [ none ↦ false | some r ↦ is_produced r.status ])

module _ {Usage : Type 0} where
  abbrev pub record_or_pending : Records Usage → WorkflowStage → StageRecord Usage
  record_or_pending records_by_id ws = elim (lookup ws.stage.id records_by_id) [
    | some r ↦ r
    | none ↦ record_with_status ws.stage StageStatus.pending
  ]

  -- The records of the stages that have one, in the order of the stages.
  abbrev pub settled_records : Records Usage → List WorkflowStage → List (StageRecord Usage)
  settled_records records_by_id =
      flat_map (λ ws. elim (lookup ws.stage.id records_by_id) [ some r ↦ r ∷ [] | none ↦ [] ])

  unfoldable pub finalize_run_manifest :
      RunManifest Usage
      → Records Usage
      → List WorkflowStage
      → Option ℕ
      → List String
      → RunManifest Usage
  unfolding final_run_status
  finalize_run_manifest manifest records_by_id ordered cancel_at_index halted_stage_ids =
      let settled = settle_stage_records manifest (settled_records records_by_id ordered) in
      elim cancel_at_index [
        | some index ↦ clear_halt (record settled {
          status = RunStatus.cancelled;
          cancelled_at = elim (get_elem? ordered index) [
            | some ws ↦ some ws.stage.id
            | none ↦ none
          ];
        })
        | none ↦
            record (if is_empty halted_stage_ids
              then clear_halt settled
              else record settled { halted_at = some halted_stage_ids }) {
                status = final_run_status (map (λ r. r.status) settled.stage_records);
              }
      ]
