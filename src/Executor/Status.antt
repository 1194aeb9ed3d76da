-- ===== src/Executor/Status.antt =====
-- app/core/run_status.py: the statuses of a stage's record and of a run.
use carbonpaper.Prelude.{Bool, true, false}

pub data StageStatus : Type 0 where
  pending running ok validation_warnings error awaiting_review cancelled : StageStatus

pub data RunStatus : Type 0 where
  running ok warnings errors awaiting_review cancelled : RunStatus

unfoldable pub is_run_still_going : RunStatus → Bool
is_run_still_going RunStatus.running = true
is_run_still_going RunStatus.awaiting_review = true
is_run_still_going _ = false

-- `status in (StageStatus.OK, StageStatus.VALIDATION_WARNINGS)`
abbrev pub is_produced : StageStatus → Bool
is_produced StageStatus.ok = true
is_produced StageStatus.validation_warnings = true
is_produced _ = false

abbrev pub is_error : StageStatus → Bool
is_error StageStatus.error = true
is_error _ = false

abbrev pub is_awaiting_review : StageStatus → Bool
is_awaiting_review StageStatus.awaiting_review = true
is_awaiting_review _ = false

abbrev pub is_warned : StageStatus → Bool
is_warned StageStatus.validation_warnings = true
is_warned _ = false
