-- ===== src/Executor/StageRun/Outcome.antt =====
-- What is promised of the steps of a stage's run.
use carbonpaper.Prelude.{
  ◌≡◌, refl, ◌∙◌, String, Bool, true, false, List, [], ◌∷◌, all, lookup, insert, lookup-insert,
  string_eq, ◌==◌, is_none, Result, ok, err, arith, if◌then◌else◌, Bool-cases, inl, inr,
}
use carbonpaper.Executor.Status.{StageStatus, is_produced, is_error}
use carbonpaper.Executor.Records.{ValidationReport, report_ok, RowError, StageRecord}
use carbonpaper.Executor.Runtime.{Raised, Inputs, StageRun, StageOutcome, ran, halted, cancelled}
use carbonpaper.Executor.Finalize.{settle_status}

pub if-both :
    {A : Type 0} (P : A → Type 0) (b : Bool) (x y : A) → P x → P y → P (if b then x else y)
if-both P true x y p q = p
if-both P false x y p q = q

-- The outputs of all other stages stay.
abbrev pub Elsewhere : {A : Type 0} → String → List (String × A) → List (String × A) → Type 0
Elsewhere sid before after = (i : String) → (i == sid) ≡ false → lookup i after ≡ lookup i before

pub insert-Elsewhere :
    {A : Type 0} (sid : String) (a : A) (before after : List (String × A))
    → Elsewhere sid before after
    → Elsewhere sid before (insert sid a after)
insert-Elsewhere sid a before after h i n = lookup-insert sid i a after ∙ ground (arith, n, h i n)

-- A status that the finalization of an output gives.
abbrev pub Decided : Bool → StageStatus → Type 0
Decided true status = is_error status ≡ true
Decided false status = is_produced status ≡ true

pub settle_status-Decided :
    {Usage : Type 0} (sid : String) (errors : List RowError) (report : ValidationReport)
    (r : StageRecord Usage)
    → Decided
        (is_error (settle_status sid errors report r).status)
        (settle_status sid errors report r).status
unfolding settle_status
settle_status-Decided sid [] report r = elim (Bool-cases (report_ok report)) [
  | inl e ↦ (elim (Bool-cases (all report_ok r.input_validation_report)) [
    | inl f ↦ rw e (rw f refl)
    | inr f ↦ rw e (rw f refl)
  ])
  | inr e ↦ rw e refl
]
settle_status-Decided sid (e ∷ errors) report r = refl

module _ {Row Usage World : Type 0} where
  -- What is left of the run by a finalization that raises, or that decides on the status.
  abbrev pub Finalized :
      String → Inputs Row → Result Raised Bool × StageRun Row Usage World → Type 0
  Finalized sid before (err exc, run) = Elsewhere sid before run.outputs_so_far
  Finalized sid before (ok joins, run) =
      Elsewhere sid before run.outputs_so_far
      × Decided joins run.stage_record.status
      × (is_none (lookup sid run.outputs_so_far) ≡ false)

  -- What `_run_stage` answers, with the status that it leaves on the record.
  abbrev pub Ended : String → Inputs Row → (StageOutcome × Bool) × StageRun Row Usage World → Type 0
  Ended sid before ((ran, true), run) =
      Elsewhere sid before run.outputs_so_far × (is_error run.stage_record.status ≡ true)
  Ended sid before ((ran, false), run) =
      Elsewhere sid before run.outputs_so_far
      × (is_produced run.stage_record.status ≡ true)
      × (is_none (lookup sid run.outputs_so_far) ≡ false)
  Ended sid before ((halted, joins), run) =
      Elsewhere sid before run.outputs_so_far
      × (joins ≡ true)
      × (run.stage_record.status ≡ StageStatus.awaiting_review)
  Ended sid before ((cancelled, joins), run) =
      Elsewhere sid before run.outputs_so_far
      × (joins ≡ false)
      × (run.stage_record.status ≡ StageStatus.cancelled)

  -- The same before an exception is recorded.
  abbrev pub Tried :
      String → Inputs Row → Result Raised (StageOutcome × Bool) × StageRun Row Usage World → Type 0
  Tried sid before (err exc, run) = Elsewhere sid before run.outputs_so_far
  Tried sid before (ok outcome, run) = Ended sid before (outcome, run)
