-- ===== src/Executor/Loop/Final.antt =====
-- The manifest that a run ends with, against what became of its stages.
use carbonpaper.Prelude.{
  ℕ, ◌+◌, ◌≡◌, refl, sym, ◌∙◌, ap, ◌⊎◌, inl, inr, String, Bool, true, false, ◌||◌, Option, some,
  none, List, [], ◌∷◌, ◌++◌, map, any, All, All-map, contains, lookup, string_eq, length, arith,
  get_elem?, is_none, is_empty, if◌then◌else◌, Bool-cases,
}
use carbonpaper.Workflow.Resolve.{WorkflowStage}
use carbonpaper.Executor.Status.{StageStatus, RunStatus, is_produced, is_error, is_awaiting_review}
use carbonpaper.Executor.Records.{RunManifest}
use carbonpaper.Executor.Runtime.{RunContext, Inputs, Runtime}
use carbonpaper.Executor.Loop.{flush_manifest, initial_progress, run_from, run_ordered_stages}
use carbonpaper.Executor.Progress.{
  Progress, Records, settled_records, final_run_status, finalize_run_manifest,
}
use carbonpaper.Executor.Loop.Turn.{record_at, status_at, Settled}
use carbonpaper.Executor.Loop.Between.{InOrder, Between, failed_at}
use carbonpaper.Executor.Loop.Ran.{run_from-Ran}
use carbonpaper.Executor.Loop.Stopped.{Stopped, Ran}

-- A run that got through its stages.
abbrev pub is_complete : RunStatus → Bool
is_complete RunStatus.ok = true
is_complete RunStatus.warnings = true
is_complete _ = false

get_elem?-middle :
    {A : Type 0} (xs : List A) (x : A) (ys : List A) → get_elem? (xs ++ x ∷ ys) (length xs) ≡ some x
get_elem?-middle [] x ys = refl
get_elem?-middle (y ∷ xs) x ys = get_elem?-middle xs x ys

abbrev statuses : {Usage : Type 0} → Records Usage → List WorkflowStage → List StageStatus
statuses records_by_id ordered = map (λ r. r.status) (settled_records records_by_id ordered)

complete-no_failure :
    (ss : List StageStatus)
    → is_complete (final_run_status ss) ≡ true
    → (any is_error ss || any is_awaiting_review ss) ≡ false
unfolding final_run_status
complete-no_failure ss h = ground arith

module _ {Row Usage World : Type 0} where
  any_failed-statuses :
      (p : Progress Row Usage World) (ordered : List WorkflowStage)
      → any (failed_at p) ordered ≡ (
          any is_error (statuses p.records_by_id ordered)
          || any is_awaiting_review (statuses p.records_by_id ordered))
  any_failed-statuses p [] = refl
  any_failed-statuses p (ws ∷ ordered) = ground (arith, any_failed-statuses p ordered)

module _ {Usage : Type 0} (m : RunManifest Usage) (records_by_id : Records Usage)
    (ordered : List WorkflowStage) where
  finalize-completed :
      (cancel : Option ℕ) (halted : List String)
      → cancel ≡ none
      → ((finalize_run_manifest m records_by_id ordered cancel halted).status
          ≡ final_run_status (statuses records_by_id ordered))
        × ((finalize_run_manifest m records_by_id ordered cancel halted).stage_records
            ≡ settled_records records_by_id ordered)
        × ((finalize_run_manifest m records_by_id ordered cancel halted).halted_at
            ≡ (if is_empty halted then none else some halted))
  unfolding finalize_run_manifest
  finalize-completed none [] e = (refl, refl, refl)
  finalize-completed none (h ∷ hs) e = (refl, refl, refl)
  finalize-completed (some index) halted e = cc

  finalize-cancelled :
      (cancel : Option ℕ) (halted : List String) (index : ℕ) (ws : WorkflowStage)
      → cancel ≡ some index
      → get_elem? ordered index ≡ some ws
      → ((finalize_run_manifest m records_by_id ordered cancel halted).status ≡ RunStatus.cancelled)
        × ((finalize_run_manifest m records_by_id ordered cancel halted).cancelled_at
            ≡ some ws.stage.id)
  unfolding finalize_run_manifest
  finalize-cancelled none halted index ws e f = cc
  finalize-cancelled (some i) halted index ws e f =
      let same : get_elem? ordered i ≡ some ws =
        ap (get_elem? ordered) (some_injective i index e) ∙ f in
      (refl, rw same refl)
    where
      some_injective : (i j : ℕ) → some i ≡ some j → i ≡ j
      some_injective i j e = cc

module _ {Row Usage World : Type 0} (runtime : Runtime Row Usage World) (ctx : RunContext)
    (ordered : List WorkflowStage) (manifest : RunManifest Usage) (outputs : Inputs Row)
    (world : World) where
  abbrev pub start : Progress Row Usage World
  start = flush_manifest ordered (initial_progress manifest outputs world)

  abbrev pub last_turn : Progress Row Usage World
  last_turn = run_from runtime ctx ordered 0 ordered start

  abbrev pub final : RunManifest Usage
  final = (run_ordered_stages runtime ctx ordered manifest outputs world).0

  abbrev pub result : Progress Row Usage World
  result = (run_ordered_stages runtime ctx ordered manifest outputs world).1

  start-Between : InOrder ordered → Between [] ordered start
  unfolding flush_manifest
  start-Between o = record {
    going = refl;
    settled = tt;
    past = tt;
    fresh = λ i h. (refl, refl);
    caused = λ i h. cc;
  }

  ran : InOrder ordered → Ran 0 [] ordered start last_turn
  ran o = run_from-Ran runtime ctx ordered 0 [] ordered start (start-Between o) o

  result-Settled : (w : WorkflowStage) → Settled w last_turn → Settled w result
  unfolding run_ordered_stages
  result-Settled w s = record {
    status = s.status;
    found = s.found;
    settled = s.settled;
    blocked_iff = s.blocked_iff;
    halted_iff = s.halted_iff;
    pending_iff = s.pending_iff;
    produced = s.produced;
    dropped = s.dropped;
  }

  -- A stage whose status is that it produced its output, which is there.
  abbrev pub Produced : WorkflowStage → Type 0
  Produced w =
      (s : StageStatus) × (status_at result w.stage.id ≡ some s)
      × (is_produced s ≡ true)
      × (is_none (lookup w.stage.id result.outputs_so_far) ≡ false)

  -- Where the loop stopped, and that the manifest says so.
  pub record Cancelled : Type 0 where
    pub stopped : Stopped 0 [] ordered start last_turn
    pub status : final.status ≡ RunStatus.cancelled
    pub cancelled_at : final.cancelled_at ≡ some stopped.stage.stage.id
    pub settled : All (λ w. Settled w result) stopped.before
    pub untouched :
        All
          (λ w.
            record_at result w.stage.id
            ≡ record_at (initial_progress manifest outputs world) w.stage.id)
          stopped.after

  pub record Finished : Type 0 where
    pub settled : All (λ w. Settled w result) ordered
    pub caused :
        (i : String) → contains result.blocked i ≡ true → any (failed_at result) ordered ≡ true
    pub status : final.status ≡ final_run_status (statuses result.records_by_id ordered)
    pub records : final.stage_records ≡ settled_records result.records_by_id ordered
    pub halted_at :
        final.halted_at
        ≡ (if is_empty result.halted_stage_ids then none else some result.halted_stage_ids)

  -- A run over stages that stand behind their inputs either settles each of them, and its status is
  -- the one that their statuses call for; or it is cancelled at a stage, which its manifest names:
  -- then those in front are settled, and each of those behind has the record, if any, that it had
  -- before the run.
  pub run_ordered_stages_cases : InOrder ordered → Finished ⊎ Cancelled
  unfolding run_ordered_stages finalize_run_manifest flush_manifest
  run_ordered_stages_cases o = by_ran (ran o)
    where
      zero_sum : (n : ℕ) → 0 + n ≡ n
      zero_sum n = omega arith

      by_ran : Ran 0 [] ordered start last_turn → Finished ⊎ Cancelled
      by_ran (inl b) =
          let c =
            finalize-completed last_turn.manifest last_turn.records_by_id ordered
              last_turn.cancel_at_index last_turn.halted_stage_ids b.going in
          inl (record {
            settled = All-map result-Settled ordered b.settled;
            caused = b.caused;
            status = c.0;
            records = c.1;
            halted_at = c.2;
          })
      by_ran (inr s) =
          let at_stage : get_elem? ordered (0 + length s.before) ≡ some s.stage =
            ap (λ l. get_elem? l (0 + length s.before)) s.split
            ∙ ap (get_elem? (s.before ++ s.stage ∷ s.after)) (zero_sum (length s.before))
            ∙ get_elem?-middle s.before s.stage s.after in
          let c =
            finalize-cancelled last_turn.manifest last_turn.records_by_id ordered
              last_turn.cancel_at_index last_turn.halted_stage_ids (0 + length s.before) s.stage
              s.at_index at_stage in
          inr (record {
            stopped = s;
            status = c.0;
            cancelled_at = c.1;
            settled = All-map result-Settled s.before s.settled;
            untouched = All-map (λ w e. e) s.after s.untouched;
          })

  -- A run over stages that stand behind their inputs, which ends with the status OK or WARNINGS,
  -- left every stage with the status that it produced its output, and with that output.
  pub run_ordered_stages-Produced :
      InOrder ordered → is_complete final.status ≡ true → All Produced ordered
  run_ordered_stages-Produced o h = elim (run_ordered_stages_cases o) [
    | inr c ↦ absurd (not_complete (ap is_complete (sym c.status) ∙ h))
    | inl f ↦
        let quiet : any (failed_at result) ordered ≡ false =
          any_failed-statuses result ordered
          ∙ complete-no_failure (statuses result.records_by_id ordered)
              (ap is_complete (sym f.status) ∙ h) in
        All-map (λ w s. produced w s (unblocked f quiet w.stage.id)) ordered f.settled
  ]
    where
      not_complete : false ≡ true → ⊥
      not_complete e = cc

      unblocked :
          Finished
          → any (failed_at result) ordered ≡ false
          → (i : String) → contains result.blocked i ≡ false
      unblocked f quiet i = elim (Bool-cases (contains result.blocked i)) [
        | inl e ↦ absurd (not_complete (sym quiet ∙ f.caused i e))
        | inr e ↦ e
      ]

      produced :
          (w : WorkflowStage)
          → Settled w result
          → contains result.blocked w.stage.id ≡ false
          → Produced w
      produced w s e =
          let made : is_produced s.status ≡ true = ground (arith, s.blocked_iff, e) in
          (s.status, s.found, made, s.produced made)
