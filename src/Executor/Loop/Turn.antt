-- ===== src/Executor/Loop/Turn.antt =====
-- What one turn of the loop does to the stage whose turn it is, and leaves of the others.
use carbonpaper.Prelude.{
  ◌≡◌, refl, sym, ◌∙◌, ap, String, Bool, true, false, not, ◌||◌, Option, some, none, List, [], ◌∷◌,
  ◌++◌, map, filter-congr, All, All-map, contains, contains-append, lookup, insert, lookup-insert,
  string_eq, ◌==◌, beq_self, eq_iff, is_empty, is_none, arith, if◌then◌else◌,
}
use carbonpaper.Workflow.Resolve.{WorkflowStage}
use carbonpaper.Executor.Status.{StageStatus, is_produced, is_error, is_awaiting_review}
use carbonpaper.Executor.Records.{StageRecord, record_with_status}
use carbonpaper.Executor.StageRun.Outcome.{Elsewhere}
use carbonpaper.Executor.Loop.{flush_manifest, block_stage}
use carbonpaper.Executor.Progress.{Progress, find_blocking_upstream, pop}

abbrev pub is_pending : StageStatus → Bool
is_pending StageStatus.pending = true
is_pending _ = false

-- A stage that was not kept from running, and did not produce its output.
abbrev pub is_failed : StageStatus → Bool
is_failed s = is_error s || is_awaiting_review s

-- A status that a stage can be left with when the loop goes on.
abbrev pub is_settled : StageStatus → Bool
is_settled s = is_produced s || is_failed s || is_pending s

abbrev pub refs : WorkflowStage → List String
refs ws = map (λ ref. ref.id) ws.inputs

abbrev pub status_of : {Usage : Type 0} → Option (StageRecord Usage) → Option StageStatus
status_of none = none
status_of (some r) = some r.status

lookup-pop :
    {A : Type 0} (i k : String) (m : List (String × A))
    → lookup i (pop k m) ≡ (if i == k then none else lookup i m)
lookup-pop i k [] = ground arith
lookup-pop i k ((j, a) ∷ m) = ground (arith, lookup-pop i k m, eq_iff i j, eq_iff k j, eq_iff i k)

pub contains-snoc :
    (xs : List String) (x i : String) → (i == x) ≡ false → contains (xs ++ x ∷ []) i ≡ contains xs i
contains-snoc xs x i n = ground (arith, contains-append xs (x ∷ []) i)

pub contains-snoc_here : (xs : List String) (x : String) → contains (xs ++ x ∷ []) x ≡ true
contains-snoc_here xs x = ground (arith, contains-append xs (x ∷ []) x, beq_self x)

module _ {Usage : Type 0} where
  pub record-insert :
      (m : List (String × StageRecord Usage)) (sid i : String) (r : StageRecord Usage)
      → (i == sid) ≡ false
      → lookup i (insert sid r m) ≡ lookup i m
  record-insert m sid i r n = lookup-insert sid i r m ∙ ap (λ b. if b then some r else lookup i m) n

  pub status-here :
      (m : List (String × StageRecord Usage)) (sid : String) (r : StageRecord Usage)
      → status_of (lookup sid (insert sid r m)) ≡ some r.status
  status-here m sid r =
      ap status_of
        (lookup-insert sid sid r m ∙ ap (λ b. if b then some r else lookup sid m) (beq_self sid))

module _ {Row Usage World : Type 0} where
  abbrev pub record_at : Progress Row Usage World → String → Option (StageRecord Usage)
  record_at p i = lookup i p.records_by_id

  abbrev pub status_at : Progress Row Usage World → String → Option StageStatus
  status_at p i = status_of (record_at p i)

  -- The loop's variables agree with one another on a stage that had its turn.
  pub record Settled (ws : WorkflowStage) (p : Progress Row Usage World) : Type 0 where
    pub status : StageStatus
    pub found : status_at p ws.stage.id ≡ some status
    pub settled : is_settled status ≡ true
    pub blocked_iff : contains p.blocked ws.stage.id ≡ not (is_produced status)
    pub halted_iff : contains p.halted_stage_ids ws.stage.id ≡ is_awaiting_review status
    pub pending_iff : is_pending status ≡ not (is_empty (find_blocking_upstream ws p.blocked))
    pub produced : is_produced status ≡ true → is_none (lookup ws.stage.id p.outputs_so_far) ≡ false
    pub dropped : is_pending status ≡ true → is_none (lookup ws.stage.id p.outputs_so_far) ≡ true

  -- A turn changes nothing of the other stages.
  pub record Turned (sid : String) (p q : Progress Row Usage World) : Type 0 where
    pub records : (i : String) → (i == sid) ≡ false → record_at q i ≡ record_at p i
    pub outputs : Elsewhere sid p.outputs_so_far q.outputs_so_far
    pub blocks : (i : String) → (i == sid) ≡ false → contains q.blocked i ≡ contains p.blocked i
    pub halts :
        (i : String)
        → (i == sid) ≡ false
        → contains q.halted_stage_ids i ≡ contains p.halted_stage_ids i

  pub Turned-refl : (sid : String) (p : Progress Row Usage World) → Turned sid p p
  Turned-refl sid p = record {
    records = λ i n. refl;
    outputs = λ i n. refl;
    blocks = λ i n. refl;
    halts = λ i n. refl;
  }

  pub Turned-trans :
      (sid : String) (p q r : Progress Row Usage World)
      → Turned sid p q
      → Turned sid q r
      → Turned sid p r
  Turned-trans sid p q r s t = record {
    records = λ i n. t.records i n ∙ s.records i n;
    outputs = λ i n. t.outputs i n ∙ s.outputs i n;
    blocks = λ i n. t.blocks i n ∙ s.blocks i n;
    halts = λ i n. t.halts i n ∙ s.halts i n;
  }

  pub same_blocking :
      (ws : WorkflowStage) (sid : String) (p q : Progress Row Usage World)
      → Turned sid p q
      → All (λ i. (i == sid) ≡ false) (refs ws)
      → find_blocking_upstream ws q.blocked ≡ find_blocking_upstream ws p.blocked
  unfolding find_blocking_upstream
  same_blocking ws sid p q t apart =
      filter-congr (contains q.blocked) (contains p.blocked) (refs ws)
        (All-map (λ i n. t.blocks i n) (refs ws) apart)

  -- What held of another stage holds on.
  pub Settled-Turned :
      (ws : WorkflowStage) (sid : String) (p q : Progress Row Usage World)
      → Turned sid p q
      → (ws.stage.id == sid) ≡ false
      → All (λ i. (i == sid) ≡ false) (refs ws)
      → Settled ws p
      → Settled ws q
  Settled-Turned ws sid p q t n apart s = record {
    status = s.status;
    found = ap status_of (t.records ws.stage.id n) ∙ s.found;
    settled = s.settled;
    blocked_iff = t.blocks ws.stage.id n ∙ s.blocked_iff;
    halted_iff = t.halts ws.stage.id n ∙ s.halted_iff;
    pending_iff =
        s.pending_iff ∙ ap (λ l. not (is_empty l)) (sym (same_blocking ws sid p q t apart));
    produced = λ e. ap is_none (t.outputs ws.stage.id n) ∙ s.produced e;
    dropped = λ e. ap is_none (t.outputs ws.stage.id n) ∙ s.dropped e;
  }

module _ {Row Usage World : Type 0} (ordered : List WorkflowStage) (ws : WorkflowStage)
    (p : Progress Row Usage World) where
  pub block_stage-Turned : Turned ws.stage.id p (block_stage ordered ws p)
  unfolding flush_manifest
  block_stage-Turned = record {
    records = λ i n. record-insert p.records_by_id ws.stage.id i _ n;
    outputs = λ i n.
        lookup-pop i ws.stage.id p.outputs_so_far
        ∙ ap (λ b. if b then none else lookup i p.outputs_so_far) n;
    blocks = λ i n. contains-snoc p.blocked ws.stage.id i n;
    halts = λ i n. refl;
  }

  pub block_stage-Settled :
      All (λ i. (i == ws.stage.id) ≡ false) (refs ws)
      → contains p.halted_stage_ids ws.stage.id ≡ false
      → not (is_empty (find_blocking_upstream ws p.blocked)) ≡ true
      → Settled ws (block_stage ordered ws p)
  unfolding flush_manifest record_with_status
  block_stage-Settled apart not_halted behind = record {
    status = StageStatus.pending;
    found =
        status-here p.records_by_id ws.stage.id (record_with_status ws.stage StageStatus.pending);
    settled = refl;
    blocked_iff = contains-snoc_here p.blocked ws.stage.id;
    halted_iff = not_halted;
    pending_iff =
        sym behind
        ∙ ap (λ l. not (is_empty l))
            (sym (same_blocking ws ws.stage.id p _ block_stage-Turned apart));
    produced = λ e. absurd (not_so e);
    dropped = λ e. ap is_none (
        lookup-pop ws.stage.id ws.stage.id p.outputs_so_far
        ∙ ap (λ b. if b then none else lookup ws.stage.id p.outputs_so_far) (beq_self ws.stage.id));
  }
    where
      not_so : false ≡ true → ⊥
      not_so e = cc
