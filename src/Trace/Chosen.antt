-- ===== src/Trace/Chosen.antt =====
-- What one round of a walk makes of the choices that a caller gave.
use carbonpaper.Prelude.{
  ◌≡◌, refl, sym, subst, String, Bool, true, false, not, Option, some, none, List, [], ◌∷◌, ℤ,
  if◌then◌else◌, Result, ok, err, ◌>>=◌, ◌⊎◌, inl, inr, Memᴰ, lookup, string_eq, int_eq,
}
use carbonpaper.Lineage.Row.{RowParent}
use carbonpaper.Stage.Kind.{StageType}
use carbonpaper.Trace.Frames.{StageRecord, Table, RunFrames, parents_of, lineage_hops, split_spine}
use carbonpaper.Trace.FanIn.{RowSampleChoice, TraceError, find_fan_in}
use carbonpaper.Trace.Step.{
  Manifest, Next, hop, stop, TraceEnd, StageTransform, in_range, is_input_data, or_no_hops, follow,
  Turn, ended, recorded,
}
use carbonpaper.Trace.Walk.{
  is_in_run, hop_into, advance_via_lineage, advance, record_step, turn_if_in_range, turn_in_stage,
  turn_of_record, turn,
}
use carbonpaper.Trace.Linked.{taken, some_hops}
use carbonpaper.Trace.Picked.{Names, Used, follow-Used, no_spine}

module _ (manifest : Manifest) (frames : RunFrames) where
  -- The choice names one of the recorded parents of the step's row.
  abbrev pub IsChoiceAt : RowSampleChoice → String → ℤ → Type 0
  IsChoiceAt choice sid r =
      (hops : List RowParent) × (p : RowParent) × (lineage_hops frames sid r ≡ some hops)
      × Memᴰ p hops
      × Names choice p

  -- The walk went on, if at all, to the row that was chosen.
  abbrev pub GoesTo : RowSampleChoice → List StageTransform → Type 0
  GoesTo choice [] = Unit
  GoesTo choice (t ∷ _) = (t.stage_id ≡ choice.stage_id) × (t.row_ordinal ≡ choice.row_ordinal)

  -- The choices are used up to those left, in order, each at a step of its own.
  abbrev pub UsedAt : List RowSampleChoice → List StageTransform → List RowSampleChoice → Type 0
  UsedAt pending [] left = left ≡ pending
  UsedAt pending (s ∷ rest) left =
      UsedAt pending rest left
      ⊎ ((choice : RowSampleChoice) × (others : List RowSampleChoice) × (pending ≡ choice ∷ others)
          × IsChoiceAt choice s.stage_id s.row_ordinal
          × GoesTo choice rest
          × UsedAt others rest left)

  abbrev pub NextIs : RowSampleChoice → Next → Type 0
  NextIs choice (hop sid r) = (sid ≡ choice.stage_id) × (r ≡ choice.row_ordinal)
  NextIs choice (stop last) = Unit

  advance-NextIs :
      (choice : RowSampleChoice) (p : RowParent) (sid : String) (type : Option StageType) (r : ℤ)
      (table : Table) (parents : List String) (fan_in : Option (List RowParent))
      → Names choice p
      → NextIs choice (advance manifest frames sid type r table parents none fan_in (some p))
  unfolding advance advance_via_lineage
  advance-NextIs choice p sid type r table parents fan_in h =
      by_type (is_input_data type) _ _ (by_run (is_in_run manifest frames p.stage_id) _)
    where
      by_range :
          (b : Bool) (e : TraceEnd)
          → NextIs choice (if b then hop p.stage_id p.row_ordinal else stop e)
      by_range true e = h
      by_range false e = tt

      by_table : (o : Option Table) → NextIs choice (hop_into manifest frames sid p o)
      by_table none = tt
      by_table (some t) = by_range (in_range p.row_ordinal t.num_rows) _

      by_run :
          (b : Bool) (e : TraceEnd)
          → NextIs choice
              (if not b then stop e else hop_into manifest frames sid p (frames.output p.stage_id))
      by_run true e = by_table (frames.output p.stage_id)
      by_run false e = tt

      by_type :
          (b : Bool) (e : TraceEnd) (next : Next)
          → NextIs choice next
          → NextIs choice (if b then stop e else next)
      by_type true e next k = tt
      by_type false e next k = k

  -- What a round made of the choices that it was given.
  unfoldable pub TurnUsed : String → ℤ → List RowSampleChoice → Result TraceError Turn → Type 0
  TurnUsed sid r pending (err e) = Unit
  TurnUsed sid r pending (ok (ended last left)) = left ≡ pending
  TurnUsed sid r pending (ok (recorded s next left)) =
      (s.stage_id ≡ sid)
      × (s.row_ordinal ≡ r)
      × ((left ≡ pending)
          ⊎ ((choice : RowSampleChoice) × (pending ≡ choice ∷ left)
              × IsChoiceAt choice sid r
              × NextIs choice next))

  module _ (sid : String) (stage_record : StageRecord) (r : ℤ) (table : Table) where
    abbrev hops_here : Option (List RowParent)
    hops_here = lineage_hops frames sid r

    abbrev spine_here : Option RowParent
    spine_here = (split_spine (or_no_hops hops_here)).0

    abbrev fan_in_here : Option (List RowParent)
    fan_in_here = find_fan_in stage_record.type spine_here hops_here

    abbrev next_here : Option RowParent → Next
    next_here followed =
        advance manifest frames sid stage_record.type r table (parents_of stage_record) spine_here
          fan_in_here followed

    chosen_here :
        (pending left : List RowSampleChoice) (followed : Option RowParent)
        → follow sid fan_in_here pending ≡ ok (followed, left)
        → Used fan_in_here followed pending left
        → (left ≡ pending)
          ⊎ ((choice : RowSampleChoice) × (pending ≡ choice ∷ left)
              × IsChoiceAt choice sid r
              × NextIs choice (next_here followed))
    chosen_here pending left followed e (inl same) = inl same
    chosen_here pending left followed e (inr (choice, p, ps, split, f, is_fan_in, named)) =
        let m =
          taken manifest frames sid stage_record.type hops_here pending left followed p e (inr f) in
        let (hops, g, mem) = some_hops manifest frames hops_here p m in
        inr (
          choice,
          split,
          (hops, p, g, mem, named),
          subst (λ o. NextIs choice (next_here o)) (sym f)
              (subst
                (λ o. NextIs choice (
                  advance manifest frames sid stage_record.type r table (parents_of stage_record) o
                    fan_in_here (some p)))
                (sym (no_spine stage_record.type spine_here hops_here ps is_fan_in))
                (advance-NextIs choice p sid stage_record.type r table (parents_of stage_record)
                  fan_in_here named)),
        )

    follow-TurnUsed :
        (pending : List RowSampleChoice)
        (o : Result TraceError (Option RowParent × List RowSampleChoice))
        → follow sid fan_in_here pending ≡ o
        → TurnUsed sid r pending (
            o >>= λ (followed, left). ok (
              recorded
                (record_step manifest frames sid stage_record r table
                  (split_spine (or_no_hops hops_here)).1
                  spine_here
                  fan_in_here
                  followed)
                (next_here followed)
                left))
    unfolding TurnUsed
    follow-TurnUsed pending (err x) h = tt
    follow-TurnUsed pending (ok (followed, left)) h = (
      refl,
      refl,
      chosen_here pending left followed h (follow-Used sid fan_in_here pending left followed h),
    )

  pub turn-TurnUsed :
      (sid : String) (r : ℤ) (pending : List RowSampleChoice)
      → TurnUsed sid r pending (turn manifest frames sid r pending)
  unfolding turn TurnUsed
  turn-TurnUsed sid r pending = by_record (lookup sid manifest.by_id)
    where
      by_range :
          (stage_record : StageRecord) (table : Table) (b : Bool)
          → TurnUsed sid r pending
              (turn_if_in_range manifest frames sid stage_record r pending table b)
      by_range stage_record table true = follow-TurnUsed sid stage_record r table pending _ refl
      by_range stage_record table false = tt

      by_output :
          (stage_record : StageRecord) (o : Option Table)
          → TurnUsed sid r pending (turn_in_stage manifest frames sid stage_record r pending o)
      by_output stage_record none = refl
      by_output stage_record (some table) = by_range stage_record table _

      by_record :
          (o : Option StageRecord)
          → TurnUsed sid r pending (turn_of_record manifest frames sid r pending o)
      by_record none = tt
      by_record (some stage_record) = by_output stage_record (frames.output sid)
