-- ===== src/Trace/Linked.antt =====
-- What one round of a walk went through.
use carbonpaper.Prelude.{
  ◌≡◌, refl, sym, ap, ◌∙◌, subst, String, Bool, true, false, Option, some, none, List, [], ◌∷◌, ℤ,
  Result, ok, err, ◌>>=◌, ◌⊎◌, inl, inr, ◌↔◌, All, All-map, Memᴰ, lookup, string_eq,
}
use carbonpaper.Lineage.Row.{RowParent}
use carbonpaper.Stage.Kind.{StageType}
use carbonpaper.Trace.Frames.{StageRecord, Table, RunFrames, parents_of, split_spine, lineage_hops}
use carbonpaper.Trace.FanIn.{RowSampleChoice, TraceError, find_fan_in}
use carbonpaper.Trace.Step.{
  Manifest, Next, hop, stop, StageTransform, in_range, is_input_data, or_no_hops, follow, Turn,
  ended, recorded,
}
use carbonpaper.Trace.Walk.{
  advance, record_step, turn_if_in_range, turn_in_stage, turn_of_record, turn,
}
use carbonpaper.Trace.Hops.{All-split_spine, All-follow, All-find_fan_in}
use carbonpaper.Trace.Landing.{IsRow, KeepsPlace, Leads, advance-Leads}
use carbonpaper.Trace.Origin.{advance-origin_iff}

All-self : {A : Type 0} (xs : List A) → All (λ x. Memᴰ x xs) xs
All-self [] = tt
All-self (x ∷ xs) = (Memᴰ.head refl, All-map (λ y m. Memᴰ.tail m) xs (All-self xs))

find_fan_in-none :
    (type : Option StageType) (hops : Option (List RowParent))
    → is_input_data type ≡ false
    → find_fan_in type none hops ≡ none
    → hops ≡ none
unfolding find_fan_in
find_fan_in-none type none i e = refl
find_fan_in-none (some StageType.input_data) (some hops) i e = cc
find_fan_in-none type (some hops) i e = absurd (is_some type i e)
  where
    is_some :
        (t : Option StageType) → is_input_data t ≡ false → find_fan_in t none (some hops) ≡ none → ⊥
    is_some (some StageType.input_data) j f = cc
    is_some _ j f = cc

module _ (manifest : Manifest) (frames : RunFrames) where
  -- The step is of that row, which the stage's output has.
  pub record IsStepAt (sid : String) (r : ℤ) (s : StageTransform) : Type 0 where
    pub stage_record : StageRecord
    pub table : Table
    pub is_record : lookup sid manifest.by_id ≡ some stage_record
    pub is_output : frames.output sid ≡ some table
    pub in_table : in_range r table.num_rows ≡ true
    pub same_stage : s.stage_id ≡ sid
    pub same_row : s.row_ordinal ≡ r
    pub same_type : s.stage_type ≡ stage_record.type

  -- The recorded lineage of the row names the other; or nothing is recorded of the row, and the
  -- stage, which keeps its rows' places, has the other's stage for its only input.
  abbrev pub CameFrom : String → ℤ → String → ℤ → Type 0
  CameFrom sid r sid' r' =
      ((hops : List RowParent) × (p : RowParent) × (lineage_hops frames sid r ≡ some hops)
        × Memᴰ p hops
        × (p.stage_id ≡ sid')
        × (p.row_ordinal ≡ r'))
      ⊎ ((stage_record : StageRecord) × (table : Table) × (lookup sid manifest.by_id
            ≡ some stage_record)
          × (frames.output sid ≡ some table)
          × (lineage_hops frames sid r ≡ none)
          × KeepsPlace manifest frames stage_record.type table (parents_of stage_record) r sid' r')

  -- What a round that made a step made of it.
  abbrev pub Stepped : String → ℤ → StageTransform → Next → Type 0
  Stepped sid r s (hop sid' r') =
      IsStepAt sid r s × CameFrom sid r sid' r' × IsRow manifest frames sid' r'
  Stepped sid r s (stop last) =
      IsStepAt sid r s × ((last.reached_origin ≡ true) ↔ (is_input_data s.stage_type ≡ true))

  unfoldable pub OfTurn : String → ℤ → Result TraceError Turn → Type 0
  OfTurn sid r (err e) = Unit
  OfTurn sid r (ok (ended last left)) = (frames.output sid ≡ none) × (last.reached_origin ≡ false)
  OfTurn sid r (ok (recorded s next left)) = Stepped sid r s next

  HopsOf : (hops : Option (List RowParent)) (P : RowParent → Type 0) → Type 0
  HopsOf hops P = All P (or_no_hops hops)

  -- A parent that the walk takes, as spine or as sample, is one of the recorded parents.
  pub taken :
      (sid : String) (type : Option StageType) (hops : Option (List RowParent))
      (pending left : List RowSampleChoice) (followed : Option RowParent) (p : RowParent)
      → follow sid (find_fan_in type (split_spine (or_no_hops hops)).0 hops) pending
        ≡ ok (followed, left)
      → ((split_spine (or_no_hops hops)).0 ≡ some p) ⊎ (followed ≡ some p)
      → Memᴰ p (or_no_hops hops)
  taken sid type hops pending left followed p e (inl f) =
      All-split_spine (λ q. Memᴰ q (or_no_hops hops)) (or_no_hops hops) p
        (All-self (or_no_hops hops)) f
  taken sid type hops pending left followed p e (inr f) =
      All-follow (λ q. Memᴰ q (or_no_hops hops)) sid _ pending left p
        (λ ps g.
          All-find_fan_in (λ q. Memᴰ q (or_no_hops hops)) type _ hops ps
            (All-self (or_no_hops hops)) g)
        (e ∙ ap (λ o. ok (o, left)) f)

  pub some_hops :
      (hops : Option (List RowParent)) (p : RowParent)
      → Memᴰ p (or_no_hops hops)
      → (ps : List RowParent) × (hops ≡ some ps) × Memᴰ p ps
  some_hops none p m = elim m [ ]
  some_hops (some ps) p m = (ps, refl, m)

  module _ (sid : String) (stage_record : StageRecord) (r : ℤ) (table : Table)
      (e : lookup sid manifest.by_id ≡ some stage_record) (f : frames.output sid ≡ some table)
      (b : in_range r table.num_rows ≡ true) where
    abbrev hops_here : Option (List RowParent)
    hops_here = lineage_hops frames sid r

    abbrev spine_here : Option RowParent
    spine_here = (split_spine (or_no_hops hops_here)).0

    abbrev fan_in_here : Option (List RowParent)
    fan_in_here = find_fan_in stage_record.type spine_here hops_here

    step_at :
        (s : StageTransform)
        → s.stage_id ≡ sid
        → s.row_ordinal ≡ r
        → s.stage_type ≡ stage_record.type
        → IsStepAt sid r s
    step_at s x y z = record {
      stage_record = stage_record;
      table = table;
      is_record = e;
      is_output = f;
      in_table = b;
      same_stage = x;
      same_row = y;
      same_type = z;
    }

    came :
        (pending left : List RowSampleChoice) (followed : Option RowParent) (sid' : String) (r' : ℤ)
        → follow sid fan_in_here pending ≡ ok (followed, left)
        → is_input_data stage_record.type ≡ false
        → Leads manifest frames stage_record.type r table
            (parents_of stage_record)
            spine_here
            fan_in_here
            followed
            sid'
            r'
        → CameFrom sid r sid' r'
    came pending left followed sid' r' h i (inl (p, which, x, y)) =
        let (ps, g, m) =
          some_hops hops_here p
            (taken sid stage_record.type hops_here pending left followed p h which) in
        inl (ps, p, g, m, x, y)
    came pending left followed sid' r' h i (inr (no_spine, no_fan_in, kept)) =
        let none_recorded =
          find_fan_in-none stage_record.type hops_here i
            (subst (λ o. find_fan_in stage_record.type o hops_here ≡ none) no_spine no_fan_in) in
        inr (stage_record, table, e, f, none_recorded, kept)

    next-Stepped :
        (s : StageTransform) (pending left : List RowSampleChoice) (followed : Option RowParent)
        (next : Next)
        → IsStepAt sid r s
        → s.stage_type ≡ stage_record.type
        → follow sid fan_in_here pending ≡ ok (followed, left)
        → advance manifest frames sid stage_record.type r table
            (parents_of stage_record)
            spine_here
            fan_in_here
            followed
          ≡ next
        → Stepped sid r s next
    next-Stepped s pending left followed (hop sid' r') at t h g =
        let (i, way, landed) =
          advance-Leads manifest frames sid stage_record.type r table _ _ _ followed sid' r' b g in
        (at, came pending left followed sid' r' h i way, landed)
    next-Stepped s pending left followed (stop last) at t h g = (
      at,
      subst (λ x. (last.reached_origin ≡ true) ↔ (is_input_data x ≡ true)) (sym t)
          (advance-origin_iff manifest frames sid stage_record.type r table _ _ _ followed last g),
    )

    follow-OfTurn :
        (pending : List RowSampleChoice)
        (o : Result TraceError (Option RowParent × List RowSampleChoice))
        → follow sid fan_in_here pending ≡ o
        → OfTurn sid r (
            o >>= λ (followed, left). ok (
              recorded
                (record_step manifest frames sid stage_record r table
                  (split_spine (or_no_hops hops_here)).1
                  spine_here
                  fan_in_here
                  followed)
                (advance manifest frames sid stage_record.type r table
                  (parents_of stage_record)
                  spine_here
                  fan_in_here
                  followed)
                left))
    unfolding OfTurn
    follow-OfTurn pending (err x) h = tt
    follow-OfTurn pending (ok (followed, left)) h =
        next-Stepped _ pending left followed _ (step_at _ refl refl refl) refl h refl

  in_range-OfTurn :
      (sid : String) (stage_record : StageRecord) (r : ℤ) (table : Table)
      (pending : List RowSampleChoice) (b : Bool)
      → lookup sid manifest.by_id ≡ some stage_record
      → frames.output sid ≡ some table
      → in_range r table.num_rows ≡ b
      → OfTurn sid r (turn_if_in_range manifest frames sid stage_record r pending table b)
  unfolding OfTurn
  in_range-OfTurn sid stage_record r table pending true e f h =
      follow-OfTurn sid stage_record r table e f h pending _ refl
  in_range-OfTurn sid stage_record r table pending false e f h = tt

  in_stage-OfTurn :
      (sid : String) (stage_record : StageRecord) (r : ℤ) (pending : List RowSampleChoice)
      (o : Option Table)
      → lookup sid manifest.by_id ≡ some stage_record
      → frames.output sid ≡ o
      → OfTurn sid r (turn_in_stage manifest frames sid stage_record r pending o)
  unfolding OfTurn
  in_stage-OfTurn sid stage_record r pending none e f = (f, refl)
  in_stage-OfTurn sid stage_record r pending (some table) e f =
      in_range-OfTurn sid stage_record r table pending _ e f refl

  of_record-OfTurn :
      (sid : String) (r : ℤ) (pending : List RowSampleChoice) (o : Option StageRecord)
      → lookup sid manifest.by_id ≡ o
      → OfTurn sid r (turn_of_record manifest frames sid r pending o)
  unfolding OfTurn
  of_record-OfTurn sid r pending none e = tt
  of_record-OfTurn sid r pending (some stage_record) e =
      in_stage-OfTurn sid stage_record r pending (frames.output sid) e refl

  pub turn-OfTurn :
      (sid : String) (r : ℤ) (pending : List RowSampleChoice)
      → OfTurn sid r (turn manifest frames sid r pending)
  unfolding turn
  turn-OfTurn sid r pending = of_record-OfTurn sid r pending _ refl
