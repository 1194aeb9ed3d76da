-- ===== src/Trace/Origin.antt =====
-- Where the walk reaches the origin of a row.
use carbonpaper.Prelude.{
  ◌≡◌, refl, sym, ap, ◌∙◌, subst, String, Bool, true, false, Option, some, none, List, [], ◌∷◌,
  nat_eq, ◌==◌, ℤ, inl, inr, ◌↔◌, Bool-cases,
}
use carbonpaper.Lineage.Row.{RowParent}
use carbonpaper.Stage.Kind.{StageType}
use carbonpaper.Trace.Frames.{Table, RunFrames, is_row_preserving}
use carbonpaper.Trace.Step.{Manifest, Next, hop, stop, TraceEnd, in_range, is_input_data}
use carbonpaper.Trace.Walk.{
  is_in_run, hop_into, advance_via_lineage, stay_at_row, advance_positionally, advance_unrecorded,
  advance_recorded, advance,
}

module _ (manifest : Manifest) (frames : RunFrames) where
  NotOrigin : Next → Type 0
  NotOrigin (hop _ _) = Unit
  NotOrigin (stop last) = last.reached_origin ≡ false

  hop_into-NotOrigin :
      (sid : String) (p : RowParent) (o : Option Table)
      → NotOrigin (hop_into manifest frames sid p o)
  unfolding NotOrigin
  hop_into-NotOrigin sid p none = refl
  hop_into-NotOrigin sid p (some t) = elim (Bool-cases (in_range p.row_ordinal t.num_rows)) [
    | inl b ↦ rw b tt
    | inr b ↦ rw b refl
  ]

  via_lineage-NotOrigin :
      (sid : String) (p : RowParent) → NotOrigin (advance_via_lineage manifest frames sid p)
  unfolding advance_via_lineage NotOrigin
  via_lineage-NotOrigin sid p = elim (Bool-cases (is_in_run manifest frames p.stage_id)) [
    | inl k ↦ rw k (hop_into-NotOrigin sid p (frames.output p.stage_id))
    | inr k ↦ rw k refl
  ]

  stay_at_row-NotOrigin :
      (sid parent_id : String) (r : ℤ) (table : Table) (o : Option Table)
      → NotOrigin (stay_at_row manifest frames sid parent_id r table o)
  unfolding NotOrigin
  stay_at_row-NotOrigin sid parent_id r table none = refl
  stay_at_row-NotOrigin sid parent_id r table (some t) =
      elim (Bool-cases (t.num_rows == table.num_rows)) [ inl n ↦ rw n tt | inr n ↦ rw n refl ]

  unrecorded-NotOrigin :
      (sid : String) (type : Option StageType) (r : ℤ) (table : Table) (parents : List String)
      → NotOrigin (advance_unrecorded manifest frames sid type r table parents)
  unfolding advance_positionally NotOrigin
  unrecorded-NotOrigin sid type r table [] = refl
  unrecorded-NotOrigin sid type r table (p ∷ q ∷ ps) = refl
  unrecorded-NotOrigin sid type r table (p ∷ []) = elim (Bool-cases (is_row_preserving type)) [
    | inr n ↦ rw n refl
    | inl n ↦ rw n (elim (Bool-cases (is_in_run manifest frames p)) [
      | inl k ↦ rw k (stay_at_row-NotOrigin sid p r table (frames.output p))
      | inr k ↦ rw k refl
    ])
  ]

  recorded-NotOrigin :
      (sid : String) (type : Option StageType) (r : ℤ) (table : Table) (parents : List String)
      (spine : Option RowParent) (fan_in : Option (List RowParent)) (followed : Option RowParent)
      → NotOrigin (advance_recorded manifest frames sid type r table parents spine fan_in followed)
  unfolding NotOrigin
  recorded-NotOrigin sid type r table parents (some p) fan_in followed = via_lineage-NotOrigin sid p
  recorded-NotOrigin sid type r table parents none fan_in (some p) = via_lineage-NotOrigin sid p
  recorded-NotOrigin sid type r table parents none (some fan_in) none = refl
  recorded-NotOrigin sid type r table parents none none none =
      unrecorded-NotOrigin sid type r table parents

  -- The origin is reached exactly at a stage that reads its rows from outside the run.
  pub advance-origin_iff :
      (sid : String) (type : Option StageType) (r : ℤ) (table : Table) (parents : List String)
      (spine : Option RowParent) (fan_in : Option (List RowParent)) (followed : Option RowParent)
      (last : TraceEnd)
      → advance manifest frames sid type r table parents spine fan_in followed ≡ stop last
      → (last.reached_origin ≡ true) ↔ (is_input_data type ≡ true)
  unfolding advance NotOrigin
  advance-origin_iff sid type r table parents spine fan_in followed last e =
      elim (Bool-cases (is_input_data type)) [
        | inl i ↦ (λ _. i, λ _. ap origin (sym (rw i at e)))
        | inr i ↦
            let quiet =
              subst NotOrigin (rw i at e)
                (recorded-NotOrigin sid type r table parents spine fan_in followed) in
            (λ t. absurd-of (sym quiet ∙ t), λ t. absurd-of (sym i ∙ t))
      ]
    where
      origin : Next → Bool
      origin (hop _ _) = false
      origin (stop x) = x.reached_origin

      absurd-of : {A : Type 0} → false ≡ true → A
      absurd-of f = cc
