-- ===== src/Trace/Landing.antt =====
-- Where the walk goes when it leaves a stage.
use carbonpaper.Prelude.{
  ◌≡◌, refl, sym, ap, subst, String, true, false, Option, some, none, List, [], ◌∷◌, nat_eq,
  nat_beq_iff, ◌==◌, ℤ, ◌⊎◌, inl, inr, Bool-cases,
}
use carbonpaper.Lineage.Row.{RowParent}
use carbonpaper.Stage.Kind.{StageType}
use carbonpaper.Trace.Frames.{Table, RunFrames, is_row_preserving}
use carbonpaper.Trace.Step.{Manifest, Next, hop, stop, TraceEnd, in_range, is_input_data}
use carbonpaper.Trace.Walk.{
  is_in_run, hop_into, advance_via_lineage, stay_at_row, advance_positionally, advance_unrecorded,
  advance_recorded, advance,
}

hop_stage : {s t : String} {q r : ℤ} → ◌≡◌ {A = Next} (hop s q) (hop t r) → s ≡ t
hop_stage e = cc

hop_row : {s t : String} {q r : ℤ} → ◌≡◌ {A = Next} (hop s q) (hop t r) → q ≡ r
hop_row e = cc

module _ (manifest : Manifest) (frames : RunFrames) where
  -- The row is one of an output of the run.
  pub record IsRow (sid : String) (r : ℤ) : Type 0 where
    pub table : Table
    pub is_output : frames.output sid ≡ some table
    pub in_table : in_range r table.num_rows ≡ true
    pub in_run : is_in_run manifest frames sid ≡ true

  hop_into-IsRow :
      (sid : String) (p : RowParent) (o : Option Table) (sid' : String) (r' : ℤ)
      → is_in_run manifest frames p.stage_id ≡ true
      → frames.output p.stage_id ≡ o
      → hop_into manifest frames sid p o ≡ hop sid' r'
      → (p.stage_id ≡ sid') × (p.row_ordinal ≡ r') × IsRow p.stage_id p.row_ordinal
  hop_into-IsRow sid p none sid' r' k f e = cc
  hop_into-IsRow sid p (some t) sid' r' k f e =
      elim (Bool-cases (in_range p.row_ordinal t.num_rows)) [
        | inl b ↦
            let g = rw b at e in
            (hop_stage g, hop_row g, record { table = t; is_output = f; in_table = b; in_run = k })
        | inr b ↦ absurd (stopped (rw b at e))
      ]
    where
      stopped : {x : TraceEnd} → ◌≡◌ {A = Next} (stop x) (hop sid' r') → ⊥
      stopped g = cc

  via_lineage-IsRow :
      (sid : String) (p : RowParent) (sid' : String) (r' : ℤ)
      → advance_via_lineage manifest frames sid p ≡ hop sid' r'
      → (p.stage_id ≡ sid') × (p.row_ordinal ≡ r') × IsRow p.stage_id p.row_ordinal
  unfolding advance_via_lineage
  via_lineage-IsRow sid p sid' r' e = elim (Bool-cases (is_in_run manifest frames p.stage_id)) [
    | inl k ↦ hop_into-IsRow sid p (frames.output p.stage_id) sid' r' k refl (rw k at e)
    | inr k ↦ absurd (stopped (rw k at e))
  ]
    where
      stopped : {x : TraceEnd} → ◌≡◌ {A = Next} (stop x) (hop sid' r') → ⊥
      stopped g = cc

  -- Where nothing is recorded of a row, the walk keeps its place in the only input.
  pub record KeepsPlace (type : Option StageType) (table : Table) (parents : List String) (r : ℤ)
      (sid' : String) (r' : ℤ) : Type 0 where
    pub only_parent : parents ≡ sid' ∷ []
    pub same_row : r ≡ r'
    pub preserves : is_row_preserving type ≡ true
    pub parent_table : Table
    pub is_parent_output : frames.output sid' ≡ some parent_table
    pub same_length : parent_table.num_rows ≡ table.num_rows

  stay_at_row-KeepsPlace :
      (sid parent_id : String) (type : Option StageType) (r : ℤ) (table : Table) (o : Option Table)
      (sid' : String) (r' : ℤ)
      → in_range r table.num_rows ≡ true
      → is_in_run manifest frames parent_id ≡ true
      → is_row_preserving type ≡ true
      → frames.output parent_id ≡ o
      → stay_at_row manifest frames sid parent_id r table o ≡ hop sid' r'
      → KeepsPlace type table (parent_id ∷ []) r sid' r' × IsRow sid' r'
  stay_at_row-KeepsPlace sid parent_id type r table none sid' r' b k q f e = cc
  stay_at_row-KeepsPlace sid parent_id type r table (some t) sid' r' b k q f e =
      elim (Bool-cases (t.num_rows == table.num_rows)) [
        | inr n ↦ absurd (stopped (rw n at e))
        | inl n ↦
            let g = rw n at e in
            let same : t.num_rows ≡ table.num_rows = (nat_beq_iff t.num_rows table.num_rows).0 n in
            let kept : KeepsPlace type table (parent_id ∷ []) r sid' r' = record {
              only_parent = ap (λ s. s ∷ []) (hop_stage g);
              same_row = hop_row g;
              preserves = q;
              parent_table = t;
              is_parent_output = subst (λ s. frames.output s ≡ some t) (hop_stage g) f;
              same_length = same;
            } in
            let landed : IsRow sid' r' = record {
              table = t;
              is_output = subst (λ s. frames.output s ≡ some t) (hop_stage g) f;
              in_table =
                  subst (λ n. in_range r' n ≡ true) (sym same)
                    (subst (λ x. in_range x table.num_rows ≡ true) (hop_row g) b);
              in_run = subst (λ s. is_in_run manifest frames s ≡ true) (hop_stage g) k;
            } in
            (kept, landed)
      ]
    where
      stopped : {x : TraceEnd} → ◌≡◌ {A = Next} (stop x) (hop sid' r') → ⊥
      stopped g = cc

  advance_unrecorded-KeepsPlace :
      (sid : String) (type : Option StageType) (r : ℤ) (table : Table) (parents : List String)
      (sid' : String) (r' : ℤ)
      → in_range r table.num_rows ≡ true
      → advance_unrecorded manifest frames sid type r table parents ≡ hop sid' r'
      → KeepsPlace type table parents r sid' r' × IsRow sid' r'
  unfolding advance_positionally
  advance_unrecorded-KeepsPlace sid type r table [] sid' r' b e = cc
  advance_unrecorded-KeepsPlace sid type r table (p ∷ q ∷ ps) sid' r' b e = cc
  advance_unrecorded-KeepsPlace sid type r table (p ∷ []) sid' r' b e =
      elim (Bool-cases (is_row_preserving type)) [
        | inr n ↦ absurd (stopped (rw n at e))
        | inl n ↦
            let positional = rw n at e in
            elim (Bool-cases (is_in_run manifest frames p)) [
              | inr k ↦ absurd (stopped (rw k at positional))
              | inl k ↦
                  stay_at_row-KeepsPlace sid p type r table (frames.output p) sid' r' b k n refl
                    (rw k at positional)
            ]
      ]
    where
      stopped : {x : TraceEnd} → ◌≡◌ {A = Next} (stop x) (hop sid' r') → ⊥
      stopped g = cc

  -- The two ways on: to a parent that the lineage names, or, with nothing recorded, by place.
  abbrev pub Leads :
      Option StageType
      → ℤ
      → Table
      → List String
      → Option RowParent
      → Option (List RowParent)
      → Option RowParent
      → String
      → ℤ
      → Type 0
  Leads type r table parents spine fan_in followed sid' r' =
      ((p : RowParent) × ((spine ≡ some p) ⊎ (followed ≡ some p))
        × (p.stage_id ≡ sid')
        × (p.row_ordinal ≡ r'))
      ⊎ ((spine ≡ none) × (fan_in ≡ none) × KeepsPlace type table parents r sid' r')

  recorded-Leads :
      (sid : String) (type : Option StageType) (r : ℤ) (table : Table) (parents : List String)
      (spine : Option RowParent) (fan_in : Option (List RowParent)) (followed : Option RowParent)
      (sid' : String) (r' : ℤ)
      → in_range r table.num_rows ≡ true
      → advance_recorded manifest frames sid type r table parents spine fan_in followed
        ≡ hop sid' r'
      → Leads type r table parents spine fan_in followed sid' r' × IsRow sid' r'
  recorded-Leads sid type r table parents (some p) fan_in followed sid' r' b e =
      let (s, q, landed) = via_lineage-IsRow sid p sid' r' e in
      (inl (p, inl refl, s, q), subst (λ x. IsRow x r') s (subst (IsRow p.stage_id) q landed))
  recorded-Leads sid type r table parents none fan_in (some p) sid' r' b e =
      let (s, q, landed) = via_lineage-IsRow sid p sid' r' e in
      (inl (p, inr refl, s, q), subst (λ x. IsRow x r') s (subst (IsRow p.stage_id) q landed))
  recorded-Leads sid type r table parents none (some fan_in) none sid' r' b e = cc
  recorded-Leads sid type r table parents none none none sid' r' b e =
      let (kept, landed) = advance_unrecorded-KeepsPlace sid type r table parents sid' r' b e in
      (inr (refl, refl, kept), landed)

  pub advance-Leads :
      (sid : String) (type : Option StageType) (r : ℤ) (table : Table) (parents : List String)
      (spine : Option RowParent) (fan_in : Option (List RowParent)) (followed : Option RowParent)
      (sid' : String) (r' : ℤ)
      → in_range r table.num_rows ≡ true
      → advance manifest frames sid type r table parents spine fan_in followed ≡ hop sid' r'
      → (is_input_data type ≡ false)
        × Leads type r table parents spine fan_in followed sid' r'
        × IsRow sid' r'
  unfolding advance
  advance-Leads sid type r table parents spine fan_in followed sid' r' b e =
      elim (Bool-cases (is_input_data type)) [
        | inl i ↦ absurd (stopped (rw i at e))
        | inr i ↦
            let (way, landed) =
              recorded-Leads sid type r table parents spine fan_in followed sid' r' b (rw i at e) in
            (i, way, landed)
      ]
    where
      stopped : {x : TraceEnd} → ◌≡◌ {A = Next} (stop x) (hop sid' r') → ⊥
      stopped g = cc
