-- ===== src/Workflow/Found.antt =====
-- What the resolution of the stages has found of each, in the dictionaries that it fills.
use carbonpaper.Prelude.{
  String, some, List, [], ◌∷◌, map, lookup, lookup-insert, insert, string_eq, nat_eq, >>=-eq-ok,
  ok-injective, ◌≡◌, refl, sym, subst, ◌∙◌, ap, arith, Bool-cases, inl, inr, All, All-map, Memᴰ,
  Option, none, ok, err, ◌==◌, eq_iff,
}
use carbonpaper.Schema.Table.{TableSchema}
use carbonpaper.Signature.{WorkflowStageInput, promised_output_schema}
use carbonpaper.Stage.{Stage}
use carbonpaper.Workflow.Raised.{references_no_stage, resolves_no_schema}
use carbonpaper.Workflow.Resolve.{WorkflowStage, Outputs, require_upstream_output, resolve_inputs}

-- What the resolution of a stage found: the stage's inputs, by name, and the schema that the
-- signature of the stage promises of them.
pub record IsResolved (w : WorkflowStage) : Type 0 where
  pub input_names : map (λ i. i.id) w.inputs ≡ w.stage.inputs
  pub promised : promised_output_schema w.stage w.inputs ≡ ok w.output_schema

-- The schema of each input is the output schema of a stage of that id.
abbrev pub FedBy : (String → WorkflowStage → Type 0) → WorkflowStage → Type 0
FedBy under w =
    All
      (λ i.
        (u : WorkflowStage) × under i.id u
        × (u.stage.id ≡ i.id)
        × (u.output_schema ≡ some i.table_schema))
      w.inputs

abbrev pub IsFedFrom : List WorkflowStage → WorkflowStage → Type 0
IsFedFrom ws w = FedBy (λ i u. Memᴰ u ws) w

abbrev pub Under : List (String × WorkflowStage) → String → WorkflowStage → Type 0
Under m i u = lookup i m ≡ some u

-- The dictionary holds, under the stage's id, that stage as resolved.
abbrev pub Has : List (String × WorkflowStage) → Stage → Type 0
Has m s =
    (w : WorkflowStage) × (lookup s.id m ≡ some w)
    × (w.stage ≡ s)
    × IsResolved w
    × FedBy (Under m) w

abbrev pub Keeps : List (String × WorkflowStage) → List (String × WorkflowStage) → Type 0
Keeps m out = (i : String) (w : WorkflowStage) → lookup i m ≡ some w → lookup i out ≡ some w

pub Keeps-insert :
    (m : List (String × WorkflowStage)) (i : String) (w : WorkflowStage)
    → lookup i m ≡ none
    → Keeps m (insert i w m)
Keeps-insert m i w fresh j v e = elim (Bool-cases (j == i)) [
  | inl q ↦ absurd-of (sym fresh ∙ ap (λ k. lookup k m) (sym ((eq_iff j i).0 q)) ∙ e)
  | inr q ↦ ground (arith, lookup-insert i j w m)
]
  where
    absurd-of : ◌≡◌ {A = Option WorkflowStage} none (some v) → lookup j (insert i w m) ≡ some v
    absurd-of f = cc

pub FedBy-All :
    (under under' : String → WorkflowStage → Type 0) (inputs : List WorkflowStageInput)
    → ((i : String) (u : WorkflowStage) → under i u → under' i u)
    → All
        (λ i.
          (u : WorkflowStage) × under i.id u
          × (u.stage.id ≡ i.id)
          × (u.output_schema ≡ some i.table_schema))
        inputs
    → All
        (λ i.
          (u : WorkflowStage) × under' i.id u
          × (u.stage.id ≡ i.id)
          × (u.output_schema ≡ some i.table_schema))
        inputs
FedBy-All under under' inputs h k = All-map (λ i (u, a, b, c). (u, h i.id u a, b, c)) inputs k

-- The schemas that are known are those of the stages that were resolved.
abbrev pub Known : Outputs → List (String × WorkflowStage) → Type 0
Known outputs m =
    (i : String) (o : Option TableSchema)
    → lookup i outputs ≡ some o
    → (u : WorkflowStage) × (lookup i m ≡ some u) × (u.stage.id ≡ i) × (u.output_schema ≡ o)

pub Known-insert :
    (outputs : Outputs) (m : List (String × WorkflowStage)) (w : WorkflowStage)
    → Known outputs m
    → Known (insert w.stage.id w.output_schema outputs) (insert w.stage.id w m)
Known-insert outputs m w h i o e = elim (Bool-cases (i == w.stage.id)) [
  | inl q ↦ (
    w,
    ground (arith, lookup-insert w.stage.id i w m),
    sym ((eq_iff i w.stage.id).0 q),
    some_inj (ground (arith, lookup-insert w.stage.id i w.output_schema outputs)),
  )
  | inr q ↦
      let (u, a, b, c) =
        h i o (ground (arith, lookup-insert w.stage.id i w.output_schema outputs)) in
      (u, ground (arith, lookup-insert w.stage.id i w m), b, c)
]
  where
    some_inj :
        {a b : Option TableSchema} → ◌≡◌ {A = Option (Option TableSchema)} (some a) (some b) → a ≡ b
    some_inj f = cc

-- An input that resolves gets the schema that is known of its stage.
require_upstream_output-lookup :
    (stage upstream : String) (outputs : Outputs) (schema : TableSchema)
    → require_upstream_output stage upstream outputs ≡ ok schema
    → lookup upstream outputs ≡ some (some schema)
unfolding require_upstream_output
require_upstream_output-lookup stage upstream outputs schema e =
    by_known (lookup upstream outputs) e
  where
    by_known :
        (o : Option (Option TableSchema))
        → (elim o [
          | none ↦ err (references_no_stage stage upstream)
          | some none ↦ err (resolves_no_schema stage upstream)
          | some (some found) ↦ ok found
        ])
          ≡ ok schema
        → o ≡ some (some schema)
    by_known none f = cc
    by_known (some none) f = cc
    by_known (some (some found)) f = ap (λ s. some (some s)) (ok-injective f)

pub resolve_inputs-fed :
    (stage : String) (names : List String) (outputs : Outputs) (m : List (String × WorkflowStage))
    (inputs : List WorkflowStageInput)
    → Known outputs m
    → resolve_inputs stage names outputs ≡ ok inputs
    → (map (λ i. i.id) inputs ≡ names)
      × All
          (λ i.
            (u : WorkflowStage) × Under m i.id u
            × (u.stage.id ≡ i.id)
            × (u.output_schema ≡ some i.table_schema))
          inputs
unfolding resolve_inputs
resolve_inputs-fed stage [] outputs m inputs h e =
    subst
      (λ l.
        (map (λ i. i.id) l ≡ [])
        × All
            (λ i.
              (u : WorkflowStage) × Under m i.id u
              × (u.stage.id ≡ i.id)
              × (u.output_schema ≡ some i.table_schema))
            l)
      (ok-injective e) (refl, tt)
resolve_inputs-fed stage (n ∷ names) outputs m inputs h e =
    let (schema, a, e1) = >>=-eq-ok (require_upstream_output stage n outputs) _ e in
    let (more, b, e2) = >>=-eq-ok (resolve_inputs stage names outputs) _ e1 in
    let (same, fed) = resolve_inputs-fed stage names outputs m more h b in
    subst
      (λ l.
        (map (λ i. i.id) l ≡ n ∷ names)
        × All
            (λ i.
              (u : WorkflowStage) × Under m i.id u
              × (u.stage.id ≡ i.id)
              × (u.output_schema ≡ some i.table_schema))
            l)
      (ok-injective e2)
      (
        ap (λ l. n ∷ l) same,
        (h n (some schema) (require_upstream_output-lookup stage n outputs schema a), fed),
      )
