-- ===== src/Workflow/Resolved.antt =====
-- A graph with no issues resolves: no function on the way raises.
use carbonpaper.Prelude.{
  String, Bool, true, false, some, List, [], ◌∷◌, ◌++◌, map, lookup, lookup-insert, insert,
  string_eq, nat_eq, Result, >>=-eq-ok, >>=_of_ok, ok-injective, if◌then◌else◌, is_empty, ◌⊎◌, ◌≡◌,
  refl, subst, ◌∙◌, ap, arith, ltb, count, contains, keys, dict_of, is_unique, unique_of_count,
  count_of_absent, contains-filter-nil, contains-keys-dict_of, Bool-cases, List-cases, inl, inr,
  All, All-map, All-mem, Option, none, ok, ◌==◌, beq_self,
}
use carbonpaper.Signature.{promised_output_schema}
use carbonpaper.Stage.{Stage}
use carbonpaper.Workflow.Checks.{
  GraphIssue, cycle_detected, stage_graph, structural_issues, validate_unique_ids, duplicate_ids,
  duplicate_stage_id,
}
use carbonpaper.Workflow.Cycle.{detect_cycle}
use carbonpaper.Workflow.Graph.{ids}
use carbonpaper.Workflow.Order.{sort_stages_by_dependency}
use carbonpaper.Workflow.Order.Total.{sort_total}
use carbonpaper.Workflow.Raised.{Raised}
use carbonpaper.Workflow.RowTypes.{find_row_type_disagreements}
use carbonpaper.Workflow.Resolve.{
  StageHooks, WorkflowStage, Outputs, resolve_inputs, resolve_from, resolve_workflow_stages,
  find_workflow_stage_issues, find_issues_from, find_resolution_issues, graph_issues,
}
use carbonpaper.Workflow.Order.Kept.{sort-Kept}
use carbonpaper.Workflow.Found.{
  IsResolved, IsFedFrom, Under, Has, Keeps, Keeps-insert, FedBy-All, Known, Known-insert,
  resolve_inputs-fed,
}
use carbonpaper.Workflow.Answered.{fresh_rest, read_resolved-IsAnswer, IsAnswer-IsFedFrom}

append-nil-parts : {A : Type 0} (xs ys : List A) → xs ++ ys ≡ [] → (xs ≡ []) × (ys ≡ [])
append-nil-parts [] ys h = (refl, h)
append-nil-parts (x ∷ xs) ys h = cc

map-nil : {A B : Type 0} (f : A → B) (xs : List A) → map f xs ≡ [] → xs ≡ []
map-nil f [] h = refl
map-nil f (x ∷ xs) h = cc

nil_of_no_key : (xs : List String) → keys (dict_of (map (λ i. (i, i)) xs)) ≡ [] → xs ≡ []
nil_of_no_key [] h = refl
nil_of_no_key (x ∷ xs) h =
    let here : contains (keys (map (λ i. (i, i)) (x ∷ xs))) x ≡ true = ground (arith, beq_self x) in
    absurd-of (
      subst (λ l. contains l x ≡ true) h
        (contains-keys-dict_of x (map (λ i. (i, i)) (x ∷ xs)) ∙ here))
  where
    absurd-of : false ≡ true → x ∷ xs ≡ []
    absurd-of e = cc

pub unique_of_duplicate_ids :
    (stages : List Stage)
    → duplicate_ids stage_graph stages ≡ []
    → is_unique (ids stage_graph stages) ≡ true
unfolding duplicate_ids
unique_of_duplicate_ids stages h =
    let all_ids = ids stage_graph stages in
    unique_of_count all_ids λ a. elim (Bool-cases (contains all_ids a)) [
      | inl c ↦ ground (
        arith,
        contains-filter-nil (λ i. ltb 1 (count i all_ids)) all_ids a (nil_of_no_key _ h) c,
      )
      | inr c ↦ ground (arith, count_of_absent all_ids a c)
    ]

module _ {I : Type 0} (hooks : StageHooks I) where
  -- Where no stage has an issue, resolution comes through and keeps what it has.
  resolve_from-ok :
      (rest : List Stage) (outputs : Outputs) (m : List (String × WorkflowStage))
      → is_unique (ids stage_graph rest) ≡ true
      → All (λ s. lookup s.id m ≡ none) rest
      → Known outputs m
      → find_issues_from hooks outputs rest ≡ ok []
      → (out : List (String × WorkflowStage)) × (resolve_from outputs m rest ≡ ok out)
        × Keeps m out
        × ((i : String) (u : WorkflowStage)
            → lookup i out ≡ some u
            → (lookup i m ≡ some u) ⊎ (contains (ids stage_graph rest) i ≡ true))
        × All (Has out) rest
  unfolding find_issues_from resolve_from
  resolve_from-ok [] outputs m u fresh known h = (m, refl, (λ i w e. e), (λ i w e. inl e), tt)
  resolve_from-ok (s ∷ rest) outputs m u fresh known h =
      let (inputs, e1, h1) = >>=-eq-ok (resolve_inputs s.id s.inputs outputs) _ h in
      let (issues, e2, h2) = >>=-eq-ok (find_workflow_stage_issues hooks s inputs) _ h1 in
      let (output, e3, h3) = >>=-eq-ok (promised_output_schema s inputs) _ (no_issue issues h2) in
      let w : WorkflowStage = record { stage = s; inputs = inputs; output_schema = output } in
      let (names, fed) = resolve_inputs-fed s.id s.inputs outputs m inputs known e1 in
      let (out, e4, keep, from, all) =
        resolve_from-ok rest (insert s.id output outputs) (insert s.id w m) (ground (arith, u))
          (fresh_rest m w rest (ground (arith, u)) fresh.1) (Known-insert outputs m w known) h3 in
      let kept : Keeps m out = λ i v e. keep i v (Keeps-insert m s.id w fresh.0 i v e) in
      (
        out,
        >>=_of_ok _ _ e1 (>>=_of_ok _ _ e3 e4),
        kept,
        λ i v e. origin i v w (from i v e),
        (
          (
            w,
            keep s.id w (ground (arith, lookup-insert s.id s.id w m, beq_self s.id)),
            refl,
            record { input_names = names; promised = e3 },
            FedBy-All (Under m) (Under out) inputs kept fed,
          ),
          all,
        ),
      )
    where
      origin :
          (i : String) (v w : WorkflowStage)
          → (lookup i (insert s.id w m) ≡ some v) ⊎ (contains (ids stage_graph rest) i ≡ true)
          → (lookup i m ≡ some v) ⊎ (contains (ids stage_graph (s ∷ rest)) i ≡ true)
      origin i v w (inr c) = inr (ground (arith, c))
      origin i v w (inl e) = elim (Bool-cases (i == s.id)) [
        | inl q ↦ inr (ground (arith, q))
        | inr q ↦ inl (ground (arith, lookup-insert s.id i w m))
      ]

      no_issue :
          {k : Result Raised (List (GraphIssue I))} (issues : List (GraphIssue I))
          → (if is_empty issues then k else ok issues) ≡ ok []
          → k ≡ ok []
      no_issue [] h = h
      no_issue (i ∷ is) h = cc

  structural-nil :
      (stages : List Stage)
      → structural_issues {I = I} stages ≡ []
      → (is_unique (ids stage_graph stages) ≡ true) × (detect_cycle stage_graph stages ≡ [])
  unfolding structural_issues validate_unique_ids
  structural-nil stages h =
      let (dupes, rest) = append-nil-parts _ _ h in
      let (cycles, _) = append-nil-parts _ _ rest in
      (
        unique_of_duplicate_ids stages (map-nil duplicate_stage_id _ dupes),
        map-nil cycle_detected _ cycles,
      )

  -- A graph with no issue resolves: `resolve_workflow_stages` raises nothing on it, and answers the
  -- given stages in the given order. Each is resolved with its inputs, by name and in their order,
  -- each input with the output schema of the answered stage of that id; and with the output schema
  -- that its signature promises of these inputs.
  pub resolve_workflow_stages-ok :
      (stages : List Stage)
      → graph_issues hooks stages ≡ ok []
      → (ws : List WorkflowStage) × (resolve_workflow_stages stages ≡ ok ws)
        × (map (λ w. w.stage) ws ≡ stages)
        × All (λ w. IsResolved w × IsFedFrom ws w) ws
  unfolding graph_issues find_resolution_issues resolve_workflow_stages
  resolve_workflow_stages-ok stages h =
      let (structural, resolution) = clean (List-cases (structural_issues {I = I} stages)) in
      let (unique, acyclic) = structural-nil stages structural in
      let (ordered, sorted) = sort_total stage_graph stages unique acyclic in
      let (once, inside, all_there) = sort-Kept stage_graph stages ordered unique sorted in
      let (out, resolved, _, from, all) =
        resolve_from-ok ordered [] [] once (all_fresh ordered) (λ i o e. cc)
          (issues_from ordered sorted resolution) in
      let (ws, r) =
        read_resolved-IsAnswer out stages
          (All-map (λ s m. All-mem (Has out) ordered all m) stages all_there) in
      (
        ws,
        >>=_of_ok _ _ sorted (>>=_of_ok _ _ resolved r.answered),
        r.same,
        IsAnswer-IsFedFrom out stages ws r (λ i u e. inside i (not_before (from i u e))),
      )
    where
      not_before :
          {u : WorkflowStage} {b : Bool}
          → (◌≡◌ {A = Option WorkflowStage} none (some u)) ⊎ (b ≡ true)
          → b ≡ true
      not_before (inl e) = cc
      not_before (inr c) = c

      all_fresh :
          (rest : List Stage) → All (λ s. ◌≡◌ {A = Option WorkflowStage} (lookup s.id []) none) rest
      all_fresh [] = tt
      all_fresh (s ∷ rest) = (refl, all_fresh rest)

      clean :
          (structural_issues {I = I} stages ≡ [])
            ⊎ ((i : GraphIssue I) × (is : List (GraphIssue I)) × (structural_issues {I = I} stages
                  ≡ i ∷ is))
          → (structural_issues {I = I} stages ≡ []) × (find_resolution_issues hooks stages ≡ ok [])
      clean (inr (i, is, e)) = cc (both-nil i is e)
        where
          both-nil :
              (i : GraphIssue I) (is : List (GraphIssue I))
              → structural_issues {I = I} stages ≡ i ∷ is
              → graph_issues hooks stages ≡ ok (i ∷ is)
          both-nil i is e = rw e refl
      clean (inl e) =
          let k = rw (e, graph_issues) at h in
          let (resolution, e1, h1) = >>=-eq-ok (find_resolution_issues hooks stages) _ k in
          let (disagreements, e2, h2) = >>=-eq-ok (find_row_type_disagreements stages) _ h1 in
          (e, e1 ∙ ap ok (append-nil-parts resolution disagreements (ok-injective h2)).0)

      issues_from :
          (ordered : List Stage)
          → sort_stages_by_dependency stage_graph stages ≡ ok ordered
          → find_resolution_issues hooks stages ≡ ok []
          → find_issues_from hooks [] ordered ≡ ok []
      issues_from ordered e k = rw e at k
