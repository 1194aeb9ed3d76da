-- ===== src/Executor/Subset/Complete.antt =====
-- What a subset run answers: an output of every stage that it names.
use carbonpaper.Prelude.{
  ◌≡◌, refl, sym, ◌∙◌, ap, subst, inl, inr, String, true, false, not, List, [], ◌∷◌, All, All-map,
  contains, lookup, dict_from-All, string_eq, is_none, is_empty, arith, Result, ok, err, ◌>>=◌,
  >>=-eq-ok, ok-injective, if◌then◌else◌,
}
use carbonpaper.Workflow.Resolve.{WorkflowStage}
use carbonpaper.Executor.Records.{RunManifest}
use carbonpaper.Executor.Runtime.{RunContext, Inputs, Runtime}
use carbonpaper.Executor.Topological.{SortError, index}
use carbonpaper.Executor.Topological.Sorted.{topological_sort_cases}
use carbonpaper.Executor.Topological.Index.{IsOrder, own_keys}
use carbonpaper.Executor.Progress.{Progress}
use carbonpaper.Executor.Loop.Between.{stage_ids}
use carbonpaper.Executor.Loop.Final.{is_complete, final, result, run_ordered_stages-Produced}
use carbonpaper.Executor.Subset.{
  SubsetRunError, names_no_stage, run_graph, create_run_manifest, raise_if_run_failed, pick,
  run_sorted, execute_subset,
}
use carbonpaper.Executor.Subset.Picked.{
  IsResolved, IsOrder-InOrder, contains-pick, of_stage, All-pairs, All-pick, lookup_last-All,
}

raise_if_run_failed-ok :
    {Usage : Type 0} (m : RunManifest Usage) (nothing : Unit)
    → raise_if_run_failed m ≡ ok nothing
    → is_complete m.status ≡ true
unfolding raise_if_run_failed
raise_if_run_failed-ok m nothing h = ground arith

module _ {Row Usage World : Type 0} (runtime : Runtime Row Usage World) (ctx : RunContext) where
  abbrev Present : Inputs Row → String → Type 0
  Present outputs sid = is_none (lookup sid outputs) ≡ false

  answers :
      (m : RunManifest Usage) (q : Progress Row Usage World) (outputs : Inputs Row)
      (p : Progress Row Usage World)
      → ◌>>=◌ {B = Inputs Row × Progress Row Usage World}
          (raise_if_run_failed m)
          (λ _. ok (q.outputs_so_far, q))
        ≡ ok (outputs, p)
      → (is_complete m.status ≡ true) × (q.outputs_so_far ≡ outputs)
  answers m q outputs p h =
      let (nothing, complete, same) = >>=-eq-ok (raise_if_run_failed m) _ h in
      (raise_if_run_failed-ok m nothing complete, ap (λ answer. answer.0) (ok-injective same))

  module _ (injected : Inputs Row) (world : World) (stages ordered : List WorkflowStage)
      (outputs : Inputs Row) (p : Progress Row Usage World) where
    abbrev created : RunManifest Usage
    created = create_run_manifest ordered

    run_sorted-answers :
        run_sorted runtime ctx injected world (ok ordered) ≡ ok (outputs, p)
        → (is_complete (final runtime ctx ordered created injected world).status ≡ true)
          × ((result runtime ctx ordered created injected world).outputs_so_far ≡ outputs)
    unfolding run_sorted
    run_sorted-answers h =
        answers (final runtime ctx ordered created injected world)
          (result runtime ctx ordered created injected world) outputs p h

    run_sorted-Present :
        IsOrder run_graph stages ordered
        → All IsResolved ordered
        → run_sorted runtime ctx injected world (ok ordered) ≡ ok (outputs, p)
        → (sid : String) → contains (stage_ids stages) sid ≡ true
        → Present outputs sid
    run_sorted-Present o r h sid c =
        let (complete, same) = run_sorted-answers h in
        of_stage (Present outputs) ordered
          (All-map (λ w found. subst (λ l. Present l w.stage.id) same found.3) ordered
            (run_ordered_stages-Produced runtime ctx ordered created injected world
              (IsOrder-InOrder stages ordered o r) complete))
          sid (o.same_ids sid ∙ c)

  opened :
      (missing : List String) (r : Result SubsetRunError (Inputs Row × Progress Row Usage World))
      (answer : Inputs Row × Progress Row Usage World)
      → (if not (is_empty missing) then err (names_no_stage missing) else r) ≡ ok answer
      → (missing ≡ []) × (r ≡ ok answer)
  opened [] r answer h = (refl, h)
  opened (m ∷ ms) r answer h = cc

  not_sorted :
      (e : SortError) (injected : Inputs Row) (world : World)
      (answer : Inputs Row × Progress Row Usage World)
      → run_sorted runtime ctx injected world (err e) ≡ ok answer
      → ⊥
  unfolding run_sorted
  not_sorted e injected world answer h = cc

  -- Of resolved stages, a subset run that answers outputs has one for every stage that it names.
  pub execute_subset_complete :
      (workflow_stages : List WorkflowStage) (injected : Inputs Row) (named : List String)
      (world : World) (outputs : Inputs Row) (p : Progress Row Usage World)
      → All IsResolved workflow_stages
      → execute_subset runtime ctx workflow_stages injected named world ≡ ok (outputs, p)
      → (sid : String) → contains named sid ≡ true
      → is_none (lookup sid outputs) ≡ false
  unfolding execute_subset
  execute_subset_complete workflow_stages injected named world outputs p r h sid c =
      let by_id = index run_graph workflow_stages in
      let (none_missing, answered) = opened _ _ (outputs, p) h in
      let resolved : All (λ p. IsResolved p.1) by_id =
        dict_from-All (λ i w. IsResolved w) [] _ tt (All-pairs IsResolved workflow_stages r) in
      let own : All (λ p. p.1.stage.id ≡ p.0) by_id =
        dict_from-All (λ i w. w.stage.id ≡ i) [] _ tt (own_keys run_graph workflow_stages) in
      let picked = pick by_id named in
      elim (topological_sort_cases run_graph picked) [
        | inl (ordered, e, o) ↦
            run_sorted-Present injected world picked ordered outputs p o
              (All-map
                (λ w last.
                  lookup_last-All IsResolved w.stage.id _ w
                    (All-pairs IsResolved picked (All-pick IsResolved by_id named resolved)) last)
                ordered o.last_of_id)
              (ap (run_sorted runtime ctx injected world) (sym e) ∙ answered) sid
              (contains-pick by_id named sid own none_missing c)
        | inr (trail, e, cycle) ↦ absurd (
            not_sorted _ injected world (outputs, p)
              (ap (run_sorted runtime ctx injected world) (sym e) ∙ answered))
      ]
