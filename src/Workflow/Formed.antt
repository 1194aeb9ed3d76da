-- ===== src/Workflow/Formed.antt =====
-- What a workflow that formed promises to its reader.
use mathlib.Core.List.{map-map}
use carbonpaper.Prelude.{
  String, true, false, some, none, List, [], ◌∷◌, map, lookup_last, lookup-dict_of, contains,
  string_eq, eq_iff, Result, ok, err, >>=_of_ok, ok-injective, ◌≡◌, refl, sym, ◌∙◌, ap, arith, inl,
  inr, Option-cases,
}
use carbonpaper.Stage.{Stage}
use carbonpaper.Workflow.Checks.{GraphIssue, stage_graph}
use carbonpaper.Workflow.Graph.{ids}
use carbonpaper.Workflow.Raised.{Raised, key_error}
use carbonpaper.Workflow.Resolve.{StageHooks, WorkflowStage, graph_issues, resolve_workflow_stages}
use carbonpaper.Workflow.Resolved.{resolve_workflow_stages-ok}
use carbonpaper.Workflow.Form.{
  Workflow, form_workflow, form_or_refuse, found_or_missing, index_workflow_stages_by_id,
  list_workflow_stages, find_workflow_stage, stage_pairs,
}

lookup_last-stage_pairs :
    (ws : List WorkflowStage) (i : String) (s : WorkflowStage)
    → lookup_last i (stage_pairs ws) ≡ some s
    → s.stage.id ≡ i
lookup_last-stage_pairs [] i s h = cc
lookup_last-stage_pairs (w ∷ ws) i s h =
    ground (arith, lookup_last-stage_pairs ws i s, eq_iff i w.stage.id)

contains-lookup_last :
    (ws : List WorkflowStage) (i : String)
    → lookup_last i (stage_pairs ws) ≡ none
    → contains (map (λ w. w.stage.id) ws) i ≡ false
contains-lookup_last [] i h = refl
contains-lookup_last (w ∷ ws) i h = ground (arith, contains-lookup_last ws i)

absent-lookup_last :
    (ws : List WorkflowStage) (i : String)
    → contains (map (λ w. w.stage.id) ws) i ≡ false
    → lookup_last i (stage_pairs ws) ≡ none
absent-lookup_last [] i h = refl
absent-lookup_last (w ∷ ws) i h = ground (arith, absent-lookup_last ws i)

form_or_refuse-ok :
    {I : Type 0} (stages : List Stage) (r : Result Raised (List (GraphIssue I))) (w : Workflow)
    → form_or_refuse stages r ≡ ok w
    → (r ≡ ok []) × (w.stages ≡ stages)
form_or_refuse-ok stages (err e) w h = cc
form_or_refuse-ok stages (ok []) w h = (refl, sym (ap (λ v. v.stages) (ok-injective h)))
form_or_refuse-ok stages (ok (i ∷ is)) w h = cc

-- A workflow that formed finds under the id of each of its stages a resolved stage of that id, and
-- raises KeyError for any other id, and nothing else.
pub find_workflow_stage-formed :
    {I : Type 0} (hooks : StageHooks I) (stages : List Stage) (w : Workflow) (i : String)
    → form_workflow hooks stages ≡ ok w
    → (contains (ids stage_graph stages) i ≡ true
        → (s : WorkflowStage) × (find_workflow_stage w i ≡ ok s) × (s.stage.id ≡ i))
      × (contains (ids stage_graph stages) i ≡ false → find_workflow_stage w i ≡ err (key_error i))
unfolding form_workflow find_workflow_stage index_workflow_stages_by_id list_workflow_stages
find_workflow_stage-formed hooks stages w i h =
    let (clean, same) = form_or_refuse-ok stages (graph_issues hooks stages) w h in
    let (ws, resolved, in_order, _) = resolve_workflow_stages-ok hooks stages clean in
    let indexed : resolve_workflow_stages w.stages ≡ ok ws = rw same resolved in
    let answered : find_workflow_stage w i ≡ found_or_missing i (lookup_last i (stage_pairs ws)) =
      >>=_of_ok _ _ (>>=_of_ok _ _ indexed refl)
        (ap (found_or_missing i) (lookup-dict_of i (stage_pairs ws))) in
    let listed : contains (map (λ s. s.stage.id) ws) i ≡ contains (ids stage_graph stages) i =
      ap (λ l. contains l i) (sym (map-map _ _ ws) ∙ ap (map (λ s. s.id)) in_order) in
    (
      λ c. elim (Option-cases (lookup_last i (stage_pairs ws))) [
        | inl e ↦ absurd-of (sym (contains-lookup_last ws i e) ∙ listed ∙ c)
        | inr (s, e) ↦ (s, answered ∙ ap (found_or_missing i) e, lookup_last-stage_pairs ws i s e)
      ],
      λ c. answered ∙ ap (found_or_missing i) (absent-lookup_last ws i (listed ∙ c)),
    )
  where
    absurd-of :
        false ≡ true → (s : WorkflowStage) × (find_workflow_stage w i ≡ ok s) × (s.stage.id ≡ i)
    absurd-of e = cc
