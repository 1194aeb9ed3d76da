-- ===== src/Executor/Subset/Picked.antt =====
-- The stages that a subset run picks, and their order.
use carbonpaper.Prelude.{
  ◌≡◌, refl, sym, ◌∙◌, subst, inl, inr, String, Bool, true, false, not, some, none, List, [], ◌∷◌,
  ◌++◌, map, filter, All, All-map, contains, contains-append, keys, lookup, lookup-All, string_eq,
  eq_iff, ◌==◌, is_unique, arith, Bool-cases, Option-cases, lookup-some-contains,
  lookup-none-contains, lookup_last,
}
use carbonpaper.Workflow.Graph.{ids}
use carbonpaper.Workflow.Order.Placed.{Placed}
use carbonpaper.Workflow.Resolve.{WorkflowStage}
use carbonpaper.Executor.Topological.Index.{IsOrder}
use carbonpaper.Executor.Loop.Turn.{refs}
use carbonpaper.Executor.Loop.Between.{stage_ids, InOrder}
use carbonpaper.Executor.Subset.{run_graph, pick}

-- The inputs of a resolved stage are those that the stage names.
abbrev pub IsResolved : WorkflowStage → Type 0
IsResolved ws = refs ws ≡ ws.stage.inputs

Placed-InOrder :
    (known before : List String) (rest : List WorkflowStage)
    → Placed run_graph known before rest
    → ((i : String) → contains (stage_ids rest) i ≡ true → contains known i ≡ true)
    → ((i : String) → contains (stage_ids rest) i ≡ true → contains before i ≡ false)
    → is_unique (stage_ids rest) ≡ true
    → All IsResolved rest
    → InOrder rest
Placed-InOrder known before [] h k a u r = tt
Placed-InOrder known before (ws ∷ rest) h k a u r = (
  subst (λ l. All (λ i. contains (stage_ids (ws ∷ rest)) i ≡ false) l) (sym r.0)
      (All-map not_behind ws.stage.inputs h.0),
  (
    ground arith,
    Placed-InOrder known (before ++ ws.stage.id ∷ []) rest h.1 (λ i e. k i (ground (arith, e)))
        (λ i e.
          ground
            (arith, a i, e, contains-append before (ws.stage.id ∷ []) i, eq_iff i ws.stage.id, u))
        (ground arith) r.1,
  ),
)
  where
    not_behind :
        (i : String)
        → (contains known i ≡ true → contains before i ≡ true)
        → contains (stage_ids (ws ∷ rest)) i ≡ false
    not_behind i f = elim (Bool-cases (contains (stage_ids (ws ∷ rest)) i)) [
      | inl e ↦ absurd (clash (f (k i e)) (a i e))
      | inr e ↦ e
    ]
      where
        clash : {b : Bool} → b ≡ true → b ≡ false → ⊥
        clash x y = cc

-- An order of resolved stages is one that the loop can take.
pub IsOrder-InOrder :
    (stages ordered : List WorkflowStage)
    → IsOrder run_graph stages ordered
    → All IsResolved ordered
    → InOrder ordered
IsOrder-InOrder stages ordered o r =
    Placed-InOrder (ids run_graph stages) [] ordered o.placed (λ i e. sym (o.same_ids i) ∙ e)
      (λ i e. refl) o.once r

pub contains-pick :
    (by_id : List (String × WorkflowStage)) (sids : List String) (sid : String)
    → All (λ p. p.1.stage.id ≡ p.0) by_id
    → filter (λ s. not (contains (keys by_id) s)) sids ≡ []
    → contains sids sid ≡ true
    → contains (stage_ids (pick by_id sids)) sid ≡ true
contains-pick by_id [] sid own h c = cc
contains-pick by_id (s ∷ sids) sid own h c = elim (Option-cases (lookup s by_id)) [
  | inl e ↦ absurd (missing e h)
  | inr (ws, e) ↦ rw e (
      let same = lookup-All (λ i w. w.stage.id ≡ i) s by_id ws own e in
      let rest = contains-pick by_id sids sid own (more ws e h) in ground (arith, same, c, rest))
]
  where
    missing :
        lookup s by_id ≡ none → filter (λ s. not (contains (keys by_id) s)) (s ∷ sids) ≡ [] → ⊥
    missing e h = ground (arith, lookup-none-contains s by_id e)

    more :
        (ws : WorkflowStage)
        → lookup s by_id ≡ some ws
        → filter (λ s. not (contains (keys by_id) s)) (s ∷ sids) ≡ []
        → filter (λ s. not (contains (keys by_id) s)) sids ≡ []
    more ws e h = ground (arith, lookup-some-contains s by_id ws e)

pub of_stage :
    (P : String → Type 0) (stages : List WorkflowStage)
    → All (λ w. P w.stage.id) stages
    → (sid : String) → contains (stage_ids stages) sid ≡ true
    → P sid
of_stage P [] h sid c = cc
of_stage P (w ∷ stages) h sid c = elim (Bool-cases (sid == w.stage.id)) [
  | inl e ↦ subst P (sym ((eq_iff sid w.stage.id).0 e)) h.0
  | inr e ↦ of_stage P stages h.1 sid (ground arith)
]

module _ (P : WorkflowStage → Type 0) where
  pub All-pairs :
      (stages : List WorkflowStage)
      → All P stages
      → All (λ (p : String × WorkflowStage). P p.1) (map (λ w. (w.stage.id, w)) stages)
  All-pairs [] h = tt
  All-pairs (w ∷ stages) h = (h.0, All-pairs stages h.1)

  pub All-pick :
      (by_id : List (String × WorkflowStage)) (sids : List String)
      → All (λ p. P p.1) by_id
      → All P (pick by_id sids)
  All-pick by_id [] h = tt
  All-pick by_id (s ∷ sids) h = elim (Option-cases (lookup s by_id)) [
    | inl e ↦ rw e (All-pick by_id sids h)
    | inr (w, e) ↦ rw e (lookup-All (λ i w. P w) s by_id w h e, All-pick by_id sids h)
  ]

  pub lookup_last-All :
      (k : String) (pairs : List (String × WorkflowStage)) (w : WorkflowStage)
      → All (λ p. P p.1) pairs
      → lookup_last k pairs ≡ some w
      → P w
  lookup_last-All k [] w h e = cc
  lookup_last-All k ((j, v) ∷ pairs) w h e = elim (Option-cases (lookup_last k pairs)) [
    | inl f ↦ subst P (first f) h.0
    | inr (u, f) ↦ lookup_last-All k pairs w h.1 (later u f)
  ]
    where
      first : lookup_last k pairs ≡ none → v ≡ w
      first f = ground arith

      later : (u : WorkflowStage) → lookup_last k pairs ≡ some u → lookup_last k pairs ≡ some w
      later u f = ground arith
