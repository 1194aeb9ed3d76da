-- ===== src/Executor/Topological/Visited.antt =====
-- What one call of `visit` does: it finds a cycle, or it puts the stage behind its inputs.
use mathlib.Core.List.{append_assoc}
use carbonpaper.Prelude.{
  ◌≡◌, sym, subst, String, Bool, true, false, some, List, [], ◌∷◌, ◌++◌, string_eq, contains, keys,
  lookup, lookup-none-contains, is_unique, All, Result, ok, err, ◌>>=◌, Option-cases, inl, inr,
}
use carbonpaper.Workflow.Graph.{StageInGraph, ids, inputs_at}
use carbonpaper.Workflow.Order.Placed.{Placed}
use carbonpaper.Workflow.Cycle.Kept.{Walk, IsCycle, Walk-concat}
use carbonpaper.Executor.Topological.{SortError, cycle_detected, too_deep, Sort, visit_inputs}

module _ {S : Type 0} (graph : StageInGraph S) (by_id : List (String × S))
    (edges : List (String × List String)) where
  abbrev pub nodes : List String
  nodes = keys by_id

  -- What the search has done so far is in order.
  pub record Good (t : Sort S) : Type 0 where
    pub seen : t.visited ≡ ids graph t.order
    pub placed : Placed graph nodes [] t.order
    pub unique : is_unique t.visited ≡ true
    pub held : All (λ s. lookup (graph.id s) by_id ≡ some s) t.order

  pub record Grown (t : Sort S) (path : List String) (u : Sort S) : Type 0 where
    pub good : Good u
    pub more : (n : String) → contains t.visited n ≡ true → contains u.visited n ≡ true
    pub waits :
        (n : String)
        → contains path n ≡ true
        → contains t.visited n ≡ false
        → contains u.visited n ≡ false

  abbrev pub Outcome : (Sort S → Type 0) → Sort S → List String → Result SortError (Sort S) → Type 0
  Outcome Done t path (ok u) = Grown t path u × Done u
  Outcome Done t path (err (cycle_detected trail)) = IsCycle edges nodes trail
  Outcome Done t path (err too_deep) = ⊥

  pub Grown-refl : (t : Sort S) (path : List String) → Good t → Grown t path t
  Grown-refl t path h = record { good = h; more = λ n e. e; waits = λ n p e. e }

  Grown-trans :
      (t u v : Sort S) (path : List String) → Grown t path u → Grown u path v → Grown t path v
  Grown-trans t u v path g h = record {
    good = h.good;
    more = λ n e. h.more n (g.more n e);
    waits = λ n p e. h.waits n p (g.waits n p e);
  }

  -- A step, and then the next from where it ended.
  pub Outcome->>= :
      (Done Done' : Sort S → Type 0) (t : Sort S) (path : List String)
      (r : Result SortError (Sort S)) (next : Sort S → Result SortError (Sort S))
      → Outcome Done t path r
      → ((u : Sort S) → Grown t path u → Done u → Outcome Done' u path (next u))
      → Outcome Done' t path (r >>= next)
  Outcome->>= Done Done' t path (ok u) next o f = prepend (next u) (f u o.0 o.1)
    where
      prepend : (r : Result SortError (Sort S)) → Outcome Done' u path r → Outcome Done' t path r
      prepend (ok v) k = (Grown-trans t u v path o.0 k.0, k.1)
      prepend (err (cycle_detected trail)) k = k
      prepend (err too_deep) k = k
  Outcome->>= Done Done' t path (err (cycle_detected trail)) next o f = o
  Outcome->>= Done Done' t path (err too_deep) next o f = o

  abbrev pub Covered : List String → Sort S → Type 0
  Covered is u = All (λ i. contains nodes i ≡ true → contains u.visited i ≡ true) is

  pub Outcome-map :
      (Done Done' : Sort S → Type 0) (t : Sort S) (path : List String)
      (r : Result SortError (Sort S))
      → ((u : Sort S) → Grown t path u → Done u → Done' u)
      → Outcome Done t path r
      → Outcome Done' t path r
  Outcome-map Done Done' t path (ok u) f o = (o.0, f u o.0 o.1)
  Outcome-map Done Done' t path (err (cycle_detected trail)) f o = o
  Outcome-map Done Done' t path (err too_deep) f o = o

  -- A stage of the index, with its edges.
  abbrev pub IsEntry : S → Type 0
  IsEntry s =
      (contains nodes (graph.id s) ≡ true)
      × (lookup (graph.id s) by_id ≡ some s)
      × All (λ i. contains (inputs_at edges (graph.id s)) i ≡ true) (graph.input_ids s)

  module _ (entry : (i : String) (s : S) → lookup i by_id ≡ some s → (graph.id s ≡ i) × IsEntry s)
      (path : List String) (node : String) (walk : Walk edges nodes (path ++ node ∷ []))
      (go : S → Sort S → Result SortError (Sort S))
      (visits : (s : S) (t : Sort S)
        → Good t
        → IsEntry s
        → Walk edges nodes ((path ++ node ∷ []) ++ graph.id s ∷ [])
        → Outcome
            (λ u. contains u.visited (graph.id s) ≡ true)
            t
            (path ++ node ∷ [])
            (go s t)) where
    pub visit_inputs-Outcome :
        (is : List String) (t : Sort S)
        → All (λ i. contains (inputs_at edges node) i ≡ true) is
        → Good t
        → Outcome (Covered is) t (path ++ node ∷ []) (visit_inputs graph go by_id is t)
    unfolding visit_inputs
    visit_inputs-Outcome [] t h g = (Grown-refl t _ g, tt)
    visit_inputs-Outcome (i ∷ is) t h g = elim (Option-cases (lookup i by_id)) [
      | inl e ↦
          rw (visit_inputs, e)
            (Outcome-map _ _ t (path ++ node ∷ []) _
              (λ u grown covered. (λ c. absurd (apart c (lookup-none-contains i by_id e)), covered))
              (visit_inputs-Outcome is t h.1 g))
      | inr (s, e) ↦
          rw (visit_inputs, e)
            (let same = (entry i s e).0 in
              let onward : Walk edges nodes ((path ++ node ∷ []) ++ graph.id s ∷ []) =
                subst (Walk edges nodes) (sym (append_assoc path (node ∷ []) (graph.id s ∷ [])))
                  (Walk-concat edges nodes path node (graph.id s) walk (rw same h.0)) in
              Outcome->>= _ _ t (path ++ node ∷ []) (go s t) _ (visits s t g (entry i s e).1 onward)
                (λ u grown here.
                  Outcome-map _ _ u (path ++ node ∷ []) _
                    (λ v later covered. (
                      λ c. later.more i (subst (λ k. contains u.visited k ≡ true) same here),
                      covered,
                    ))
                    (visit_inputs-Outcome is u h.1 grown.good)))
    ]
      where
        apart : {b : Bool} → b ≡ true → b ≡ false → ⊥
        apart h k = cc
