-- ===== src/Executor/Topological/Acyclic.antt =====
-- Where `detect_cycle` finds no cycle, `topological_sort` raises nothing.
use carbonpaper.Prelude.{
  ℕ, suc, ◌≤◌, ◌<◌, ◌≡◌, sym, subst, ap, ◌∙◌, inl, inr, String, true, none, List, [], ◌∷◌, ◌++◌,
  arith, string_eq, eq_iff, ◌==◌, contains, All-contains, length, keys, lookup,
  lookup-some-contains, ok, if◌then◌else◌, Bool-cases, Option-cases,
}
use mathlib.Core.List.{cons≢nil}
use carbonpaper.Workflow.Graph.{StageInGraph, edges_of, inputs_at}
use carbonpaper.Workflow.Cycle.{detect_cycle}
use carbonpaper.Workflow.Cycle.Kept.{Ranked, Walk, IsCycle}
use carbonpaper.Workflow.Cycle.Correct.{detect_cycle_cases}
use carbonpaper.Executor.Topological.{topological_sort}
use carbonpaper.Executor.Topological.Sorted.{topological_sort_cases}
use carbonpaper.Executor.Topological.Index.{IsOrder}

-- How many nodes stand behind the last occurrence of a node, and that itself.
abbrev depth : String → List String → ℕ
depth n [] = 0
depth n (m ∷ rest) =
    if contains rest n then depth n rest else if n == m then suc (length rest) else 0

depth-le : (n : String) (order : List String) → depth n order ≤ length order
depth-le n [] = omega arith
depth-le n (m ∷ rest) = ground (arith, depth-le n rest)

module _ (edges : List (String × List String)) where
  abbrev known : List String
  known = keys edges

  has_inputs : (n m : String) → contains (inputs_at edges n) m ≡ true → contains known n ≡ true
  has_inputs n m h = elim (Option-cases (lookup n edges)) [
    | inl e ↦ absurd (nothing e)
    | inr (is, e) ↦ lookup-some-contains n edges is e
  ]
    where
      nothing : lookup n edges ≡ none → ⊥
      nothing e = ground (arith, h, e)

  input_behind :
      (order : List String) (a b : String)
      → Ranked edges known order
      → contains order a ≡ true
      → contains (inputs_at edges a) b ≡ true
      → contains known b ≡ true
      → (contains order b ≡ true) × (depth b order < depth a order)
  input_behind [] a b r h i k = cc
  input_behind (m ∷ rest) a b r h i k = elim (Bool-cases (contains rest a)) [
    | inl e ↦
        let (f, g) = input_behind rest a b r.1 e i k in (ground (arith, f), ground (arith, e, f, g))
    | inr e ↦
        let same : a ≡ m = (eq_iff a m).0 (ground (arith, h, e)) in
        let f : contains rest b ≡ true =
          All-contains _ (inputs_at edges m) b r.0
            (subst (λ n. contains (inputs_at edges n) b ≡ true) same i) k in
        (ground (arith, f), ground (arith, e, f, depth-le b rest, (eq_iff a m).1 same))
  ]

  module _ (order : List String) (ranked : Ranked edges known order)
      (covers : (n : String) → contains known n ≡ true → contains order n ≡ true) where
    descends :
        (a last : String) (between : List String)
        → Walk edges known (a ∷ between ++ last ∷ [])
        → contains known last ≡ true
        → depth last order < depth a order
    descends a last [] w k =
        (input_behind order a last ranked (covers a (has_inputs a last w.0)) w.0 k).1
    descends a last (b ∷ []) w k =
        let step =
          (input_behind order a b ranked (covers a (has_inputs a b w.0)) w.0
            (has_inputs b last w.1.0)).1 in
        omega (arith, step, descends b last [] w.1 k)
    descends a last (b ∷ c ∷ between) w k =
        let step =
          (input_behind order a b ranked (covers a (has_inputs a b w.0)) w.0
            (has_inputs b c w.1.0)).1 in
        omega (arith, step, descends b last (c ∷ between) w.1 k)

    first_known :
        (a last : String) (between : List String)
        → Walk edges known (a ∷ between ++ last ∷ [])
        → contains known a ≡ true
    first_known a last [] w = has_inputs a last w.0
    first_known a last (b ∷ between) w = has_inputs a b w.0

    tail_Walk :
        (a last : String) (between : List String)
        → Walk edges known (a ∷ between ++ last ∷ [])
        → Walk edges known (between ++ last ∷ [])
    tail_Walk a last [] w = w.1
    tail_Walk a last (b ∷ between) w = w.1

    not_again :
        (path : List String) (last : String)
        → Walk edges known (path ++ last ∷ [])
        → contains path last ≡ true
        → ⊥
    not_again [] last w h = cc
    not_again (a ∷ path) last w h = elim (Bool-cases (last == a)) [
      | inl e ↦
          let same = (eq_iff last a).0 e in
          let down =
            descends a last path w
              (subst (λ n. contains known n ≡ true) (sym same) (first_known a last path w)) in
          omega (arith, down, ap (λ n. depth n order) same)
      | inr e ↦ not_again path last (tail_Walk a last path w) (ground (arith, h, e))
    ]

module _ {S : Type 0} (graph : StageInGraph S) where
  no_IsCycle :
      (stages : List S) (nodes trail : List String)
      → detect_cycle graph stages ≡ []
      → IsCycle (edges_of graph stages) nodes trail
      → ⊥
  no_IsCycle stages nodes trail quiet c = elim (detect_cycle_cases graph stages) [
    | inl (found, h, cyc) ↦ cons≢nil (sym h ∙ quiet)
    | inr (order, h, ranked, cover) ↦
        not_again (edges_of graph stages) order ranked
          (λ n k. All-contains _ (keys (edges_of graph stages)) n cover k k) c.path c.last
          (same_Walk (c.path ++ c.last ∷ [])
            (subst (Walk (edges_of graph stages) nodes) c.ends c.walk))
          c.again
  ]
    where
      same_Walk :
          (ns : List String)
          → Walk (edges_of graph stages) nodes ns
          → Walk (edges_of graph stages) (keys (edges_of graph stages)) ns
      same_Walk [] w = w
      same_Walk (a ∷ []) w = w
      same_Walk (a ∷ b ∷ rest) w = (w.0, same_Walk (b ∷ rest) w.1)

  -- Where the check for cycles finds none, the sort of the executor answers an order of the stages.
  pub topological_sort_total :
      (stages : List S)
      → detect_cycle graph stages ≡ []
      → (ordered : List S) × (topological_sort graph stages ≡ ok ordered)
        × IsOrder graph stages ordered
  topological_sort_total stages quiet = elim (topological_sort_cases graph stages) [
    | inl answer ↦ answer
    | inr (trail, h, c) ↦ absurd (no_IsCycle stages _ trail quiet c)
  ]
