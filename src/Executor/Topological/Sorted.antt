-- ===== src/Executor/Topological/Sorted.antt =====
-- What `topological_sort` answers.
use carbonpaper.Prelude.{
  ℕ, suc, ◌<◌, ◌≡◌, refl, sym, subst, ◌∙◌, ◌⊎◌, String, true, not, some, List, [], ◌∷◌, ◌++◌, map,
  arith, string_eq, contains, keys, lookup_unique, is_unique-keys-dict_of, lookup-some-contains,
  lookup-dict_of, lookup, length, length-filter-le, length-map, is_unique, All, All-map, Result, ok,
  err, ◌>>=◌, inl, inr, Bool-cases, eq_iff, ◌==◌, Bool,
}
use carbonpaper.Workflow.Graph.{StageInGraph, ids, edges_of}
use carbonpaper.Workflow.Order.Placed.{Placed}
use carbonpaper.Workflow.Cycle.Kept.{IsCycle}
use carbonpaper.Executor.Topological.{
  SortError, cycle_detected, too_deep, Sort, index, visit, visit_each, topological_sort,
}
use carbonpaper.Executor.Topological.Visited.{
  Good, Outcome, Outcome->>=, Outcome-map, IsEntry, Grown-refl,
}
use carbonpaper.Executor.Topological.Visit.{visit-Outcome}
use carbonpaper.Executor.Topological.Index.{IsOrder, contains-keys-index, index-IsEntry}

module _ {S : Type 0} (graph : StageInGraph S) (by_id : List (String × S))
    (edges : List (String × List String))
    (entry : (i : String) (s : S)
      → lookup i by_id ≡ some s
      → (graph.id s ≡ i) × IsEntry graph by_id edges s) where
  visit_each-Outcome :
      (fuel : ℕ) (rest : List (String × S)) (t : Sort S)
      → length by_id < fuel
      → All (λ p. lookup p.0 by_id ≡ some p.1) rest
      → Good graph by_id edges t
      → Outcome graph by_id edges
          (λ u. All (λ p. contains u.visited p.0 ≡ true) rest)
          t
          []
          (visit_each graph fuel by_id rest t)
  unfolding visit_each
  visit_each-Outcome fuel [] t f h g = (Grown-refl graph by_id edges t [] g, tt)
  visit_each-Outcome fuel ((i, s) ∷ rest) t f h g =
      let (same, e) = entry i s h.0 in
      Outcome->>= graph by_id edges _ _ t [] (visit graph fuel by_id [] s t) _
        (visit-Outcome graph by_id edges entry fuel [] s t g e tt (
          omega (
            arith,
            length-filter-le (λ n. not (contains [] n)) (keys by_id),
            length-map {0, 0} (λ (p : String × S). p.0) by_id,
            f,
          )))
        (λ u grown here.
          Outcome-map graph by_id edges _ _ u [] _
            (λ v later all.
              (later.more i (subst (λ k. contains u.visited k ≡ true) same here), all))
            (visit_each-Outcome fuel rest u f h.1 grown.good))

module _ {S : Type 0} (graph : StageInGraph S) where
  abbrev start : Sort S
  start = record { visited = []; order = [] }

  abbrev Sorted : List S → Sort S → Type 0
  Sorted stages u = All (λ p. contains u.visited p.0 ≡ true) (index graph stages)

  sorts :
      (stages : List S)
      → Outcome graph (index graph stages) (edges_of graph stages) (Sorted stages) start [] (
          visit_each graph
            (suc (length (index graph stages)))
            (index graph stages)
            (index graph stages)
            start)
  sorts stages =
      visit_each-Outcome graph (index graph stages) (edges_of graph stages)
        (index-IsEntry graph stages) _ (index graph stages) start (omega arith)
        (lookup_unique (index graph stages)
          (is_unique-keys-dict_of (map (λ s. (graph.id s, s)) stages)))
        (record { seen = refl; placed = tt; unique = refl; held = tt })

  of_keys :
      (P : String → Type 0) (m : List (String × S)) (i : String)
      → All (λ p. P p.0) m
      → contains (keys m) i ≡ true
      → P i
  of_keys P [] i h c = cc
  of_keys P ((k, s) ∷ m) i h c = elim (Bool-cases (i == k)) [
    | inl e ↦ subst P (sym ((eq_iff i k).0 e)) h.0
    | inr e ↦ of_keys P m i h.1 (ground arith)
  ]

  known_ids :
      (by_id : List (String × S)) (xs : List S) (i : String)
      → All (λ s. lookup (graph.id s) by_id ≡ some s) xs
      → contains (ids graph xs) i ≡ true
      → contains (keys by_id) i ≡ true
  known_ids by_id [] i h c = cc
  known_ids by_id (s ∷ xs) i h c = elim (Bool-cases (i == graph.id s)) [
    | inl e ↦ rw ((eq_iff i (graph.id s)).0 e) (lookup-some-contains (graph.id s) by_id s h.0)
    | inr e ↦ known_ids by_id xs i h.1 (ground arith)
  ]

  both_ways : (a b : Bool) → (a ≡ true → b ≡ true) → (b ≡ true → a ≡ true) → a ≡ b
  both_ways a b f g = ground arith

  Placed-known :
      (known known' before : List String) (rest : List S)
      → ((i : String) → contains known' i ≡ contains known i)
      → Placed graph known before rest
      → Placed graph known' before rest
  Placed-known known known' before [] e h = tt
  Placed-known known known' before (s ∷ rest) e h = (
    All-map (λ i f c. f (sym (e i) ∙ c)) (graph.input_ids s) h.0,
    Placed-known known known' (before ++ graph.id s ∷ []) rest e h.1,
  )

  -- The sort answers an order of the stages, or the path of a cycle of inputs among them; it never
  -- meets the bound on its depth.
  pub topological_sort_cases :
      (stages : List S)
      → ((ordered : List S) × (topological_sort graph stages ≡ ok ordered)
          × IsOrder graph stages ordered)
        ⊎ ((trail : List String) × (topological_sort graph stages ≡ err (cycle_detected trail))
            × IsCycle (edges_of graph stages) (keys (index graph stages)) trail)
  unfolding topological_sort
  topological_sort_cases stages = by_outcome _ (sorts stages)
    where
      is_order :
          (u : Sort S)
          → Good graph (index graph stages) (edges_of graph stages) u
          → Sorted stages u
          → IsOrder graph stages u.order
      is_order u g all = record {
        placed =
            Placed-known (keys (index graph stages)) (ids graph stages) [] u.order
              (λ i. sym (contains-keys-index graph stages i)) g.placed;
        once = subst (λ l. is_unique l ≡ true) g.seen g.unique;
        same_ids = λ i.
            both_ways (contains (ids graph u.order) i) (contains (ids graph stages) i)
              (λ c.
                sym (contains-keys-index graph stages i)
                ∙ known_ids (index graph stages) u.order i g.held c)
              (λ c.
                subst (λ l. contains l i ≡ true) g.seen
                  (of_keys (λ k. contains u.visited k ≡ true) (index graph stages) i all
                    (contains-keys-index graph stages i ∙ c)));
        last_of_id =
            All-map
              (λ s e. sym (lookup-dict_of (graph.id s) (map (λ s. (graph.id s, s)) stages)) ∙ e)
              u.order g.held;
      }

      by_outcome :
          (r : Result SortError (Sort S))
          → Outcome graph (index graph stages) (edges_of graph stages) (Sorted stages) start [] r
          → ((ordered : List S) × ((r >>= λ t. ok t.order) ≡ ok ordered)
              × IsOrder graph stages ordered)
            ⊎ ((trail : List String) × ((r >>= λ t. ok t.order) ≡ err (cycle_detected trail))
                × IsCycle (edges_of graph stages) (keys (index graph stages)) trail)
      by_outcome (ok u) o = inl (u.order, refl, is_order u o.0.good o.1)
      by_outcome (err (cycle_detected trail)) o = inr (trail, refl, o)
      by_outcome (err too_deep) o = absurd o
