-- ===== src/Executor/Topological/Index.antt =====
-- The index of the stages and their edges, and what an order of them has to be.
use carbonpaper.Prelude.{
  ◌≡◌, refl, sym, subst, ap, ◌∙◌, String, true, Option, some, none, List, [], ◌∷◌, map, arith,
  beq_self, string_eq, contains, keys, dict_from-All, lookup-All, contains-keys-dict_of,
  lookup-some-contains, lookup_last, lookup-dict_of, lookup, is_unique, All, All-map,
}
use carbonpaper.Workflow.Graph.{StageInGraph, ids, inputs_at, edges_of, edge_pairs}
use carbonpaper.Workflow.Order.Placed.{Placed}
use carbonpaper.Executor.Topological.{index}
use carbonpaper.Executor.Topological.Visited.{IsEntry}

module _ {S : Type 0} (graph : StageInGraph S) where
  -- What an order of the stages has to be.
  pub record IsOrder (stages ordered : List S) : Type 0 where
    pub placed : Placed graph (ids graph stages) [] ordered
    pub once : is_unique (ids graph ordered) ≡ true
    pub same_ids : (i : String) → contains (ids graph ordered) i ≡ contains (ids graph stages) i
    pub last_of_id :
        All (λ s. lookup_last (graph.id s) (map (λ s. (graph.id s, s)) stages) ≡ some s) ordered

  keys-pairs : (stages : List S) → keys (map (λ s. (graph.id s, s)) stages) ≡ ids graph stages
  keys-pairs [] = refl
  keys-pairs (s ∷ stages) = ap (λ l. graph.id s ∷ l) (keys-pairs stages)

  pub contains-keys-index :
      (stages : List S) (i : String)
      → contains (keys (index graph stages)) i ≡ contains (ids graph stages) i
  contains-keys-index stages i =
      contains-keys-dict_of i (map (λ s. (graph.id s, s)) stages)
      ∙ ap (λ l. contains l i) (keys-pairs stages)

  pub own_keys :
      (stages : List S)
      → All (λ (p : String × S). graph.id p.1 ≡ p.0) (map (λ s. (graph.id s, s)) stages)
  own_keys [] = tt
  own_keys (s ∷ stages) = (refl, own_keys stages)

  -- The edges hold the inputs of the stage that the index holds.
  lookup_last-edges :
      (stages : List S) (i : String)
      → lookup_last i (edge_pairs graph stages)
        ≡ (elim (lookup_last i (map (λ s. (graph.id s, s)) stages)) [
          | some s ↦ some (graph.input_ids s)
          | none ↦ none
        ])
  lookup_last-edges [] i = refl
  lookup_last-edges (s ∷ stages) i = ground (arith, lookup_last-edges stages i)

  abbrev or_empty : Option (List String) → List String
  or_empty (some is) = is
  or_empty none = []

  abbrev inputs_of : Option S → Option (List String)
  inputs_of (some s) = some (graph.input_ids s)
  inputs_of none = none

  contains_own : (is : List String) → All (λ i. contains is i ≡ true) is
  contains_own [] = tt
  contains_own (i ∷ is) =
      (ground (arith, beq_self i), All-map (λ j e. ground (arith, e)) is (contains_own is))

  pub index-IsEntry :
      (stages : List S) (i : String) (s : S)
      → lookup i (index graph stages) ≡ some s
      → (graph.id s ≡ i) × IsEntry graph (index graph stages) (edges_of graph stages) s
  unfolding edges_of
  index-IsEntry stages i s e =
      let pairs = map (λ s. (graph.id s, s)) stages in
      let same =
        lookup-All (λ i s. graph.id s ≡ i) i (index graph stages) s
          (dict_from-All (λ i s. graph.id s ≡ i) [] pairs tt (own_keys stages)) e in
      (
        same,
        (
          rw same (lookup-some-contains i (index graph stages) s e),
          rw same e,
          subst (λ l. All (λ j. contains l j ≡ true) (graph.input_ids s)) (sym (edges s same e))
              (contains_own (graph.input_ids s)),
        ),
      )
    where
      edges :
          (s : S)
          → graph.id s ≡ i
          → lookup i (index graph stages) ≡ some s
          → inputs_at (edges_of graph stages) (graph.id s) ≡ graph.input_ids s
      edges s same e =
          let pairs = map (λ s. (graph.id s, s)) stages in
          let last : lookup_last i pairs ≡ some s = sym (lookup-dict_of i pairs) ∙ e in
          ap (inputs_at (edges_of graph stages)) same
          ∙ ap or_empty (
              lookup-dict_of i (edge_pairs graph stages)
              ∙ lookup_last-edges stages i
              ∙ ap inputs_of last)
