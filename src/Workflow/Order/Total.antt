-- ===== src/Workflow/Order/Total.antt =====
-- `sort_stages_by_dependency` succeeds wherever `detect_cycle` finds nothing.
use mathlib.Core.Logic.{◌≢◌}
use mathlib.Core.List.{cons≢nil}
use carbonpaper.Prelude.{
  ◌≡◌, refl, sym, ◌∙◌, inl, inr, String, true, false, List, [], ◌∷◌, arith, ap,
  contains-keys-dict_of, All-contains, some, string_eq, contains, any, filter, Result, ok, err, All,
  All-map, All-filter, Bool-cases, beq_self, is_unique, lookup_last_unique, lookup-dict_of, eq_iff,
  keys, lookup,
}
use carbonpaper.Workflow.Graph.{StageInGraph, ids, edges_of, edge_pairs, inputs_at}
use carbonpaper.Workflow.Raised.{Raised}
use carbonpaper.Workflow.Cycle.{detect_cycle}
use carbonpaper.Workflow.Cycle.Kept.{Ranked}
use carbonpaper.Workflow.Cycle.Correct.{detect_cycle_cases}
use carbonpaper.Workflow.Order.{is_ready, ready, sort_stages_by_dependency}
use carbonpaper.Workflow.Order.Rounds.{rounds_rule}

module _ {S : Type 0} (graph : StageInGraph S) where
  module _ (edges : List (String × List String)) (nodes : List String) where
    -- The dictionary of edges speaks of the stage itself, and the stage is a node.
    abbrev Known : S → Type 0
    Known s =
        (inputs_at edges (graph.id s) ≡ graph.input_ids s) × (contains nodes (graph.id s) ≡ true)

    none_waits :
        (waiting rest inputs : List String)
        → ((m : String) → contains waiting m ≡ true → contains nodes m ≡ true)
        → any (contains waiting) rest ≡ false
        → All (λ m. contains nodes m ≡ true → contains rest m ≡ true) inputs
        → any (contains waiting) inputs ≡ false
    none_waits waiting rest [] sub free h = refl
    none_waits waiting rest (m ∷ inputs) sub free h =
        ground (
          arith,
          none_waits waiting rest inputs sub free h.1,
          sub m,
          h.0,
          any-absent waiting m rest,
        )
      where
        any-absent :
            (waiting : List String) (m : String) (rest : List String)
            → any (contains waiting) rest ≡ false
            → contains rest m ≡ true
            → contains waiting m ≡ false
        any-absent w m [] f c = cc
        any-absent w m (r ∷ rs) f c = ground (arith, any-absent w m rs, eq_iff m r)

    -- Of the waiting nodes the first in the order waits for no other.
    first_waiting :
        (waiting order : List String)
        → ((m : String) → contains waiting m ≡ true → contains nodes m ≡ true)
        → Ranked edges nodes order
        → any (contains waiting) order ≡ true
        → (n : String) × (contains waiting n ≡ true)
          × (any (contains waiting) (inputs_at edges n) ≡ false)
    first_waiting waiting [] sub h found = cc
    first_waiting waiting (n ∷ rest) sub h found = elim (Bool-cases (any (contains waiting) rest)) [
      | inl e ↦ first_waiting waiting rest sub h.1 e
      | inr e ↦ (n, ground arith, none_waits waiting rest (inputs_at edges n) sub e h.0)
    ]

    -- The stage of such a node is ready.
    ready_of_node :
        (waiting : List String) (n : String) (pending : List S)
        → All Known pending
        → contains (ids graph pending) n ≡ true
        → any (contains waiting) (inputs_at edges n) ≡ false
        → filter (is_ready graph waiting) pending ≢ []
    ready_of_node waiting n [] k c free = cc
    ready_of_node waiting n (s ∷ pending) k c free =
        ground (arith, eq_iff n (graph.id s), k.0, ready_of_node waiting n pending k.1)

    every_node :
        (pending : List S) (m : String)
        → All Known pending
        → contains (ids graph pending) m ≡ true
        → contains nodes m ≡ true
    every_node [] m k c = cc
    every_node (s ∷ pending) m k c =
        ground (arith, every_node pending m k.1, k.0, eq_iff m (graph.id s))

    any-covered :
        (order waiting : List String) (n : String)
        → contains waiting n ≡ true
        → contains order n ≡ true
        → any (contains waiting) order ≡ true
    any-covered [] waiting n w c = cc
    any-covered (o ∷ order) waiting n w c =
        ground (arith, any-covered order waiting n w, eq_iff n o)

    not_stuck :
        (order : List String) (pending : List S)
        → Ranked edges nodes order
        → ((n : String) → contains nodes n ≡ true → contains order n ≡ true)
        → All Known pending
        → pending ≢ []
        → ready graph pending ≢ []
    not_stuck order [] ranked cover k more e = more refl
    not_stuck order (s ∷ ss) ranked cover k more e =
        let waiting = ids graph (s ∷ ss) in
        let here : contains waiting (graph.id s) ≡ true = ground (arith, beq_self (graph.id s)) in
        let (n, waits, free) =
          first_waiting waiting order (λ m c. every_node (s ∷ ss) m k c) ranked
            (any-covered order waiting (graph.id s) here (cover (graph.id s) k.0.1)) in
        ready_of_node waiting n (s ∷ ss) k waits free e

    record Pending (ordered pending : List S) : Type 0 where
      known : All Known pending

    sorts :
        (order : List String) (stages : List S)
        → Ranked edges nodes order
        → ((n : String) → contains nodes n ≡ true → contains order n ≡ true)
        → All Known stages
        → (ordered : List S) × (sort_stages_by_dependency graph stages ≡ ok ordered)
    unfolding sort_stages_by_dependency
    sorts order stages ranked cover k = is_ok _ (
        rounds_rule graph Pending IsOk (λ _ _. tt)
          (λ ordered pending p e more. not_stuck order pending ranked cover p.known more e)
          (λ ordered pending p. record { known = All-filter Known _ pending p.known }) _ [] stages _
          (record { known = k }))
      where
        IsOk : Result Raised (List S) → Type 0
        IsOk (ok _) = Unit
        IsOk (err _) = ⊥

        is_ok : (r : Result Raised (List S)) → IsOk r → (ordered : List S) × (r ≡ ok ordered)
        is_ok (ok out) h = (out, refl)
        is_ok (err _) h = absurd h

  keys-edge_pairs : (stages : List S) → keys (edge_pairs graph stages) ≡ ids graph stages
  keys-edge_pairs [] = refl
  keys-edge_pairs (s ∷ stages) = rw (keys-edge_pairs stages)

  module _ (edges : List (String × List String)) where
    inputs_at-All :
        (stages : List S)
        → All (λ p. lookup p.0 edges ≡ some p.1) (edge_pairs graph stages)
        → All (λ s. inputs_at edges (graph.id s) ≡ graph.input_ids s) stages
    inputs_at-All [] h = tt
    inputs_at-All (s ∷ stages) h = (rw (h.0, inputs_at) refl, inputs_at-All stages h.1)

    Known-All :
        (stages rest : List S)
        → ((n : String) → contains (ids graph stages) n ≡ true → contains (keys edges) n ≡ true)
        → All (λ s. inputs_at edges (graph.id s) ≡ graph.input_ids s) stages
        → All (Known edges (keys edges)) stages
    Known-All [] rest sub h = tt
    Known-All (s ∷ stages) rest sub h = (
      (h.0, sub (graph.id s) (ground (arith, beq_self (graph.id s)))),
      Known-All stages rest (λ n c. sub n (ground arith)) h.1,
    )

  -- Where ids differ, the dictionary of edges gives each stage its own inputs.
  inputs_at-edges_of :
      (stages : List S)
      → is_unique (ids graph stages) ≡ true
      → All (λ s. inputs_at (edges_of graph stages) (graph.id s) ≡ graph.input_ids s) stages
  unfolding edges_of
  inputs_at-edges_of stages u = inputs_at-All (edges_of graph stages) stages (
      All-map (λ p h. lookup-dict_of p.0 (edge_pairs graph stages) ∙ h) (edge_pairs graph stages)
        (lookup_last_unique (edge_pairs graph stages) (rw (keys-edge_pairs stages) u)))

  pub contains-edges_of :
      (stages : List S) (n : String)
      → contains (keys (edges_of graph stages)) n ≡ contains (ids graph stages) n
  unfolding edges_of
  contains-edges_of stages n =
      contains-keys-dict_of n (edge_pairs graph stages)
      ∙ ap (λ l. contains l n) (keys-edge_pairs stages)

  -- Stages with differing ids, among which `detect_cycle` finds no cycle, can be ordered.
  pub sort_total :
      (stages : List S)
      → is_unique (ids graph stages) ≡ true
      → detect_cycle graph stages ≡ []
      → (ordered : List S) × (sort_stages_by_dependency graph stages ≡ ok ordered)
  sort_total stages u quiet = elim (detect_cycle_cases graph stages) [
    | inl (trail, h, cyc) ↦ absurd (cons≢nil (sym h ∙ quiet))
    | inr (order, h, ranked, cover) ↦
        sorts (edges_of graph stages) (keys (edges_of graph stages)) order stages ranked
          (λ n c.
            All-contains
              (λ m. contains (keys (edges_of graph stages)) m ≡ true → contains order m ≡ true)
              (keys (edges_of graph stages)) n cover c c)
          (Known-All (edges_of graph stages) stages [] (λ n c. contains-edges_of stages n ∙ c)
            (inputs_at-edges_of stages u))
  ]
