-- ===== src/Executor/Topological/Visit.antt =====
-- What a call of `visit` does, which recurs no deeper than there are stages.
use carbonpaper.Prelude.{
  ℕ, zero, suc, ◌<◌, ◌≡◌, refl, sym, subst, ap, ◌∙◌, String, true, false, not, some, List, [], ◌∷◌,
  ◌++◌, arith, string_eq, contains, contains-append, beq_self, eq_iff, lookup, length, filter,
  is_unique, All, All-append, Result, ok, err, ◌>>=◌, Bool-cases, inl, inr,
}
use carbonpaper.Workflow.Graph.{StageInGraph}
use carbonpaper.Workflow.Order.Placed.{Placed-append, ids-append}
use carbonpaper.Workflow.Cycle.Kept.{Walk}
use carbonpaper.Workflow.Cycle.Whites.{count-lt}
use carbonpaper.Executor.Topological.{SortError, cycle_detected, too_deep, Sort, visit}
use carbonpaper.Executor.Topological.Visited.{
  Good, Grown, Outcome, Covered, IsEntry, Grown-refl, visit_inputs-Outcome, nodes,
}

is_unique-snoc :
    (xs : List String) (x : String)
    → is_unique xs ≡ true
    → contains xs x ≡ false
    → is_unique (xs ++ x ∷ []) ≡ true
is_unique-snoc [] x u h = refl
is_unique-snoc (y ∷ xs) x u h =
    ground (arith, is_unique-snoc xs x, contains-append xs (x ∷ []) y, eq_iff x y, eq_iff y x)

module _ {S : Type 0} (graph : StageInGraph S) (by_id : List (String × S))
    (edges : List (String × List String)) where
  abbrev finished : S → Sort S → Sort S
  finished s u = record { visited = u.visited ++ graph.id s ∷ []; order = u.order ++ s ∷ [] }

  abbrev pub Visits : S → Sort S → Type 0
  Visits s u = contains u.visited (graph.id s) ≡ true

  module _ (path : List String) (s : S) (off : contains path (graph.id s) ≡ false)
      (held : lookup (graph.id s) by_id ≡ some s) (t : Sort S)
      (new : contains t.visited (graph.id s) ≡ false) where
    on_path : contains (path ++ graph.id s ∷ []) (graph.id s) ≡ true
    on_path =
        ground (arith, contains-append path (graph.id s ∷ []) (graph.id s), beq_self (graph.id s))

    finished-Grown :
        (u : Sort S)
        → Grown graph by_id edges t (path ++ graph.id s ∷ []) u
        → Covered graph by_id edges (graph.input_ids s) u
        → Grown graph by_id edges t path (finished s u)
    finished-Grown u g c = record {
      good = record {
        seen = ap (λ l. l ++ graph.id s ∷ []) g.good.seen ∙ sym (ids-append graph u.order (s ∷ []));
        placed = Placed-append graph _ [] u.order (s ∷ []) g.good.placed (
          subst
              (λ l.
                All (λ i. contains (nodes graph by_id edges) i ≡ true → contains l i ≡ true)
                  (graph.input_ids s))
              g.good.seen c,
          tt,
        );
        unique =
            is_unique-snoc u.visited (graph.id s) g.good.unique (g.waits (graph.id s) on_path new);
        held = All-append _ u.order (s ∷ []) g.good.held (held, tt);
      };
      more = λ n e. ground (arith, contains-append u.visited (graph.id s ∷ []) n, g.more n e);
      waits = λ n p e. ground (
        arith,
        contains-append u.visited (graph.id s ∷ []) n,
        contains-append path (graph.id s ∷ []) n,
        g.waits n,
        eq_iff n (graph.id s),
      );
    }

    finish :
        (r : Result SortError (Sort S))
        → Outcome graph by_id edges
            (Covered graph by_id edges (graph.input_ids s))
            t
            (path ++ graph.id s ∷ [])
            r
        → Outcome graph by_id edges (Visits s) t path (r >>= λ u. ok (finished s u))
    finish (ok u) o = (
      finished-Grown u o.0 o.1,
      ground
          (arith, contains-append u.visited (graph.id s ∷ []) (graph.id s), beq_self (graph.id s)),
    )
    finish (err (cycle_detected trail)) o = o
    finish (err too_deep) o = o

  -- The stages of the index that are not on the path: the depth left to the search.
  abbrev pub off_path : List String → ℕ
  off_path path = length (filter (λ n. not (contains path n)) (nodes graph by_id edges))

  module _
      (entry : (i : String) (s : S)
        → lookup i by_id ≡ some s
        → (graph.id s ≡ i) × IsEntry graph by_id edges s) where
    pub visit-Outcome :
        (fuel : ℕ) (path : List String) (s : S) (t : Sort S)
        → Good graph by_id edges t
        → IsEntry graph by_id edges s
        → Walk edges (nodes graph by_id edges) (path ++ graph.id s ∷ [])
        → off_path path < fuel
        → Outcome graph by_id edges (Visits s) t path (visit graph fuel by_id path s t)
    unfolding visit
    visit-Outcome zero path s t g e w f = absurd (omega (arith, f))
    visit-Outcome (suc fuel) path s t g e w f =
        elim (Bool-cases (contains t.visited (graph.id s))) [
          | inl v ↦ rw v (Grown-refl graph by_id edges t path g, v)
          | inr v ↦ (elim (Bool-cases (contains path (graph.id s))) [
            | inl p ↦
                rw v (
                  rw p
                    (record { path = path; last = graph.id s; ends = refl; walk = w; again = p }))
            | inr p ↦ rw v (
                rw p (
                  finish path s p e.1 t v _ (
                    visit_inputs-Outcome graph by_id edges entry path (graph.id s) w
                      (visit graph fuel by_id (path ++ graph.id s ∷ []))
                      (λ s' t' g' e' w'.
                        visit-Outcome fuel (path ++ graph.id s ∷ []) s' t' g' e' w' (less p))
                      (graph.input_ids s) t e.2 g)))
          ])
        ]
      where
        less : contains path (graph.id s) ≡ false → off_path (path ++ graph.id s ∷ []) < fuel
        less p = omega (
          arith,
          count-lt (λ n. not (contains path n)) (λ n. not (contains (path ++ graph.id s ∷ []) n))
              (λ n h. ground (arith, h, contains-append path (graph.id s ∷ []) n)) (graph.id s)
              (nodes graph by_id edges) (ground arith)
              (ground
                (arith, contains-append path (graph.id s ∷ []) (graph.id s), beq_self (graph.id s)))
              e.0,
          f,
        )
