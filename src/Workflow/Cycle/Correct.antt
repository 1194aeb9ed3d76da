-- ===== src/Workflow/Cycle/Correct.antt =====
-- What `detect_cycle` answers: a real cycle, or none where the stages can be ordered.
use carbonpaper.Prelude.{
  ℕ, zero, suc, ◌≤◌, ◌≡◌, refl, sym, subst, ◌≢◌, ◌⊎◌, inl, inr, String, true, Option, some, none,
  List, [], ◌∷◌, arith, string_eq, contains, length, length-filter-le, All, keys,
}
use carbonpaper.Workflow.Graph.{StageInGraph, edges_of}
use carbonpaper.Workflow.Cycle.{
  Color, white, gray, black, Search, visit, visit_all, unvisited, detect_cycle,
}
use carbonpaper.Workflow.Cycle.Whites.{count_mono}
use carbonpaper.Workflow.Cycle.Kept.{
  is_white, whites, Ranked, IsCycle, Inv, Kept, Reported, Visited, Ready, Kept-refl, Kept-trans,
  is_white_mono,
}
use carbonpaper.Workflow.Cycle.Visit.{visit-Visited}

module _ (fuel : ℕ) (edges : List (String × List String)) (nodes : List String) where
  visit_stops :
      (k : ℕ) (n : String) (path : List String) (s : Search) (trail : List String)
      → s.found ≡ trail ∷ []
      → visit k edges n path s ≡ s
  unfolding visit
  visit_stops zero n path s trail h = refl
  visit_stops (suc k) n path s trail h = ground arith

  visit_all_stops :
      (rest : List String) (s : Search) (trail : List String)
      → s.found ≡ trail ∷ []
      → visit_all fuel edges rest s ≡ s
  unfolding visit_all
  visit_all_stops [] s trail h = refl
  visit_all_stops (n ∷ rest) s trail h =
      ground (arith, visit_stops fuel n [] s trail h, visit_all_stops rest s trail h)

  -- The state in front of a turn of the last loop.
  record Between (s : Search) (done : List String) : Type 0 where
    inv : Inv edges nodes s done
    no_gray : (n : String) → s.color n ≢ some gray
    bounded : whites nodes s ≤ fuel

  abbrev AllVisited : Search → List String → List String → Search → Type 0
  AllVisited s done rest t =
      Reported edges nodes t
      ⊎ ((done' : List String) × Kept edges nodes s t done done'
          × All (λ n. contains nodes n ≡ true → contains done' n ≡ true) rest)

  Between-Kept :
      (s t : Search) (d e : List String) → Between s d → Kept edges nodes s t d e → Between t e
  Between-Kept s t d e h k = record {
    inv = k.inv;
    no_gray = λ n m. h.no_gray n ((k.grays_stay n).0 m);
    bounded = omega (
      arith,
      count_mono (is_white s) (is_white t) (is_white_mono edges nodes s t k.whites_fall) nodes,
      h.bounded,
    );
  }

  one_visited :
      (n : String) (rest : List String) (s t : Search) (d e : List String) (u : Search)
      → Kept edges nodes s t d e
      → (contains nodes n ≡ true → contains e n ≡ true)
      → AllVisited t e rest u
      → AllVisited s d (n ∷ rest) u
  one_visited n rest s t d e u k new (inl h) = inl h
  one_visited n rest s t d e u k new (inr (f, l, c)) =
      inr (f, Kept-trans edges nodes s t u d e f k l, (λ h. l.grows n (new h), c))

  visit_one :
      (n : String) (rest : List String) (s : Search) (done : List String)
      → Between s done
      → ((t : Search) (e : List String)
          → Between t e
          → AllVisited t e rest (visit_all fuel edges rest t))
      → (c : Option Color) → s.color n ≡ c
      → AllVisited s done (n ∷ rest) (visit_all fuel edges (n ∷ rest) s)
  unfolding visit_all
  visit_one n rest s done h rec (some white) e =
      let same : visit_all fuel edges (n ∷ rest) s
          ≡ visit_all fuel edges rest (visit fuel edges n [] s) =
        ground arith in
      subst (AllVisited s done (n ∷ rest)) (sym same)
        (after (visit-Visited edges nodes fuel s done n [] ready))
    where
      ready : Ready edges nodes fuel s done n []
      ready = record {
        inv = h.inv;
        is_white_node = e;
        grays = λ m g. absurd (h.no_gray m g);
        walk = tt;
        bounded = h.bounded;
      }

      after :
          Visited edges nodes s done n (visit fuel edges n [] s)
          → AllVisited s done (n ∷ rest) (visit_all fuel edges rest (visit fuel edges n [] s))
      after (inl (trail, f, cyc)) =
          inl (subst (Reported edges nodes) (sym (visit_all_stops rest _ trail f)) (trail, f, cyc))
      after (inr (d, k, new)) =
          one_visited n rest s _ done d _ k (λ _. new) (rec _ d (Between-Kept s _ done d h k))
  visit_one n rest s done h rec (some black) e =
      let same : visit_all fuel edges (n ∷ rest) s ≡ visit_all fuel edges rest s = ground arith in
      subst (AllVisited s done (n ∷ rest)) (sym same) (
        one_visited n rest s s done done _ (Kept-refl edges nodes s done h.inv)
          (λ _. (h.inv.black_iff n).0 e) (rec s done h))
  visit_one n rest s done h rec (some gray) e = absurd (h.no_gray n e)
  visit_one n rest s done h rec none e =
      let same : visit_all fuel edges (n ∷ rest) s ≡ visit_all fuel edges rest s = ground arith in
      subst (AllVisited s done (n ∷ rest)) (sym same) (
        one_visited n rest s s done done _ (Kept-refl edges nodes s done h.inv)
          (λ known. absurd (h.inv.keyed n known e)) (rec s done h))

  visit_all-AllVisited :
      (rest : List String) (s : Search) (done : List String)
      → Between s done
      → AllVisited s done rest (visit_all fuel edges rest s)
  unfolding visit_all
  visit_all-AllVisited [] s done h = inr (done, Kept-refl edges nodes s done h.inv, tt)
  visit_all-AllVisited (n ∷ rest) s done h =
      visit_one n rest s done h (visit_all-AllVisited rest) (s.color n) refl

Between-unvisited :
    (edges : List (String × List String)) (nodes : List String)
    → Between (length nodes) edges nodes (unvisited nodes) []
Between-unvisited edges nodes = record {
  inv = record {
    black_iff = λ n. ground arith;
    ranked = tt;
    keyed = λ n h e. ground arith;
    known = λ n e. ground arith;
    quiet = refl;
  };
  no_gray = λ n e. ground arith;
  bounded = length-filter-le (is_white (unvisited nodes)) nodes;
}

module _ {S : Type 0} (graph : StageInGraph S) (stages : List S) where
  abbrev edges : List (String × List String)
  edges = edges_of graph stages

  -- An answer is one cycle, a walk along the stages' inputs that comes back to a stage on it; no
  -- answer comes with an order of the ids in which each stage stands behind its inputs.
  pub detect_cycle_cases :
      ((trail : List String) × (detect_cycle graph stages ≡ trail ∷ [])
        × IsCycle edges (keys edges) trail)
      ⊎ ((order : List String) × (detect_cycle graph stages ≡ [])
          × Ranked edges (keys edges) order
          × All (λ n. contains (keys edges) n ≡ true → contains order n ≡ true) (keys edges))
  unfolding detect_cycle
  detect_cycle_cases =
      elim (visit_all-AllVisited (length (keys edges)) edges (keys edges) (keys edges)
        (unvisited (keys edges)) [] (Between-unvisited edges (keys edges))) [
          | inl h ↦ inl h
          | inr (order, k, c) ↦ inr (order, k.inv.quiet, k.inv.ranked, c)
        ]
