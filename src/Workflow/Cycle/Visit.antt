-- ===== src/Workflow/Cycle/Visit.antt =====
-- What one call of `visit` does: it finds a cycle, or finishes the node with all below it.
use carbonpaper.Prelude.{
  ℕ, zero, suc, ◌≤◌, ◌<◌, ◌≡◌, refl, sym, subst, ◌⊎◌, inl, inr, String, Bool, true, false, Option,
  some, none, List, [], ◌∷◌, ◌++◌, arith, string_eq, contains, contains-append, if◌then◌else◌,
  eq_iff, All, beq_self,
}
use mathlib.Core.List.{append_assoc}
use carbonpaper.Workflow.Graph.{inputs_at}
use carbonpaper.Workflow.Cycle.{Color, white, gray, black, Search, paint, scan, visit}
use carbonpaper.Workflow.Cycle.Whites.{count-lt, count_mono}
use carbonpaper.Workflow.Cycle.Kept.{
  is_white, whites, Walk, Inv, Kept, Reported, Visited, Ready, Walk-concat, Kept-refl, Kept-trans,
  is_white_mono,
}

module _ (edges : List (String × List String)) (nodes : List String) where
  scan_stops :
      (go : String → List String → Search → Search) (node : String) (path rest : List String)
      (s : Search) (trail : List String)
      → s.found ≡ trail ∷ []
      → (scan go node path rest s).0 ≡ s
  unfolding scan
  scan_stops go node path [] s trail h = refl
  scan_stops go node path (m ∷ rest) s trail h = ground arith

  module _ (go : String → List String → Search → Search) (bound : ℕ) (node : String)
      (path : List String)
      (visits : (s : Search) (done : List String) (n : String)
        → Ready edges nodes bound s done n (path ++ node ∷ [])
        → Visited edges nodes s done n (go n (path ++ node ∷ []) s)) where
    -- The state in front of the loop's next turn.
    record Turn (s : Search) (done : List String) : Type 0 where
      inv : Inv edges nodes s done
      grays : (n : String) → s.color n ≡ some gray → contains (path ++ node ∷ []) n ≡ true
      walk : Walk edges nodes (path ++ node ∷ [])
      bounded : whites nodes s ≤ bound

    abbrev Covered : List String → List String → Type 0
    Covered rest done' = All (λ m. contains nodes m ≡ true → contains done' m ≡ true) rest

    abbrev Scanned : Search → List String → List String → Search × Bool → Type 0
    Scanned s done rest out =
        Reported edges nodes out.0
        ⊎ ((done' : List String) × Kept edges nodes s out.0 done done'
            × Covered rest done'
            × (out.1 ≡ false))

    Turn-Kept : (s t : Search) (d e : List String) → Turn s d → Kept edges nodes s t d e → Turn t e
    Turn-Kept s t d e h k = record {
      inv = k.inv;
      grays = λ n m. h.grays n ((k.grays_stay n).0 m);
      walk = h.walk;
      bounded = omega (
        arith,
        count_mono (is_white s) (is_white t) (is_white_mono edges nodes s t k.whites_fall) nodes,
        h.bounded,
      );
    }

    Scanned-Kept :
        (s t : Search) (d e : List String) (m : String) (rest : List String) (out : Search × Bool)
        → Kept edges nodes s t d e
        → (contains nodes m ≡ true → contains e m ≡ true)
        → Scanned t e rest out
        → Scanned s d (m ∷ rest) out
    Scanned-Kept s t d e m rest out k new (inl r) = inl r
    Scanned-Kept s t d e m rest out k new (inr (f, l, c, q)) =
        inr (f, Kept-trans edges nodes s t out.0 d e f k l, (λ h. l.grows m (new h), c), q)

    module _ (m : String) (edge : contains (inputs_at edges node) m ≡ true) where
      Reported-closing :
          (s : Search) (done : List String)
          → Turn s done
          → s.color m ≡ some gray
          → Reported edges nodes (record s { found = s.found ++ (path ++ node ∷ m ∷ []) ∷ [] })
      Reported-closing s done h e = (
        path ++ node ∷ m ∷ [],
        rw h.inv.quiet refl,
        record {
          path = path ++ node ∷ [];
          last = m;
          ends = sym (append_assoc path (node ∷ []) (m ∷ []));
          walk = Walk-concat edges nodes path node m h.walk edge;
          again = h.grays m e;
        },
      )

      Ready-next :
          (s : Search) (done : List String)
          → Turn s done
          → s.color m ≡ some white
          → Ready edges nodes bound s done m (path ++ node ∷ [])
      Ready-next s done h e = record {
        inv = h.inv;
        is_white_node = e;
        grays = h.grays;
        walk =
            subst (Walk edges nodes) (sym (append_assoc path (node ∷ []) (m ∷ [])))
              (Walk-concat edges nodes path node m h.walk edge);
        bounded = h.bounded;
      }

    scan-Turn :
        (m : String) (rest : List String) (s : Search) (done : List String)
        → contains (inputs_at edges node) m ≡ true
        → Turn s done
        → ((t : Search) (e : List String) → Turn t e → Scanned t e rest (scan go node path rest t))
        → (c : Option Color) → s.color m ≡ c
        → Scanned s done (m ∷ rest) (scan go node path (m ∷ rest) s)
    unfolding scan
    scan-Turn m rest s done edge h rec none e =
        let quiet = h.inv.quiet in
        let same : scan go node path (m ∷ rest) s ≡ scan go node path rest s = ground arith in
        subst (Scanned s done (m ∷ rest)) (sym same) (
          Scanned-Kept s s done done m rest _ (Kept-refl edges nodes s done h.inv)
            (λ known. absurd (h.inv.keyed m known e)) (rec s done h))
    scan-Turn m rest s done edge h rec (some black) e =
        let quiet = h.inv.quiet in
        let same : scan go node path (m ∷ rest) s ≡ scan go node path rest s = ground arith in
        subst (Scanned s done (m ∷ rest)) (sym same) (
          Scanned-Kept s s done done m rest _ (Kept-refl edges nodes s done h.inv)
            (λ known. (h.inv.black_iff m).0 e) (rec s done h))
    scan-Turn m rest s done edge h rec (some gray) e =
        let quiet = h.inv.quiet in
        let closed = record s { found = s.found ++ (path ++ node ∷ m ∷ []) ∷ [] } in
        let same : scan go node path (m ∷ rest) s ≡ (closed, true) = ground arith in
        subst (Scanned s done (m ∷ rest)) (sym same) (inl (Reported-closing m edge s done h e))
    scan-Turn m rest s done edge h rec (some white) e =
        let quiet = h.inv.quiet in
        let t = go m (path ++ node ∷ []) s in
        let same : scan go node path (m ∷ rest) s ≡ scan go node path rest t = ground arith in
        subst (Scanned s done (m ∷ rest)) (sym same)
          (after (visits s done m (Ready-next m edge s done h e)))
      where
        after :
            Visited edges nodes s done m (go m (path ++ node ∷ []) s)
            → Scanned s done (m ∷ rest) (scan go node path rest (go m (path ++ node ∷ []) s))
        after (inl (trail, f, cyc)) = inl (
            subst (Reported edges nodes) (sym (scan_stops go node path rest _ trail f))
              (trail, f, cyc))
        after (inr (d, k, new)) =
            Scanned-Kept s _ done d m rest _ k (λ _. new) (rec _ d (Turn-Kept s _ done d h k))

    scan-Scanned :
        (rest : List String)
        → All (λ m. contains (inputs_at edges node) m ≡ true) rest
        → (s : Search) (done : List String) → Turn s done
        → Scanned s done rest (scan go node path rest s)
    unfolding scan
    scan-Scanned [] inside s done h = inr (done, Kept-refl edges nodes s done h.inv, tt, refl)
    scan-Scanned (m ∷ rest) inside s done h =
        scan-Turn m rest s done inside.0 h (scan-Scanned rest inside.1) (s.color m) refl

  All-contained : (pre rest : List String) → All (λ m. contains (pre ++ rest) m ≡ true) rest
  All-contained pre [] = tt
  All-contained pre (m ∷ rest) = (
    ground (arith, contains-append pre (m ∷ rest) m, beq_self m),
    subst (λ l. All (λ k. contains l k ≡ true) rest) (append_assoc pre (m ∷ []) rest)
        (All-contained (pre ++ m ∷ []) rest),
  )

  is_white-paint :
      (node : String) (s : Search) (n : String)
      → is_white (paint node gray s) n ≡ true
      → is_white s n ≡ true
  is_white-paint node s n h = ground arith

  whites-paint :
      (bound : ℕ) (s : Search) (done : List String) (node : String) (path : List String)
      → Ready edges nodes bound s done node path
      → whites nodes (paint node gray s) < whites nodes s
  whites-paint bound s done node path r =
      let white_node = r.is_white_node in
      count-lt (is_white s) (is_white (paint node gray s)) (is_white-paint node s) node nodes
        (ground arith) (ground (arith, beq_self node)) (r.inv.known node r.is_white_node)

  Turn-paint :
      (fuel : ℕ) (s : Search) (done : List String) (node : String) (path : List String)
      → Ready edges nodes (suc fuel) s done node path
      → (visits : (t : Search) (d : List String) (n : String)
          → Ready edges nodes fuel t d n (path ++ node ∷ [])
          → Visited edges nodes t d n (visit fuel edges n (path ++ node ∷ []) t))
      → Turn (visit fuel edges) fuel node path visits (paint node gray s) done
  Turn-paint fuel s done node path r visits =
      let white_node = r.is_white_node in
      record {
        inv = record {
          black_iff = λ n. ground (arith, eq_iff n node, r.inv.black_iff n);
          ranked = r.inv.ranked;
          keyed = λ n h e. ground (arith, eq_iff n node, r.inv.keyed n);
          known = λ n e. ground (arith, eq_iff n node, r.inv.known n);
          quiet = r.inv.quiet;
        };
        grays = λ n e. ground (arith, eq_iff n node, r.grays n, contains-append path (node ∷ []) n);
        walk = r.walk;
        bounded = omega (arith, whites-paint (suc fuel) s done node path r, r.bounded);
      }

  Kept-finished :
      (s t : Search) (done done' : List String) (node : String)
      → s.color node ≡ some white
      → Kept edges nodes (paint node gray s) t done done'
      → All (λ m. contains nodes m ≡ true → contains done' m ≡ true) (inputs_at edges node)
      → Kept edges nodes s (paint node black t) done (node ∷ done')
  Kept-finished s t done done' node white_node k covered = record {
    inv = record {
      black_iff = λ n. ground (arith, eq_iff n node, k.inv.black_iff n);
      ranked = (covered, k.inv.ranked);
      keyed = λ n h e. ground (arith, eq_iff n node, k.inv.keyed n);
      known = λ n e. ground (arith, eq_iff n node, k.inv.known n);
      quiet = k.inv.quiet;
    };
    grows = λ n e. ground (arith, k.grows n);
    whites_fall = λ n e. ground (arith, eq_iff n node, k.whites_fall n);
    grays_stay = λ n. ground (arith, eq_iff n node, k.grays_stay n);
  }

  pub visit-Visited :
      (fuel : ℕ) (s : Search) (done : List String) (node : String) (path : List String)
      → Ready edges nodes fuel s done node path
      → Visited edges nodes s done node (visit fuel edges node path s)
  unfolding visit
  visit-Visited zero s done node path r =
      let white_node = r.is_white_node in
      absurd (omega (arith, whites-paint zero s done node path r, r.bounded))
  visit-Visited (suc fuel) s done node path r =
      let quiet = r.inv.quiet in
      let out = scan (visit fuel edges) node path (inputs_at edges node) (paint node gray s) in
      let same : visit (suc fuel) edges node path s
          ≡ (if out.1 then out.0 else paint node black out.0) =
        ground arith in
      subst (Visited edges nodes s done node) (sym same) (
        finish out (
          scan-Scanned (visit fuel edges) fuel node path
            (λ t d n. visit-Visited fuel t d n (path ++ node ∷ [])) (inputs_at edges node)
            (All-contained [] (inputs_at edges node)) (paint node gray s) done
            (Turn-paint fuel s done node path r
              (λ t d n. visit-Visited fuel t d n (path ++ node ∷ [])))))
    where
      finish :
          (out : Search × Bool)
          → Reported edges nodes out.0
            ⊎ ((done' : List String) × Kept edges nodes (paint node gray s) out.0 done done'
                × All
                    (λ m. contains nodes m ≡ true → contains done' m ≡ true)
                    (inputs_at edges node)
                × (out.1 ≡ false))
          → Visited edges nodes s done node (if out.1 then out.0 else paint node black out.0)
      finish (t, true) (inl h) = inl h
      finish (t, false) (inl h) = inl h
      finish (t, true) (inr (d, k, c, q)) = cc
      finish (t, false) (inr (d, k, c, q)) = inr (
        node ∷ d,
        Kept-finished s t done d node r.is_white_node k c,
        ground (arith, beq_self node),
      )
