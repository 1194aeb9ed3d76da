-- ===== src/Workflow/Cycle/Kept.antt =====
-- What the search keeps from call to call: its state with the nodes that are finished.
use carbonpaper.Prelude.{
  ℕ, ◌≤◌, ◌≡◌, ◌≢◌, ◌⊎◌, ◌↔◌, String, Bool, true, false, some, none, List, [], ◌∷◌, ◌++◌, arith,
  string_eq, contains, length, filter, All,
}
use carbonpaper.Workflow.Graph.{inputs_at}
use carbonpaper.Workflow.Cycle.{white, gray, black, Search}

abbrev pub is_white : Search → String → Bool
is_white s n = elim (s.color n) [ some white ↦ true | _ ↦ false ]

abbrev pub whites : List String → Search → ℕ
whites nodes s = length (filter (is_white s) nodes)

module _ (edges : List (String × List String)) (nodes : List String) where
  -- Each node stands behind the inputs of its own that are nodes; the newest is first.
  abbrev pub Ranked : List String → Type 0
  Ranked [] = Unit
  Ranked (n ∷ rest) =
      All (λ m. contains nodes m ≡ true → contains rest m ≡ true) (inputs_at edges n) × Ranked rest

  -- Consecutive nodes are joined by an edge from a stage to one of its inputs.
  abbrev pub Walk : List String → Type 0
  Walk [] = Unit
  Walk (a ∷ []) = Unit
  Walk (a ∷ b ∷ rest) = (contains (inputs_at edges a) b ≡ true) × Walk (b ∷ rest)

  -- A walk whose last node stands in it before.
  pub record IsCycle (trail : List String) : Type 0 where
    pub path : List String
    pub last : String
    pub ends : trail ≡ path ++ last ∷ []
    pub walk : Walk trail
    pub again : contains path last ≡ true

  -- The state between two calls, with the finished nodes.
  pub record Inv (s : Search) (done : List String) : Type 0 where
    pub black_iff : (n : String) → (s.color n ≡ some black) ↔ (contains done n ≡ true)
    pub ranked : Ranked done
    pub keyed : (n : String) → contains nodes n ≡ true → s.color n ≢ none
    pub known : (n : String) → s.color n ≡ some white → contains nodes n ≡ true
    pub quiet : s.found ≡ []

  pub record Kept (s s' : Search) (done done' : List String) : Type 0 where
    pub inv : Inv s' done'
    pub grows : (n : String) → contains done n ≡ true → contains done' n ≡ true
    pub whites_fall : (n : String) → s'.color n ≡ some white → s.color n ≡ some white
    pub grays_stay : (n : String) → (s'.color n ≡ some gray) ↔ (s.color n ≡ some gray)

  abbrev pub Reported : Search → Type 0
  Reported s = (trail : List String) × (s.found ≡ trail ∷ []) × IsCycle trail

  -- What a call on `node` promises.
  abbrev pub Visited : Search → List String → String → Search → Type 0
  Visited s done node s' =
      Reported s' ⊎ ((done' : List String) × Kept s s' done done' × (contains done' node ≡ true))

  -- What a call may assume: the gray nodes are those of the path.
  pub record Ready (bound : ℕ) (s : Search) (done : List String) (node : String)
      (path : List String) : Type 0 where
    pub inv : Inv s done
    pub is_white_node : s.color node ≡ some white
    pub grays : (n : String) → s.color n ≡ some gray → contains path n ≡ true
    pub walk : Walk (path ++ node ∷ [])
    pub bounded : whites nodes s ≤ bound

  pub Walk-concat :
      (path : List String) (a b : String)
      → Walk (path ++ a ∷ [])
      → contains (inputs_at edges a) b ≡ true
      → Walk (path ++ a ∷ b ∷ [])
  Walk-concat [] a b w e = (e, tt)
  Walk-concat (x ∷ []) a b w e = (w.0, (e, tt))
  Walk-concat (x ∷ y ∷ path) a b w e = (w.0, Walk-concat (y ∷ path) a b w.1 e)

  pub Kept-refl : (s : Search) (done : List String) → Inv s done → Kept s s done done
  Kept-refl s done h = record {
    inv = h;
    grows = λ n e. e;
    whites_fall = λ n e. e;
    grays_stay = λ n. (λ e. e, λ e. e);
  }

  pub Kept-trans :
      (s t u : Search) (d e f : List String) → Kept s t d e → Kept t u e f → Kept s u d f
  Kept-trans s t u d e f h k = record {
    inv = k.inv;
    grows = λ n m. k.grows n (h.grows n m);
    whites_fall = λ n m. h.whites_fall n (k.whites_fall n m);
    grays_stay = λ n. (
      λ m. (h.grays_stay n).0 ((k.grays_stay n).0 m),
      λ m. (k.grays_stay n).1 ((h.grays_stay n).1 m),
    );
  }

  pub is_white_mono :
      (s t : Search)
      → ((n : String) → t.color n ≡ some white → s.color n ≡ some white)
      → (n : String) → is_white t n ≡ true
      → is_white s n ≡ true
  is_white_mono s t h n e = ground (arith, h n)
