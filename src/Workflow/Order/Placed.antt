-- ===== src/Workflow/Order/Placed.antt =====
-- The order that `sort_stages_by_dependency` gives: each stage behind its inputs.
use mathlib.Core.List.{append_assoc, append-nil}
use carbonpaper.Prelude.{
  ◌≡◌, refl, sym, subst, String, true, false, not, ◌||◌, List, [], ◌∷◌, ◌++◌, arith, eq_iff,
  string_eq, contains, contains-append, any, filter, Result, ok, err, All, All-map, Bool-cases, inl,
  inr,
}
use carbonpaper.Workflow.Graph.{StageInGraph, ids}
use carbonpaper.Workflow.Raised.{Raised}
use carbonpaper.Workflow.Order.{is_ready, ready, remaining, sort_stages_by_dependency}
use carbonpaper.Workflow.Order.Rounds.{rounds_rule}

module _ {S : Type 0} (graph : StageInGraph S) where
  abbrev InputsIn : List String → List String → S → Type 0
  InputsIn known before s =
      All (λ i. contains known i ≡ true → contains before i ≡ true) (graph.input_ids s)

  -- Each stage stands behind those of its inputs that are among the known ids.
  abbrev pub Placed : List String → List String → List S → Type 0
  Placed known before [] = Unit
  Placed known before (s ∷ rest) =
      All (λ i. contains known i ≡ true → contains before i ≡ true) (graph.input_ids s)
      × Placed known (before ++ graph.id s ∷ []) rest

  pub ids-append : (xs ys : List S) → ids graph (xs ++ ys) ≡ ids graph xs ++ ids graph ys
  ids-append [] ys = refl
  ids-append (x ∷ xs) ys = rw (ids-append xs ys)

  InputsIn-mono :
      (known before : List String) (x : String) (rest : List S)
      → All (InputsIn known before) rest
      → All (InputsIn known (before ++ x ∷ [])) rest
  InputsIn-mono known before x = All-map (λ s.
      All-map (λ i h e. ground (arith, h e, contains-append before (x ∷ []) i)) (graph.input_ids s))

  Placed-of_All :
      (known before : List String) (rest : List S)
      → All (InputsIn known before) rest
      → Placed known before rest
  Placed-of_All known before [] h = tt
  Placed-of_All known before (s ∷ rest) h = (
    h.0,
    Placed-of_All known (before ++ graph.id s ∷ []) rest
        (InputsIn-mono known before (graph.id s) rest h.1),
  )

  pub Placed-append :
      (known before : List String) (xs ys : List S)
      → Placed known before xs
      → Placed known (before ++ ids graph xs) ys
      → Placed known before (xs ++ ys)
  Placed-append known before [] ys h k = subst (λ l. Placed known l ys) (append-nil before) k
  Placed-append known before (x ∷ xs) ys h k = (
    h.0,
    Placed-append known (before ++ graph.id x ∷ []) xs ys h.1 (
        subst (λ l. Placed known l ys) (sym (append_assoc before (graph.id x ∷ []) (ids graph xs)))
          k),
  )

  module _ (known : List String) where
    -- What a round keeps: every known id is ordered or pending, and the order so far is good.
    record Sorted (ordered pending : List S) : Type 0 where
      split :
          (i : String)
          → contains known i ≡ true
          → (contains (ids graph ordered) i || contains (ids graph pending) i) ≡ true
      placed : Placed known [] ordered

    inputs_not_waiting :
        (waiting before inputs : List String)
        → ((i : String)
            → contains known i ≡ true
            → (contains before i || contains waiting i) ≡ true)
        → any (contains waiting) inputs ≡ false
        → All (λ i. contains known i ≡ true → contains before i ≡ true) inputs
    inputs_not_waiting waiting before [] split h = tt
    inputs_not_waiting waiting before (i ∷ inputs) split h = (
      λ e. ground (arith, split i e),
      inputs_not_waiting waiting before inputs split (ground arith),
    )

    ready-InputsIn :
        (waiting before : List String) (pending : List S)
        → ((i : String)
            → contains known i ≡ true
            → (contains before i || contains waiting i) ≡ true)
        → All (InputsIn known before) (filter (is_ready graph waiting) pending)
    ready-InputsIn waiting before [] split = tt
    ready-InputsIn waiting before (s ∷ pending) split =
        elim (Bool-cases (any (contains waiting) (graph.input_ids s))) [
          | inl e ↦ rw e (ready-InputsIn waiting before pending split)
          | inr e ↦ rw e (
            inputs_not_waiting waiting before (graph.input_ids s) split e,
            ready-InputsIn waiting before pending split,
          )
        ]

    contains-remaining :
        (taken : List String) (pending : List S) (i : String)
        → contains (ids graph pending) i ≡ true
        → (contains taken i
            || contains (ids graph (filter (λ s. not (contains taken (graph.id s))) pending)) i)
          ≡ true
    contains-remaining taken [] i h = cc
    contains-remaining taken (s ∷ pending) i h =
        ground (arith, contains-remaining taken pending i, eq_iff i (graph.id s))

    round-Sorted :
        (ordered pending : List S)
        → Sorted ordered pending
        → Sorted (ordered ++ ready graph pending) (remaining graph pending)
    round-Sorted ordered pending h = record {
      split = λ i e. ground (
        arith,
        h.split i e,
        ids-append ordered (ready graph pending),
        contains-append (ids graph ordered) (ids graph (ready graph pending)) i,
        contains-remaining (ids graph (ready graph pending)) pending i,
      );
      placed = Placed-append known [] ordered _ h.placed (
          Placed-of_All known (ids graph ordered) (ready graph pending)
            (ready-InputsIn (ids graph pending) (ids graph ordered) pending h.split));
    }

  -- In the order that `sort_stages_by_dependency` gives, each stage stands behind all of its
  -- inputs that are stages of the list.
  pub sort-Placed :
      (stages ordered : List S)
      → sort_stages_by_dependency graph stages ≡ ok ordered
      → Placed (ids graph stages) [] ordered
  unfolding sort_stages_by_dependency
  sort-Placed stages ordered h = subst OnOk h (
      rounds_rule graph (Sorted known) OnOk (λ _ p. p.placed) (λ _ _ _ _ _. tt) (round-Sorted known)
        _ [] stages _ (record { split = λ i e. e; placed = tt }))
    where
      known : List String
      known = ids graph stages

      OnOk : Result Raised (List S) → Type 0
      OnOk (ok out) = Placed (ids graph stages) [] out
      OnOk (err _) = Unit

  -- The id of each given stage stands in the order, where there is one, also if ids repeat.
  pub sort-contains :
      (stages ordered : List S)
      → sort_stages_by_dependency graph stages ≡ ok ordered
      → (i : String) → contains (ids graph stages) i ≡ true
      → contains (ids graph ordered) i ≡ true
  unfolding sort_stages_by_dependency
  sort-contains stages ordered h = subst OnOk h (
      rounds_rule graph (Sorted (ids graph stages)) OnOk (λ _ p i e. ground (arith, p.split i e))
        (λ _ _ _ _ _. tt) (round-Sorted (ids graph stages)) _ [] stages _
        (record { split = λ i e. e; placed = tt }))
    where
      OnOk : Result Raised (List S) → Type 0
      OnOk (ok out) =
          (i : String) → contains (ids graph stages) i ≡ true → contains (ids graph out) i ≡ true
      OnOk (err _) = Unit
