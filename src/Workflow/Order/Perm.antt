-- ===== src/Workflow/Order/Perm.antt =====
-- Where ids differ, `sort_stages_by_dependency` loses no stage and repeats none.
use mathlib.Core.List.{append_assoc, append-nil}
use mathlib.Core.List.Perm
use carbonpaper.Prelude.{
  ◌≡◌, refl, subst, String, Bool, true, false, not, List, [], ◌∷◌, ◌++◌, arith, eq_iff, Perm,
  filter-append-not-perm, filter-congr, string_eq, ◌==◌, beq_self, contains, is_unique, filter,
  Result, ok, err, All,
}
use carbonpaper.Workflow.Graph.{StageInGraph, ids}
use carbonpaper.Workflow.Raised.{Raised}
use carbonpaper.Workflow.Order.{is_ready, ready, remaining, sort_stages_by_dependency}
use carbonpaper.Workflow.Order.Rounds.{rounds_rule}

module _ {S : Type 0} (graph : StageInGraph S) where
  not_contained :
      (n : String) (xs : List S)
      → contains (ids graph xs) n ≡ false
      → All (λ s. (graph.id s == n) ≡ false) xs
  not_contained n [] h = tt
  not_contained n (x ∷ xs) h = (
    ground (arith, eq_iff (graph.id x) n, eq_iff n (graph.id x)),
    not_contained n xs (ground arith),
  )

  module _ (p : S → Bool) where
    pub absent-filter :
        (n : String) (xs : List S)
        → contains (ids graph xs) n ≡ false
        → contains (ids graph (filter p xs)) n ≡ false
    absent-filter n [] h = refl
    absent-filter n (x ∷ xs) h = ground (arith, absent-filter n xs)

    pub unique-filter :
        (xs : List S) → is_unique (ids graph xs) ≡ true → is_unique (ids graph (filter p xs)) ≡ true
    unique-filter [] h = refl
    unique-filter (x ∷ xs) h = ground (arith, unique-filter xs, absent-filter (graph.id x) xs)

    contains-filter :
        (xs : List S)
        → is_unique (ids graph xs) ≡ true
        → All (λ s. not (contains (ids graph (filter p xs)) (graph.id s)) ≡ not (p s)) xs
    contains-filter [] h = tt
    contains-filter (x ∷ xs) h = (
      ground (arith, absent-filter (graph.id x) xs, beq_self (graph.id x)),
      both xs (not_contained (graph.id x) xs (ground arith)) (contains-filter xs (ground arith)),
    )
      where
        both :
            (ys : List S)
            → All (λ s. (graph.id s == graph.id x) ≡ false) ys
            → All (λ s. not (contains (ids graph (filter p xs)) (graph.id s)) ≡ not (p s)) ys
            → All (λ s. not (contains (ids graph (filter p (x ∷ xs))) (graph.id s)) ≡ not (p s)) ys
        both [] h k = tt
        both (y ∷ ys) h k = (ground (arith, h.0, k.0), both ys h.1 k.1)

  -- The stages that stay are those that are not ready.
  pub remaining-eq :
      (pending : List S)
      → is_unique (ids graph pending) ≡ true
      → remaining graph pending ≡ filter (λ s. not (is_ready graph (ids graph pending) s)) pending
  remaining-eq pending h =
      filter-congr _ _ pending (contains-filter (is_ready graph (ids graph pending)) pending h)

  record Moved (stages ordered pending : List S) : Type 0 where
    same : Perm (ordered ++ pending) stages
    unique : is_unique (ids graph pending) ≡ true

  round-Moved :
      (stages ordered pending : List S)
      → Moved stages ordered pending
      → Moved stages (ordered ++ ready graph pending) (remaining graph pending)
  round-Moved stages ordered pending h = record {
    same =
        rw (append_assoc, remaining-eq pending h.unique)
          (Perm.trans (Perm.append_left ordered (filter-append-not-perm _ pending)) h.same);
    unique = unique-filter _ pending h.unique;
  }

  -- The order holds the given stages, each as often as it was given, where their ids differ.
  pub sort-perm :
      (stages ordered : List S)
      → is_unique (ids graph stages) ≡ true
      → sort_stages_by_dependency graph stages ≡ ok ordered
      → Perm ordered stages
  unfolding sort_stages_by_dependency
  sort-perm stages ordered u h = subst OnOk h (
      rounds_rule graph (Moved stages) OnOk
        (λ out p. subst (λ l. Perm l stages) (append-nil out) p.same) (λ _ _ _ _ _. tt)
        (round-Moved stages) _ [] stages _ (record { same = Perm.rfl; unique = u }))
    where
      OnOk : Result Raised (List S) → Type 0
      OnOk (ok out) = Perm out stages
      OnOk (err _) = Unit
