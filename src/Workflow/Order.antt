-- ===== src/Workflow/Order.antt =====
-- app/models/workflow.py: `sort_stages_by_dependency`.
mod Rounds
pub mod Placed
pub mod Perm
pub mod Kept
pub mod Total
use mathlib.Core.Logic.{dite, ◌≢◌}
use mathlib.Core.List.{cons≢nil}
use carbonpaper.Prelude.{
  ℕ, zero, suc, ◌+◌, ◌≤◌, ◌≡◌, refl, String, Bool, true, not, List, [], ◌∷◌, ◌++◌, arith, string_eq,
  beq_self, contains, any, filter, length, if◌then◌else◌, Result, ok, err, All, All-map,
}
use carbonpaper.Workflow.Graph.{StageInGraph, ids}
use carbonpaper.Workflow.Raised.{Raised, cyclic_stages}

abbrev pub dec_nil {ℓ} : {A : Type ℓ} (xs : List A) → Dec (xs ≡ [])
dec_nil [] = yes refl
dec_nil (x ∷ xs) = no cons≢nil

module _ {S : Type 0} (graph : StageInGraph S) where
  -- `not waiting & set(s.input_ids)`
  abbrev pub is_ready : List String → S → Bool
  is_ready waiting s = not (any (contains waiting) (graph.input_ids s))

  abbrev pub ready : List S → List S
  ready pending = filter (is_ready (ids graph pending)) pending

  abbrev pub remaining : List S → List S
  remaining pending =
      let ready_ids = ids graph (ready pending) in
      filter (λ s. not (contains ready_ids (graph.id s))) pending

  kept_in_filter :
      (p : S → Bool) (xs : List S)
      → All (λ s. p s ≡ true → contains (ids graph (filter p xs)) (graph.id s) ≡ true) xs
  kept_in_filter p [] = tt
  kept_in_filter p (x ∷ xs) = (
    λ e. ground (arith, beq_self (graph.id x)),
    All-map (λ s f e. ground (arith, f e)) xs (kept_in_filter p xs),
  )

  length-filter-add :
      (p : S → Bool) (known : List String) (xs : List S)
      → All (λ s. p s ≡ true → contains known (graph.id s) ≡ true) xs
      → length (filter (λ s. not (contains known (graph.id s))) xs) + length (filter p xs)
        ≤ length xs
  length-filter-add p known [] h = omega arith
  length-filter-add p known (x ∷ xs) h = ground (arith, length-filter-add p known xs h.1, h.0)

  pub length-remaining-le :
      {bound : ℕ} (pending : List S)
      → length pending ≤ suc bound
      → ready pending ≢ []
      → length (remaining pending) ≤ bound
  length-remaining-le pending h some_ready =
      let p = is_ready (ids graph pending) in
      ground
        (arith, length-filter-add p (ids graph (ready pending)) pending (kept_in_filter p pending))

  -- The `while` loop, which recurs on a proved bound for the number of pending stages.
  pub rounds :
      (bound : ℕ) (ordered pending : List S) → length pending ≤ bound → Result Raised (List S)
  rounds bound ordered [] h = ok ordered
  rounds zero ordered (s ∷ ss) h = absurd (omega arith)
  rounds (suc bound) ordered (s ∷ ss) h =
      let pending = s ∷ ss in
      dite (dec_nil (ready pending)) (λ _. err (cyclic_stages (ids graph pending)))
        λ some_ready.
          rounds bound (ordered ++ ready pending) (remaining pending)
            (length-remaining-le pending h some_ready)

  unfoldable pub sort_stages_by_dependency : List S → Result Raised (List S)
  unfolding rounds
  sort_stages_by_dependency stages = rounds (length stages) [] stages (omega arith)
