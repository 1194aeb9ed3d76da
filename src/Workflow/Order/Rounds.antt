-- ===== src/Workflow/Order/Rounds.antt =====
-- A proof rule for the loop of `sort_stages_by_dependency`: what each round keeps, and what it
-- shows at the two ways out.
use mathlib.Core.Logic.{dite, ◌≢◌}
use mathlib.Core.List.{cons≢nil}
use carbonpaper.Prelude.{
  ℕ, zero, suc, ◌≤◌, ◌≡◌, List, [], ◌∷◌, ◌++◌, arith, length, Result, ok, err,
}
use carbonpaper.Workflow.Graph.{StageInGraph, ids}
use carbonpaper.Workflow.Raised.{Raised, cyclic_stages}
use carbonpaper.Workflow.Order.{dec_nil, ready, remaining, rounds, length-remaining-le}

module _ {S : Type 0} (graph : StageInGraph S) (P : List S → List S → Type 0)
    (Q : Result Raised (List S) → Type 0)
    (finish : (ordered : List S) → P ordered [] → Q (ok ordered))
    (stuck : (ordered pending : List S)
      → P ordered pending
      → ready graph pending ≡ []
      → pending ≢ []
      → Q (err (cyclic_stages (ids graph pending))))
    (round : (ordered pending : List S)
      → P ordered pending
      → P (ordered ++ ready graph pending) (remaining graph pending)) where
  pub rounds_rule :
      (bound : ℕ) (ordered pending : List S) (h : length pending ≤ bound)
      → P ordered pending
      → Q (rounds graph bound ordered pending h)
  unfolding rounds
  rounds_rule bound ordered [] h p = finish ordered p
  rounds_rule zero ordered (s ∷ ss) h p = absurd (omega arith)
  rounds_rule (suc bound) ordered (s ∷ ss) h p =
      elim (dec_nil (ready graph (s ∷ ss)))
        as (λ d. Q (
          dite d (λ _. err (cyclic_stages (ids graph (s ∷ ss))))
            (λ some_ready.
              rounds graph bound (ordered ++ ready graph (s ∷ ss)) (remaining graph (s ∷ ss))
                (length-remaining-le graph (s ∷ ss) h some_ready)))) [
                  | yes e ↦ stuck ordered (s ∷ ss) p e cons≢nil
                  | no n ↦ rounds_rule bound _ _ _ (round ordered (s ∷ ss) p)
                ]
