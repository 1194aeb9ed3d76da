-- ===== src/Evals/Executed.antt =====
-- Which stages the frontier of an eval run holds.
use carbonpaper.Prelude.{
  ◌≡◌, ap, ◌∙◌, Bool, true, false, ◌||◌, some, none, String, List, contains, lookup, string_eq, ok,
  err, ◌↔◌,
}
use carbonpaper.Workflow.Reach.{Edges}
use carbonpaper.Evals.RunSettings.{Frontier}

-- The target, and each input that is not injected of a stage that is executed.
pub data IsExecuted (by_id : Edges) (injected : List String) (target : String)
    : String → Type 0 where
  root : {n : String} → n ≡ target → IsExecuted by_id injected target n
  read_by :
      {m n : String} {inputs : List String}
      → IsExecuted by_id injected target m
      → lookup m by_id ≡ some inputs
      → contains inputs n ≡ true
      → contains injected n ≡ false
      → IsExecuted by_id injected target n

-- What an answer of the loop promises.
unfoldable pub Answered : Edges → List String → String → Frontier → Type 0
Answered by_id injected target none = ⊥
Answered by_id injected target (some (ok frontier)) =
    (n : String) → (contains frontier n ≡ true) ↔ IsExecuted by_id injected target n
Answered by_id injected target (some (err e)) =
    (n : String) × IsExecuted by_id injected target n × (lookup n by_id ≡ none)

module _ (by_id : Edges) (injected : List String) (target : String)
    (free : contains injected target ≡ false) where
  not_injected : (n : String) → IsExecuted by_id injected target n → contains injected n ≡ false
  not_injected n (root e) = ap (contains injected) e ∙ free
  not_injected n (read_by u e c k) = k

  abbrev pub reached : List String → List String → String → Bool
  reached seen stack n = contains seen n || contains stack n

  -- What the loop keeps: what it has seen is executed; the target, and the inputs of what it has
  -- taken, are seen; and the frontier holds what it has taken.
  record Walking (stack seen frontier : List String) : Type 0 where
    sound : (n : String) → reached seen stack n ≡ true → IsExecuted by_id injected target n
    rooted : reached seen stack target ≡ true
    closed :
        (m n : String) (inputs : List String)
        → contains seen m ≡ true
        → lookup m by_id ≡ some inputs
        → contains inputs n ≡ true
        → contains injected n ≡ false
        → reached seen stack n ≡ true
    same : (n : String) → contains frontier n ≡ contains seen n
