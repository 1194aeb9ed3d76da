-- ===== src/Workflow/Reach/Enough.antt =====
-- The loops over a stack end within the rounds they are given.
use mathlib.Core.List.{reverse, reverse-append}
use carbonpaper.Prelude.{
  ℕ, zero, suc, ◌+◌, ◌≤◌, ◌<◌, ◌≡◌, refl, ap, ◌∙◌, String, Bool, true, false, Option, some, none,
  List, [], ◌∷◌, contains, contains-append, lookup, length, length-append, string_eq, eq_iff,
  Result, ok, arith,
}
use carbonpaper.Workflow.Raised.{Raised}
use carbonpaper.Workflow.Reach.{Edges, push_all, reach_new, reach_round, reach_from, weight}

weight_mono :
    (edges : Edges) (reached : List String) (id : String)
    → weight edges (id ∷ reached) ≤ weight edges reached
weight_mono [] reached id = omega arith
weight_mono ((k, inputs) ∷ edges) reached id = ground (arith, weight_mono edges reached id)

-- Taking a stage into the set frees the rounds that its inputs need.
pub weight-new :
    (edges : Edges) (reached : List String) (id : String) (inputs : List String)
    → lookup id edges ≡ some inputs
    → contains reached id ≡ false
    → weight edges (id ∷ reached) + length inputs ≤ weight edges reached
weight-new [] reached id inputs h c = cc
weight-new ((k, ks) ∷ edges) reached id inputs h c = ground (
  arith,
  weight-new edges reached id inputs,
  weight_mono edges reached id,
  eq_iff id k,
  eq_iff k id,
)

pub length-reverse : {A : Type 0} (xs : List A) → length (reverse xs) ≡ length xs
length-reverse [] = refl
length-reverse (x ∷ xs) =
    ap length (reverse-append (x ∷ []) xs)
    ∙ omega (arith, length-append {0} (reverse xs) (x ∷ []), length-reverse xs)

pub contains-reverse : (xs : List String) (a : String) → contains (reverse xs) a ≡ contains xs a
contains-reverse [] a = refl
contains-reverse (x ∷ xs) a =
    ap (λ l. contains l a) (reverse-append (x ∷ []) xs)
    ∙ contains-append (reverse xs) (x ∷ []) a
    ∙ ground (arith, contains-reverse xs a)

pub length-push_all :
    {A : Type 0} (xs stack : List A) → length (push_all xs stack) ≡ length xs + length stack
length-push_all xs stack =
    length-append (reverse xs) stack ∙ ap (λ n. n + length stack) (length-reverse xs)

pub reach_from-ends :
    (fuel : ℕ) (edges : Edges) (frontier reached : List String)
    → length frontier + weight edges reached < fuel
    → (r : Result Raised (List String)) × (reach_from fuel edges frontier reached ≡ some r)
unfolding reach_from
reach_from-ends zero edges frontier reached h = absurd (omega (arith, h))
reach_from-ends (suc fuel) edges [] reached h = (ok reached, refl)
reach_from-ends (suc fuel) edges (id ∷ frontier) reached h =
    by_seen (reach_from-ends fuel edges) (contains reached id) refl
  where
    Ends : Type 0
    Ends =
        (frontier reached : List String)
        → length frontier + weight edges reached < fuel
        → (r : Result Raised (List String)) × (reach_from fuel edges frontier reached ≡ some r)

    by_inputs :
        Ends
        → (o : Option (List String)) → lookup id edges ≡ o
        → contains reached id ≡ false
        → (r : Result Raised (List String)) × (reach_new
              (reach_from fuel edges)
              id
              frontier
              reached
              o
            ≡ some r)
    by_inputs go none e c = (_, refl)
    by_inputs go (some inputs) e c =
        go (push_all inputs frontier) (id ∷ reached) (
          omega (arith, h, length-push_all inputs frontier, weight-new edges reached id inputs e c))

    by_seen :
        Ends
        → (b : Bool) → contains reached id ≡ b
        → (r : Result Raised (List String)) × (reach_round
              (reach_from fuel edges)
              edges
              id
              frontier
              reached
              b
            ≡ some r)
    by_seen go true c = go frontier reached (omega (arith, h))
    by_seen go false c = by_inputs go (lookup id edges) refl c
