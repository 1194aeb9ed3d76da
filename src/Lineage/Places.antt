-- ===== src/Lineage/Places.antt =====
-- Places of a list, counted from its end.
use mathlib.Core.List.{reverse, reverse-append}
use carbonpaper.Prelude.{
  ℕ, zero, suc, ◌+◌, ◌-◌, ◌≡◌, refl, ap, ◌∙◌, ◌⊎◌, inl, inr, true, false, none, List, [], ◌∷◌, ◌++◌,
  length, length-append, get_elem?, get_elem?-append_lt, get_elem?-append_add, ltb, arith,
  Bool-cases, if◌then◌else◌,
}

length-reverse : {A : Type 0} (xs : List A) → length (reverse xs) ≡ length xs
length-reverse [] = refl
length-reverse (x ∷ xs) =
    ap length (reverse-append (x ∷ []) xs)
    ∙ omega (arith, length-append {0} (reverse xs) (x ∷ []), length-reverse xs)

-- From the end of a list, by its length.
pub get_elem?-reverse :
    {A : Type 0} (xs : List A) (m : ℕ)
    → get_elem? (reverse xs) m
      ≡ (if ltb m (length xs) then get_elem? xs (length xs - suc m) else none)
get_elem?-reverse [] m = ground arith
get_elem?-reverse {A} (x ∷ xs) m =
    ap (λ l. get_elem? l m) (reverse-append (x ∷ []) xs)
    ∙ by_place (get_elem?-reverse xs m) (Bool-cases (ltb m (length xs)))
  where
    first :
        (i : ℕ)
        → suc (length xs) - suc m ≡ suc i
        → get_elem? (x ∷ xs) (suc (length xs) - suc m) ≡ get_elem? xs i
    first i e = ap (get_elem? (x ∷ xs)) e

    last :
        (i : ℕ)
        → m ≡ length xs + i
        → get_elem? (x ∷ []) i
          ≡ (if ltb m (suc (length xs)) then get_elem? (x ∷ xs) (suc (length xs) - suc m) else none)
    last zero e =
        let here : suc (length xs) - suc m ≡ 0 = omega (arith, e) in rw here (ground (arith, e))
    last (suc i) e = ground (arith, e)

    by_place :
        (get_elem? (reverse xs) m
          ≡ (if ltb m (length xs) then get_elem? xs (length xs - suc m) else none))
        → (ltb m (length xs) ≡ true) ⊎ (ltb m (length xs) ≡ false)
        → get_elem? (reverse xs ++ x ∷ []) m
          ≡ (if ltb m (suc (length xs)) then get_elem? (x ∷ xs) (suc (length xs) - suc m) else none)
    by_place ih (inl h) =
        get_elem?-append_lt (reverse xs) (x ∷ []) m (ground (arith, length-reverse xs))
        ∙ ih
        ∙ ground (arith, first (length xs - suc m) (ground arith))
    by_place ih (inr h) =
        ap (get_elem? (reverse xs ++ x ∷ [])) (ground (arith, length-reverse xs))
        ∙ get_elem?-append_add (reverse xs) (x ∷ []) (m - length xs)
        ∙ last (m - length xs) (ground arith)
