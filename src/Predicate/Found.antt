-- ===== src/Predicate/Found.antt =====
-- What `ast.walk` gives of a tree, and so what is read off a filter.
use carbonpaper.Prelude.{
  ℕ, zero, suc, ◌+◌, ◌≤◌, ◌≡◌, refl, sym, ap, subst, ◌∙◌, ◌↔◌, ◌⊎◌, inl, inr, Bool, true, false,
  String, List, [], ◌∷◌, ◌++◌, flat_map, contains, string_eq, Memᴰ, arith, if◌then◌else◌,
}
use mathlib.Core.List.Memᴰ
use carbonpaper.Predicate.Syntax.{
  Node, Nodes, bool_op, bin_op, unary_op, compare, name, constant, attribute, call, other, nil,
  cons, text, to_list, children, size, size_nodes,
}
use carbonpaper.Predicate.Walk.{
  walk_from, walk, regex_methods, regex_argument, find_regex_arguments,
}
use carbonpaper.Predicate.Admitted.{Occurs, here, below}

abbrev total : List Node → ℕ
unfolding size
total [] = 0
total (n ∷ ns) = size n + total ns

total-append : (xs ys : List Node) → total (xs ++ ys) ≡ total xs + total ys
unfolding total
total-append [] ys = omega arith
total-append (x ∷ xs) ys = omega (arith, total-append xs ys)

total-to_list : (ns : Nodes) → total (to_list ns) ≡ size_nodes ns
unfolding size total
total-to_list nil = refl
total-to_list (cons n ns) = ap (λ k. size n + k) (total-to_list ns)

size-children : (n : Node) → size n ≡ suc (total (children n))
unfolding size total
size-children (bool_op values) = omega (arith, total-to_list values)
size-children (bin_op left op right) = omega arith
size-children (unary_op op operand) = omega arith
size-children (compare left ops comparators) = omega (arith, total-to_list comparators)
size-children (name id context) = refl
size-children (constant value) = refl
size-children (attribute value attr) = omega arith
size-children (call func args keywords) = omega (
  arith,
  total-append (to_list args) (to_list keywords),
  total-to_list args,
  total-to_list keywords,
)
size-children (other type nodes) = omega (arith, total-to_list nodes)

abbrev OccursIn : Node → List Node → Type 0
OccursIn m todo = (n : Node) × Memᴰ n todo × Occurs m n

-- The children of the first node stand behind the rest of the list.
OccursIn-turn :
    (m n : Node) (rest : List Node)
    → (OccursIn m (n ∷ rest)) ↔ ((m ≡ n) ⊎ OccursIn m (rest ++ children n))
OccursIn-turn m n rest = (turn, back)
  where
    of_root : (k : Node) → k ≡ n → Occurs m k → (m ≡ n) ⊎ OccursIn m (rest ++ children n)
    of_root k e (here f) = inl (sym f ∙ e)
    of_root k e (below {c = c} i o) =
        inr (c, Memᴰ.append_right rest (subst (λ x. Memᴰ c (children x)) e i), o)

    turn : OccursIn m (n ∷ rest) → (m ≡ n) ⊎ OccursIn m (rest ++ children n)
    turn (k, Memᴰ.head e, o) = of_root k e o
    turn (k, Memᴰ.tail i, o) = inr (k, Memᴰ.append_left (children n) i, o)

    back : (m ≡ n) ⊎ OccursIn m (rest ++ children n) → OccursIn m (n ∷ rest)
    back (inl e) = (n, Memᴰ.head refl, here (sym e))
    back (inr (k, i, o)) = elim (Memᴰ.append_cases rest i) [
      | inl j ↦ (k, Memᴰ.tail j, o)
      | inr j ↦ (n, Memᴰ.head refl, below j o)
    ]

total-turn :
    (n : Node) (rest : List Node) (bound : ℕ)
    → total (n ∷ rest) ≤ suc bound
    → total (rest ++ children n) ≤ bound
unfolding total
total-turn n rest bound h = omega (arith, h, size-children n, total-append rest (children n))

walk_from-OccursIn :
    (bound : ℕ) (todo : List Node) (m : Node)
    → total todo ≤ bound
    → Memᴰ m (walk_from bound todo) ↔ OccursIn m todo
unfolding total
walk_from-OccursIn bound [] m h = (λ i. elim i [ ], λ (k, i, o). elim i [ ])
walk_from-OccursIn zero (n ∷ rest) m h = absurd (omega (arith, h, size-children n))
walk_from-OccursIn (suc bound) (n ∷ rest) m h =
    let ih = walk_from-OccursIn bound (rest ++ children n) m (total-turn n rest bound h) in
    let turn = OccursIn-turn m n rest in (λ i. turn.1 (inner ih.0 i), λ o. outer ih.1 (turn.0 o))
  where
    inner :
        (Memᴰ m (walk_from bound (rest ++ children n)) → OccursIn m (rest ++ children n))
        → Memᴰ m (n ∷ walk_from bound (rest ++ children n))
        → (m ≡ n) ⊎ OccursIn m (rest ++ children n)
    inner go (Memᴰ.head e) = inl e
    inner go (Memᴰ.tail i) = inr (go i)

    outer :
        (OccursIn m (rest ++ children n) → Memᴰ m (walk_from bound (rest ++ children n)))
        → (m ≡ n) ⊎ OccursIn m (rest ++ children n)
        → Memᴰ m (n ∷ walk_from bound (rest ++ children n))
    outer go (inl e) = Memᴰ.head e
    outer go (inr o) = Memᴰ.tail (go o)

-- `ast.walk` gives exactly the nodes that stand in the tree: the bound is enough.
pub walk-Occurs : (tree m : Node) → Memᴰ m (walk tree) ↔ Occurs m tree
unfolding size total
walk-Occurs tree m =
    let found = walk_from-OccursIn (size tree) (tree ∷ []) m (omega arith) in
    (λ i. only (found.0 i), λ o. found.1 (tree, Memᴰ.head refl, o))
  where
    only : OccursIn m (tree ∷ []) → Occurs m tree
    only (n, Memᴰ.head e, o) = subst (Occurs m) e o
    only (n, Memᴰ.tail i, o) = elim i [ ]

flat_map-Memᴰ :
    (f : Node → List String) (xs : List Node) (p : String)
    → Memᴰ p (flat_map f xs) ↔ ((n : Node) × Memᴰ n xs × Memᴰ p (f n))
flat_map-Memᴰ f [] p = (λ i. elim i [ ], λ (n, i, j). elim i [ ])
flat_map-Memᴰ f (x ∷ xs) p = (
  λ i. (elim (Memᴰ.append_cases (f x) i) [
    | inl j ↦ (x, Memᴰ.head refl, j)
    | inr j ↦ later ((flat_map-Memᴰ f xs p).0 j)
  ]),
  λ (n, i, j). back n i j (flat_map-Memᴰ f xs p).1,
)
  where
    later : (n : Node) × Memᴰ n xs × Memᴰ p (f n) → (n : Node) × Memᴰ n (x ∷ xs) × Memᴰ p (f n)
    later (n, i, j) = (n, Memᴰ.tail i, j)

    back :
        (n : Node)
        → Memᴰ n (x ∷ xs)
        → Memᴰ p (f n)
        → ((n : Node) × Memᴰ n xs × Memᴰ p (f n) → Memᴰ p (flat_map f xs))
        → Memᴰ p (f x ++ flat_map f xs)
    back n (Memᴰ.head e) j go = Memᴰ.append_left (flat_map f xs) (subst (λ k. Memᴰ p (f k)) e j)
    back n (Memᴰ.tail i) j go = Memᴰ.append_right (f x) (go (n, i, j))

-- A call of a method that reads its first argument, this text, as a regular expression.
abbrev pub IsRegexCall : String → Node → Type 0
IsRegexCall p n =
    (value : Node) × (attr : String) × (args keywords : Nodes) × (n
      ≡ call (attribute value attr) (cons (constant (text p)) args) keywords)
    × (contains regex_methods attr ≡ true)

regex_argument-IsRegexCall : (n : Node) (p : String) → Memᴰ p (regex_argument n) ↔ IsRegexCall p n
regex_argument-IsRegexCall n p = (read n, made)
  where
    of_call :
        (value : Node) (attr t : String) (args keywords : Nodes) (b : Bool)
        → contains regex_methods attr ≡ b
        → Memᴰ p (if b then t ∷ [] else [])
        → IsRegexCall p (call (attribute value attr) (cons (constant (text t)) args) keywords)
    of_call value attr t args keywords true e i = (
      value,
      attr,
      args,
      keywords,
      ap (λ u. call (attribute value attr) (cons (constant (text u)) args) keywords)
          (sym (Memᴰ.eq_of_singleton i)),
      e,
    )
    of_call value attr t args keywords false e i = elim i [ ]

    read : (k : Node) → Memᴰ p (regex_argument k) → IsRegexCall p k
    read (call (attribute value attr) (cons (constant (text t)) args) keywords) i =
        of_call value attr t args keywords (contains regex_methods attr) refl i
    read _ i = elim i [ ]

    made : IsRegexCall p n → Memᴰ p (regex_argument n)
    made (value, attr, args, keywords, e, b) =
        subst (λ k. Memᴰ p (regex_argument k)) (sym e) (rw b (Memᴰ.head refl))

-- The patterns of `find_regex_arguments` are exactly the texts that are first argument of a call of
-- `contains`, `match` or `fullmatch`, however deep in the filter the call stands.
pub find_regex_arguments-IsRegexCall :
    (tree : Node) (p : String)
    → Memᴰ p (find_regex_arguments tree) ↔ ((n : Node) × Occurs n tree × IsRegexCall p n)
unfolding find_regex_arguments
find_regex_arguments-IsRegexCall tree p =
    let found = flat_map-Memᴰ regex_argument (walk tree) p in
    (
      λ i.
          (let (n, j, k) = found.0 i in
            (n, (walk-Occurs tree n).0 j, (regex_argument-IsRegexCall n p).0 k)),
      λ (n, o, r). found.1 (n, (walk-Occurs tree n).1 o, (regex_argument-IsRegexCall n p).1 r),
    )
