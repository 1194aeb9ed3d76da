-- ===== src/Prelude/Sets.antt =====
-- Python's sets and dictionaries over keys that `==` compares. A set is a list that keeps the
-- order of first insertion; a dictionary is an association list, where a later value of a key
-- takes the place of the earlier one.
use Prim.Native.Nat.{◌≤◌, ℕ, suc}
use mathlib.Core.Logic.{inl, inr}
use mathlib.Core.Path.{subst, sym, ◌≡◌, refl}
use mathlib.Core.Bool.{Bool, true, false, not, ◌&&◌, ◌||◌}
use mathlib.Core.Option.{Option, none, some}
use mathlib.Core.List.{List, [], ◌∷◌, ◌++◌, map}
use native.Mathlib.Omega.{arith}
use carbonpaper.Prelude.Tests.{if◌then◌else◌, Bool-cases}
use carbonpaper.Prelude.Lists.{All, All-map, filter}
use carbonpaper.Prelude.Equality.{Eq, ◌==◌, beq_self}

module _ {ℓ} {A : Type ℓ} ⦃e : Eq A⦄ where
  -- `a in xs`
  abbrev pub contains : List A → A → Bool
  contains [] a = false
  contains (x ∷ xs) a = a == x || contains xs a

  -- `xs.count(a)`
  abbrev pub count : A → List A → ℕ
  count a [] = 0
  count a (x ∷ xs) = if a == x then suc (count a xs) else count a xs

  -- No value stands twice.
  abbrev pub is_unique : List A → Bool
  is_unique [] = true
  is_unique (x ∷ xs) = not (contains xs x) && is_unique xs

  pub contains-append :
      (xs ys : List A) (a : A) → contains (xs ++ ys) a ≡ (contains xs a || contains ys a)
  contains-append [] ys a = refl
  contains-append (x ∷ xs) ys a = ground (arith, contains-append xs ys a)

module _ {ℓ κ} {K : Type ℓ} {V : Type κ} ⦃e : Eq K⦄ where
  abbrev pub lookup : K → List (K × V) → Option V
  lookup k [] = none
  lookup k ((j, v) ∷ m) = if k == j then some v else lookup k m

  -- `m[k] = v`
  abbrev pub insert : K → V → List (K × V) → List (K × V)
  insert k v [] = (k, v) ∷ []
  insert k v ((j, w) ∷ m) = if k == j then (j, v) ∷ m else (j, w) ∷ insert k v m

  abbrev pub keys : List (K × V) → List K
  keys m = map (λ p. p.0) m

  pub lookup-insert :
      (k j : K) (v : V) (m : List (K × V))
      → lookup j (insert k v m) ≡ (if j == k then some v else lookup j m)
  lookup-insert k j v [] = refl
  lookup-insert k j v ((i, w) ∷ m) =
      ground
        (arith, e.beq_iff k j, e.beq_iff k i, e.beq_iff j i, e.beq_iff j k, lookup-insert k j v m)

  -- A dictionary built from pairs in order, as a dictionary comprehension builds it.
  abbrev pub dict_from : List (K × V) → List (K × V) → List (K × V)
  dict_from m [] = m
  dict_from m ((k, v) ∷ rest) = dict_from (insert k v m) rest

  abbrev pub dict_of : List (K × V) → List (K × V)
  dict_of = dict_from []

  -- The value of the last pair with the key: what a dictionary built from the pairs holds.
  abbrev pub lookup_last : K → List (K × V) → Option V
  lookup_last k [] = none
  lookup_last k ((j, v) ∷ rest) = elim (lookup_last k rest) [
    | some w ↦ some w
    | none ↦ if k == j then some v else none
  ]

  lookup-dict_from :
      (k : K) (m kvs : List (K × V))
      → lookup k (dict_from m kvs)
        ≡ elim (lookup_last k kvs) [ some w ↦ some w | none ↦ lookup k m ]
  lookup-dict_from k m [] = refl
  lookup-dict_from k m ((j, v) ∷ rest) =
      ground (arith, lookup-dict_from k (insert j v m) rest, lookup-insert j k v m)

  pub lookup-dict_of : (k : K) (kvs : List (K × V)) → lookup k (dict_of kvs) ≡ lookup_last k kvs
  lookup-dict_of k kvs = ground (arith, lookup-dict_from k [] kvs)

  pub lookup_last-absent :
      (k : K) (kvs : List (K × V)) → contains (keys kvs) k ≡ false → lookup_last k kvs ≡ none
  lookup_last-absent k [] h = refl
  lookup_last-absent k ((j, v) ∷ rest) h = ground (arith, lookup_last-absent k rest)

  -- Where the keys differ, the dictionary holds each of the pairs.
  pub lookup_last_unique :
      (kvs : List (K × V))
      → is_unique (keys kvs) ≡ true
      → All (λ p. lookup_last p.0 kvs ≡ some p.1) kvs
  lookup_last_unique [] h = tt
  lookup_last_unique ((j, v) ∷ rest) h = (
    ground (arith, lookup_last-absent j rest, beq_self j),
    All-map (λ p e. ground arith) rest (lookup_last_unique rest (ground arith)),
  )

  contains-keys-insert :
      (k j : K) (v : V) (m : List (K × V))
      → contains (keys (insert k v m)) j ≡ (j == k || contains (keys m) j)
  contains-keys-insert k j v [] = refl
  contains-keys-insert k j v ((i, w) ∷ m) =
      ground (arith, contains-keys-insert k j v m, e.beq_iff k i, e.beq_iff j k, e.beq_iff j i)

  contains-keys-dict_from :
      (j : K) (m kvs : List (K × V))
      → contains (keys (dict_from m kvs)) j ≡ (contains (keys m) j || contains (keys kvs) j)
  contains-keys-dict_from j m [] = ground arith
  contains-keys-dict_from j m ((k, v) ∷ rest) =
      ground (arith, contains-keys-dict_from j (insert k v m) rest, contains-keys-insert k j v m)

  pub contains-keys-dict_of :
      (j : K) (kvs : List (K × V)) → contains (keys (dict_of kvs)) j ≡ contains (keys kvs) j
  contains-keys-dict_of j kvs = contains-keys-dict_from j [] kvs

module _ {ℓ κ} {A : Type ℓ} ⦃e : Eq A⦄ (P : A → Type κ) where
  pub All-contains : (xs : List A) (a : A) → All P xs → contains xs a ≡ true → P a
  All-contains [] a h c = cc
  All-contains (x ∷ xs) a h c = elim (Bool-cases (a == x)) [
    | inl q ↦ subst P (sym ((e.beq_iff a x).0 q)) h.0
    | inr q ↦ All-contains xs a h.1 (ground arith)
  ]

module _ {ℓ} {A : Type ℓ} ⦃e : Eq A⦄ where
  pub contains-count : (xs : List A) (a : A) → contains xs a ≡ true → 1 ≤ count a xs
  contains-count [] a h = cc
  contains-count (x ∷ xs) a h = ground (arith, contains-count xs a)

  pub unique_of_count : (xs : List A) → ((a : A) → count a xs ≤ 1) → is_unique xs ≡ true
  unique_of_count [] h = refl
  unique_of_count (x ∷ xs) h =
      ground
        (arith, unique_of_count xs (λ a. ground (arith, h a)), contains-count xs x, h x, beq_self x)

  pub count_of_absent : (xs : List A) (a : A) → contains xs a ≡ false → count a xs ≡ 0
  count_of_absent [] a h = refl
  count_of_absent (x ∷ xs) a h = ground (arith, count_of_absent xs a)

  pub contains-filter :
      (p : A → Bool) (xs : List A) (a : A) → contains (filter p xs) a ≡ (p a && contains xs a)
  contains-filter p [] a = ground arith
  contains-filter p (x ∷ xs) a = elim (Bool-cases (a == x)) [
    | inl q ↦ ground (arith, contains-filter p xs a, e.beq_iff a x)
    | inr q ↦ ground (arith, contains-filter p xs a, e.beq_iff a x)
  ]

  pub contains-filter-nil :
      (p : A → Bool) (xs : List A) (a : A) → filter p xs ≡ [] → contains xs a ≡ true → p a ≡ false
  contains-filter-nil p [] a h c = cc
  contains-filter-nil p (x ∷ xs) a h c = ground (arith, contains-filter-nil p xs a, e.beq_iff a x)

  pub count_of_unique : (xs : List A) (a : A) → is_unique xs ≡ true → count a xs ≤ 1
  count_of_unique [] a h = omega arith
  count_of_unique (x ∷ xs) a h =
      ground (arith, count_of_unique xs a, count_of_absent xs x, e.beq_iff a x)
