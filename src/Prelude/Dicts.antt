-- ===== src/Prelude/Dicts.antt =====
-- Dictionaries as the association lists that `insert` builds.
use mathlib.Core.Path.{◌≡◌, refl, sym, subst}
use mathlib.Core.Logic.{inl, inr}
use mathlib.Core.Bool.{true, false}
use mathlib.Core.Option.{none, some}
use mathlib.Core.List.{List, [], ◌∷◌}
use Prim.Native.String.{String}
use native.Mathlib.Omega.{arith}
use text.Mathlib.TextEquality.{eq_iff}
use carbonpaper.Prelude.Tests.{Bool-cases}
use carbonpaper.Prelude.Equality.{◌==◌, string_eq, beq_self}
use carbonpaper.Prelude.Lists.{All, All-map}
use carbonpaper.Prelude.Sets.{contains, is_unique, keys, lookup, insert, dict_from, dict_of}

module _ {A : Type 0} where
  pub lookup-none-contains :
      (k : String) (m : List (String × A)) → lookup k m ≡ none → contains (keys m) k ≡ false
  lookup-none-contains k [] e = refl
  lookup-none-contains k ((j, a) ∷ m) e = ground (arith, lookup-none-contains k m)

  pub lookup-some-contains :
      (k : String) (m : List (String × A)) (a : A)
      → lookup k m ≡ some a
      → contains (keys m) k ≡ true
  lookup-some-contains k [] a e = cc
  lookup-some-contains k ((j, b) ∷ m) a e = ground (arith, lookup-some-contains k m a)

  contains-keys-insert :
      (k j : String) (a : A) (m : List (String × A))
      → contains (keys (insert k a m)) j ≡ true
      → contains (keys m) j ≡ false
      → (j == k) ≡ true
  contains-keys-insert k j a [] h n = ground arith
  contains-keys-insert k j a ((i, b) ∷ m) h n =
      ground (arith, contains-keys-insert k j a m, eq_iff k i)

  is_unique-keys-insert :
      (k : String) (a : A) (m : List (String × A))
      → is_unique (keys m) ≡ true
      → is_unique (keys (insert k a m)) ≡ true
  is_unique-keys-insert k a [] u = refl
  is_unique-keys-insert k a ((j, b) ∷ m) u =
      ground
        (arith, is_unique-keys-insert k a m, contains-keys-insert k j a m, eq_iff k j, eq_iff j k)

  is_unique-keys-dict_from :
      (m kvs : List (String × A))
      → is_unique (keys m) ≡ true
      → is_unique (keys (dict_from m kvs)) ≡ true
  is_unique-keys-dict_from m [] u = u
  is_unique-keys-dict_from m ((k, a) ∷ kvs) u =
      is_unique-keys-dict_from (insert k a m) kvs (is_unique-keys-insert k a m u)

  -- A dictionary holds each key once.
  pub is_unique-keys-dict_of : (kvs : List (String × A)) → is_unique (keys (dict_of kvs)) ≡ true
  is_unique-keys-dict_of kvs = is_unique-keys-dict_from [] kvs refl

  pub lookup_unique :
      (m : List (String × A)) → is_unique (keys m) ≡ true → All (λ p. lookup p.0 m ≡ some p.1) m
  lookup_unique [] u = tt
  lookup_unique ((k, a) ∷ m) u = (
    ground (arith, beq_self k),
    All-map (λ p e. ground (arith, lookup-some-contains p.0 m p.1, eq_iff p.0 k)) m
        (lookup_unique m (ground arith)),
  )

  module _ (P : String → A → Type 0) where
    insert-All :
        (k : String) (a : A) (m : List (String × A))
        → P k a
        → All (λ p. P p.0 p.1) m
        → All (λ p. P p.0 p.1) (insert k a m)
    insert-All k a [] h g = (h, tt)
    insert-All k a ((j, b) ∷ m) h g = elim (Bool-cases (k == j)) [
      | inl e ↦ rw e (subst (λ i. P i a) ((eq_iff k j).0 e) h, g.1)
      | inr e ↦ rw e (g.0, insert-All k a m h g.1)
    ]

    pub dict_from-All :
        (m kvs : List (String × A))
        → All (λ p. P p.0 p.1) m
        → All (λ p. P p.0 p.1) kvs
        → All (λ p. P p.0 p.1) (dict_from m kvs)
    dict_from-All m [] g h = g
    dict_from-All m ((k, a) ∷ kvs) g h =
        dict_from-All (insert k a m) kvs (insert-All k a m h.0 g) h.1

    -- What holds of every entry holds of the one found.
    pub lookup-All :
        (k : String) (m : List (String × A)) (a : A)
        → All (λ p. P p.0 p.1) m
        → lookup k m ≡ some a
        → P k a
    lookup-All k [] a h e = cc
    lookup-All k ((j, b) ∷ m) a h e = elim (Bool-cases (k == j)) [
      | inl q ↦ subst (λ i. P i a) (sym ((eq_iff k j).0 q)) (subst (P j) (found q) h.0)
      | inr q ↦ lookup-All k m a h.1 (ground arith)
    ]
      where
        found : (k == j) ≡ true → b ≡ a
        found q = ground arith
