-- ===== src/Workflow/Order/Kept.antt =====
-- Where ids differ, each stage stands in the order of `sort_stages_by_dependency`, and no id twice.
use carbonpaper.Prelude.{
  ◌+◌, ◌≡◌, refl, sym, ap, subst, String, Bool, true, not, List, [], ◌∷◌, ◌++◌, arith, ◌⊎◌, inl,
  inr, Bool-cases, Memᴰ, filter, count, is_unique, unique_of_count, count_of_unique, contains-count,
  string_eq, Result, ok, err, All, All-map, contains, count_of_absent,
}
use carbonpaper.Workflow.Graph.{StageInGraph, ids}
use carbonpaper.Workflow.Raised.{Raised}
use carbonpaper.Workflow.Order.{is_ready, ready, remaining, sort_stages_by_dependency}
use carbonpaper.Workflow.Order.Rounds.{rounds_rule}
use carbonpaper.Workflow.Order.Perm.{remaining-eq, unique-filter}

Memᴰ-append_left : {A : Type 0} {a : A} (xs ys : List A) → Memᴰ a xs → Memᴰ a (xs ++ ys)
Memᴰ-append_left [] ys m = elim m [ ]
Memᴰ-append_left (x ∷ xs) ys (Memᴰ.head e) = Memᴰ.head e
Memᴰ-append_left (x ∷ xs) ys (Memᴰ.tail m) = Memᴰ.tail (Memᴰ-append_left xs ys m)

Memᴰ-append_right : {A : Type 0} {a : A} (xs ys : List A) → Memᴰ a ys → Memᴰ a (xs ++ ys)
Memᴰ-append_right [] ys m = m
Memᴰ-append_right (x ∷ xs) ys m = Memᴰ.tail (Memᴰ-append_right xs ys m)

Memᴰ-filter :
    {A : Type 0} {a : A} (p : A → Bool) (xs : List A)
    → Memᴰ a xs
    → p a ≡ true
    → Memᴰ a (filter p xs)
Memᴰ-filter p [] m h = elim m [ ]
Memᴰ-filter p (x ∷ xs) (Memᴰ.head e) h = rw (subst (λ y. p y ≡ true) e h) (Memᴰ.head e)
Memᴰ-filter p (x ∷ xs) (Memᴰ.tail m) h = elim (Bool-cases (p x)) [
  | inl e ↦ rw e (Memᴰ.tail (Memᴰ-filter p xs m h))
  | inr e ↦ rw e (Memᴰ-filter p xs m h)
]

module _ {S : Type 0} (graph : StageInGraph S) where
  count-ids-append :
      (i : String) (xs ys : List S)
      → count i (ids graph (xs ++ ys)) ≡ count i (ids graph xs) + count i (ids graph ys)
  count-ids-append i [] ys = omega arith
  count-ids-append i (x ∷ xs) ys = ground (arith, count-ids-append i xs ys)

  count-ids-filter :
      (i : String) (p : S → Bool) (xs : List S)
      → count i (ids graph (filter p xs)) + count i (ids graph (filter (λ x. not (p x)) xs))
        ≡ count i (ids graph xs)
  count-ids-filter i p [] = refl
  count-ids-filter i p (x ∷ xs) = ground (arith, count-ids-filter i p xs)

  record Kept (stages ordered pending : List S) : Type 0 where
    counted :
        (i : String)
        → count i (ids graph ordered) + count i (ids graph pending) ≡ count i (ids graph stages)
    unique : is_unique (ids graph pending) ≡ true
    somewhere : All (λ s. Memᴰ s ordered ⊎ Memᴰ s pending) stages

  round-Kept :
      (stages ordered pending : List S)
      → Kept stages ordered pending
      → Kept stages (ordered ++ ready graph pending) (remaining graph pending)
  round-Kept stages ordered pending h =
      subst (Kept stages (ordered ++ ready graph pending))
        (sym (remaining-eq graph pending h.unique))
        (record {
          counted = λ i. omega (
            arith,
            h.counted i,
            count-ids-append i ordered (ready graph pending),
            count-ids-filter i is_first pending,
          );
          unique = unique-filter graph (λ s. not (is_first s)) pending h.unique;
          somewhere = All-map moved stages h.somewhere;
        })
    where
      is_first : S → Bool
      is_first = is_ready graph (ids graph pending)

      moved :
          (s : S)
          → Memᴰ s ordered ⊎ Memᴰ s pending
          → Memᴰ s (ordered ++ ready graph pending)
            ⊎ Memᴰ s (filter (λ s. not (is_first s)) pending)
      moved s (inl m) = inl (Memᴰ-append_left ordered _ m)
      moved s (inr m) = elim (Bool-cases (is_first s)) [
        | inl e ↦ inl (Memᴰ-append_right ordered _ (Memᴰ-filter is_first pending m e))
        | inr e ↦ inr (Memᴰ-filter (λ s. not (is_first s)) pending m (ap not e))
      ]

  -- Where ids differ, the order has no id twice and none that is no stage's, and holds each of the
  -- given stages.
  pub sort-Kept :
      (stages ordered : List S)
      → is_unique (ids graph stages) ≡ true
      → sort_stages_by_dependency graph stages ≡ ok ordered
      → (is_unique (ids graph ordered) ≡ true)
        × ((i : String)
            → contains (ids graph ordered) i ≡ true
            → contains (ids graph stages) i ≡ true)
        × All (λ s. Memᴰ s ordered) stages
  unfolding sort_stages_by_dependency
  sort-Kept stages ordered u h = subst OnOk h (
      rounds_rule graph (Kept stages) OnOk finished (λ _ _ _ _ _. tt) (round-Kept stages) _ []
        stages _
        (record {
          counted = λ i. omega arith;
          unique = u;
          somewhere = All-map (λ s m. inr m) stages (self stages);
        }))
    where
      OnOk : Result Raised (List S) → Type 0
      OnOk (ok out) =
          (is_unique (ids graph out) ≡ true)
          × ((i : String)
              → contains (ids graph out) i ≡ true
              → contains (ids graph stages) i ≡ true)
          × All (λ s. Memᴰ s out) stages
      OnOk (err _) = Unit

      self : (xs : List S) → All (λ s. Memᴰ s xs) xs
      self [] = tt
      self (x ∷ xs) = (Memᴰ.head refl, All-map (λ s m. Memᴰ.tail m) xs (self xs))

      there : (out : List S) (s : S) → Memᴰ s out ⊎ Memᴰ s [] → Memᴰ s out
      there out s (inl m) = m
      there out s (inr m) = elim m [ ]

      finished : (out : List S) → Kept stages out [] → OnOk (ok out)
      finished out k = (
        unique_of_count (ids graph out)
            (λ i. omega (arith, k.counted i, count_of_unique (ids graph stages) i u)),
        λ i c. ground (
          arith,
          k.counted i,
          contains-count (ids graph out) i c,
          count_of_absent (ids graph stages) i,
        ),
        All-map (there out) stages k.somewhere,
      )
