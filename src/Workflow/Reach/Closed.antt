-- ===== src/Workflow/Reach/Closed.antt =====
-- The loop of `find_stages_reaching_report` collects what is upstream of its seeds, and no more.
use mathlib.Core.List.{reverse}
use carbonpaper.Prelude.{
  ℕ, zero, suc, ◌≡◌, refl, sym, ap, ◌∙◌, String, Bool, true, false, ◌||◌, Option, some, none, List,
  [], ◌∷◌, contains, contains-append, lookup, string_eq, eq_iff, ◌==◌, ok, err, arith, Bool-cases,
  inl, inr, ◌⊎◌, ◌↔◌,
}
use carbonpaper.Workflow.Reach.{Loop, Edges, push_all, reach_new, reach_round, reach_from}
use carbonpaper.Workflow.Reach.Enough.{contains-reverse}

-- A seed, or an input of a stage that is upstream.
pub data IsUpstream (edges : Edges) (seeds : List String) : String → Type 0 where
  seed : {n : String} → contains seeds n ≡ true → IsUpstream edges seeds n
  read_by :
      {m n : String} {inputs : List String}
      → IsUpstream edges seeds m
      → lookup m edges ≡ some inputs
      → contains inputs n ≡ true
      → IsUpstream edges seeds n

pub contains-push_all :
    (xs stack : List String) (a : String)
    → contains (push_all xs stack) a ≡ (contains xs a || contains stack a)
contains-push_all xs stack a =
    contains-append (reverse xs) stack a ∙ ap (λ b. b || contains stack a) (contains-reverse xs a)

or-cases : (a b : Bool) → (a || b) ≡ true → (a ≡ true) ⊎ (b ≡ true)
or-cases true b h = inl refl
or-cases false b h = inr h

module _ (edges : Edges) (seeds : List String) where
  -- What the loop keeps: what it has seen is upstream; the seeds, and the inputs of what it has
  -- taken, are seen.
  pub record Closing (frontier reached : List String) : Type 0 where
    pub sound :
        (n : String) → (contains reached n || contains frontier n) ≡ true → IsUpstream edges seeds n
    pub seeded :
        (n : String) → contains seeds n ≡ true → (contains reached n || contains frontier n) ≡ true
    pub closed :
        (m n : String) (inputs : List String)
        → contains reached m ≡ true
        → lookup m edges ≡ some inputs
        → contains inputs n ≡ true
        → (contains reached n || contains frontier n) ≡ true

  pub Closing-seeds : Closing (reverse seeds) []
  Closing-seeds = record {
    sound = λ n h. seed (sym (contains-reverse seeds n) ∙ h);
    seeded = λ n h. contains-reverse seeds n ∙ h;
    closed = λ m n inputs h e c. cc;
  }

  pub Closing-seen :
      (id : String) (frontier reached : List String)
      → contains reached id ≡ true
      → Closing (id ∷ frontier) reached
      → Closing frontier reached
  Closing-seen id frontier reached c h = record {
    sound = λ n e. h.sound n (ground arith);
    seeded = λ n e. ground (arith, h.seeded n e, eq_iff n id);
    closed = λ m n inputs e f g. ground (arith, h.closed m n inputs e f g, eq_iff n id);
  }

  pub Closing-new :
      (id : String) (inputs frontier reached : List String)
      → lookup id edges ≡ some inputs
      → Closing (id ∷ frontier) reached
      → Closing (push_all inputs frontier) (id ∷ reached)
  Closing-new id inputs frontier reached e h = record {
    sound = λ n g. by_seen n (
        or-cases (contains (id ∷ frontier) n || contains reached n) (contains inputs n)
          (ground (arith, contains-push_all inputs frontier n)));
    seeded = λ n g. ground (arith, h.seeded n g, contains-push_all inputs frontier n);
    closed = λ m n is g f c. elim (Bool-cases (m == id)) [
      | inl q ↦
          ground (arith, eq_iff m id, contains-push_all inputs frontier n, same_inputs m is q f)
      | inr q ↦
          ground (arith, h.closed m n is (ground arith) f c, contains-push_all inputs frontier n)
    ];
  }
    where
      by_seen :
          (n : String)
          → ((contains (id ∷ frontier) n || contains reached n) ≡ true) ⊎ (contains inputs n ≡ true)
          → IsUpstream edges seeds n
      by_seen n (inl s) = h.sound n (ground arith)
      by_seen n (inr c) = read_by (h.sound id (ground (arith, eq_iff id id))) e c

      same_inputs :
          (m : String) (is : List String)
          → (m == id) ≡ true
          → lookup m edges ≡ some is
          → is ≡ inputs
      same_inputs m is q f = some_inj (sym f ∙ ap (λ k. lookup k edges) ((eq_iff m id).0 q) ∙ e)
        where
          some_inj : {a b : List String} → ◌≡◌ {A = Option (List String)} (some a) (some b) → a ≡ b
          some_inj g = cc

  complete :
      (reached : List String)
      → Closing [] reached
      → (n : String) → IsUpstream edges seeds n
      → contains reached n ≡ true
  complete reached h n (seed c) = ground (arith, h.seeded n c)
  complete reached h _ (read_by {m} {n} {inputs = is} u e c) =
      ground (arith, h.closed m n is (complete reached h m u) e c)

  -- What a loop that ended promises: all that is upstream, or something upstream that is no stage.
  unfoldable pub Collected : Loop → Type 0
  Collected none = Unit
  Collected (some (ok reached)) =
      (n : String) → (contains reached n ≡ true) ↔ IsUpstream edges seeds n
  Collected (some (err e)) = (n : String) × IsUpstream edges seeds n × (lookup n edges ≡ none)

  pub reach_from-Collected :
      (fuel : ℕ) (frontier reached : List String)
      → Closing frontier reached
      → Collected (reach_from fuel edges frontier reached)
  unfolding reach_from Collected
  reach_from-Collected zero frontier reached h = tt
  reach_from-Collected (suc fuel) [] reached h =
      λ n. (λ c. h.sound n (ground arith), complete reached h n)
  reach_from-Collected (suc fuel) (id ∷ frontier) reached h =
      by_seen (reach_from-Collected fuel) (contains reached id) refl
    where
      Go : Type 0
      Go = (f r : List String) → Closing f r → Collected (reach_from fuel edges f r)

      by_inputs :
          Go
          → (o : Option (List String)) → lookup id edges ≡ o
          → Collected (reach_new (reach_from fuel edges) id frontier reached o)
      by_inputs go none e = (id, h.sound id (ground (arith, eq_iff id id)), e)
      by_inputs go (some inputs) e =
          go (push_all inputs frontier) (id ∷ reached) (Closing-new id inputs frontier reached e h)

      by_seen :
          Go
          → (b : Bool) → contains reached id ≡ b
          → Collected (reach_round (reach_from fuel edges) edges id frontier reached b)
      by_seen go true c = go frontier reached (Closing-seen id frontier reached c h)
      by_seen go false c = by_inputs go (lookup id edges) refl
