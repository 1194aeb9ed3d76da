-- ===== src/Workflow/Inherited.antt =====
-- app/models/workflow.py: the word that a stage inherits for what one of its rows is.
use carbonpaper.Prelude.{
  String, true, false, not, Option, some, none, List, [], ◌∷◌, map, filter, any, lookup, contains,
  ◌==◌, string_eq, ok, >>=-eq-ok, >>=_of_ok, ok-injective, ◌≡◌, refl, sym, ◌∙◌, arith, eq_iff,
  Bool-cases, inl, inr, subst, ap,
}
use carbonpaper.Stage.{Stage}
use carbonpaper.Stage.RowType.{list_row_supplying_input_ids}
use carbonpaper.Workflow.RowTypes.{
  RowTypeIds, require_key, read_keys, with_word, agreed, read_inherited_row_type_id,
  find_disagreeing_input_row_types, disagreements,
}

require_key-eq-ok :
    {V : Type 0} (k : String) (m : List (String × V)) (v : V)
    → require_key k m ≡ ok v
    → lookup k m ≡ some v
unfolding require_key
require_key-eq-ok k m v h = ground arith

-- The word of a key that was read stands among the words.
word_is_read :
    (ks : List String) (m : RowTypeIds) (read : List (String × Option String)) (i w : String)
    → read_keys ks m ≡ ok read
    → contains ks i ≡ true
    → lookup i m ≡ some (some w)
    → any (λ p. p.1 == w) (with_word read) ≡ true
unfolding read_keys
word_is_read [] m read i w h c e = cc
word_is_read (k ∷ ks) m read i w h c e =
    let (v, found, h1) = >>=-eq-ok (require_key k m) _ h in
    let (vs, more, h2) = >>=-eq-ok (read_keys ks m) _ h1 in
    subst (λ r. any (λ p. p.1 == w) (with_word r) ≡ true) (ok-injective h2)
      (elim (Bool-cases (i == k)) [
        | inl q ↦ here v vs (sym (require_key-eq-ok k m v found) ∙ same q)
        | inr q ↦ there v vs (word_is_read ks m vs i w more (ground arith) e)
      ])
  where
    same : (i == k) ≡ true → lookup k m ≡ some (some w)
    same q = subst (λ l. lookup l m ≡ some (some w)) ((eq_iff i k).0 q) e

    here :
        (v : Option String) (vs : List (String × Option String))
        → some v ≡ some (some w)
        → any (λ p. p.1 == w) (with_word ((k, v) ∷ vs)) ≡ true
    here none vs q = cc
    here (some u) vs q = ground (arith, eq_iff u w)

    there :
        (v : Option String) (vs : List (String × Option String))
        → any (λ p. p.1 == w) (with_word vs) ≡ true
        → any (λ p. p.1 == w) (with_word ((k, v) ∷ vs)) ≡ true
    there none vs q = q
    there (some u) vs q = ground arith

only_word :
    (w v : String) (words : List (String × String))
    → filter (λ p. not (p.1 == w)) words ≡ []
    → any (λ p. p.1 == v) words ≡ true
    → v ≡ w
only_word w v [] h f = cc
only_word w v (p ∷ words) h f = ground (arith, only_word w v words, eq_iff p.1 w, eq_iff p.1 v)

agreed_of_quiet :
    (w : String) (words : List (String × String))
    → filter (λ p. not (p.1 == w)) words ≡ []
    → any (λ p. not (p.1 == w)) words ≡ false
agreed_of_quiet w [] h = refl
agreed_of_quiet w (p ∷ words) h = ground (arith, agreed_of_quiet w words)

agreed-disagreements :
    {I : Type 0} (id v : String) (words : List (String × String))
    → disagreements {I = I} id words ≡ []
    → any (λ p. p.1 == v) words ≡ true
    → agreed words ≡ some v
agreed-disagreements id v [] h f = cc
agreed-disagreements id v ((k, w) ∷ rest) h f =
    let quiet = map-eq-nil _ (filter (λ p. not (p.1 == w)) rest) h in
    rw (agreed_of_quiet w rest quiet) (elim (Bool-cases (w == v)) [
      | inl q ↦ ap some ((eq_iff w v).0 q)
      | inr q ↦ ap some (sym (only_word w v rest quiet (ground arith)))
    ])
  where
    map-eq-nil : {A B : Type 0} (f : A → B) (xs : List A) → map f xs ≡ [] → xs ≡ []
    map-eq-nil f [] h = refl
    map-eq-nil f (x ∷ xs) h = cc

-- Where the inputs that supply a stage's rows have answers and no disagreement is reported between
-- them, reading the word that the stage inherits raises nothing, and the stage inherits the word of
-- every such input that has one.
pub read_inherited_row_type_id-agreed :
    {I : Type 0} (s : Stage) (m : RowTypeIds)
    → find_disagreeing_input_row_types {I = I} s m ≡ ok []
    → (answer : Option String) × (read_inherited_row_type_id s m ≡ ok answer)
      × ((i w : String)
          → contains (list_row_supplying_input_ids s) i ≡ true
          → lookup i m ≡ some (some w)
          → answer ≡ some w)
unfolding find_disagreeing_input_row_types read_inherited_row_type_id
read_inherited_row_type_id-agreed s m h =
    let (read, e, quiet) = >>=-eq-ok (read_keys (list_row_supplying_input_ids s) m) _ h in
    (
      agreed (with_word read),
      >>=_of_ok _ _ e refl,
      λ i w c f.
          agreed-disagreements s.id w (with_word read) (ok-injective quiet)
            (word_is_read _ m read i w e c f),
    )
