-- ===== src/Evals/Deconflicted.antt =====
-- What the renaming of an eval dataset's columns achieves.
use Prim.Native.Char.{code}
use Prim.Native.String.{String}
use carbonpaper.Prelude.{
  ◌≡◌, refl, sym, ap, ◌∙◌, ◌&&◌, Bool, true, false, List, [], ◌∷◌, map, contains, keys, insert,
  dict_of, dict_from, contains-keys-dict_of, contains-filter, All, string_eq, nat_eq, eq_iff, ◌⊎◌,
  ◌==◌, arith, Bool-cases, inl, inr,
}
use carbonpaper.Schema.Column.{Column, column, name}
use carbonpaper.Evals.DatasetColumns.{
  prefixed, names, find_column_name_conflicts, new_name, renamed, renamed_pair, rename_columns,
  deconflict_column_names,
}

-- Each column stands under its own name.
abbrev IsNamed : List (String × Column) → Type 0
IsNamed m = All (λ p. name p.1 ≡ p.0) m

IsNamed-insert :
    (c : Column) (k : String) (m : List (String × Column))
    → name c ≡ k
    → IsNamed m
    → IsNamed (insert k c m)
IsNamed-insert c k [] e h = (e, tt)
IsNamed-insert c k ((j, d) ∷ m) e h = elim (Bool-cases (k == j)) [
  | inl q ↦ rw q (e ∙ (eq_iff k j).0 q, h.1)
  | inr q ↦ rw q (h.0, IsNamed-insert c k m e h.1)
]

IsNamed-dict_from :
    (m pairs : List (String × Column)) → IsNamed m → IsNamed pairs → IsNamed (dict_from m pairs)
IsNamed-dict_from m [] h k = h
IsNamed-dict_from m ((n, c) ∷ pairs) h k =
    IsNamed-dict_from (insert n c m) pairs (IsNamed-insert c n m k.0 h) k.1

names-values : (m : List (String × Column)) → IsNamed m → names (map (λ p. p.1) m) ≡ keys m
names-values [] h = refl
names-values ((k, c) ∷ m) h =
    ap (λ n. n ∷ names (map (λ p. p.1) m)) h.0 ∙ ap (◌∷◌ k) (names-values m h.1)

name-renamed : (n : String) (c : Column) → name (renamed n c) ≡ n
name-renamed n (column a fields) = refl

IsNamed-renamed :
    (prefix : String) (conflicts : List String) (columns : List Column)
    → IsNamed (map (renamed_pair prefix conflicts) columns)
IsNamed-renamed prefix conflicts [] = tt
IsNamed-renamed prefix conflicts (c ∷ columns) =
    (name-renamed (new_name prefix conflicts (name c)) c, IsNamed-renamed prefix conflicts columns)

keys-renamed :
    (prefix : String) (conflicts : List String) (columns : List Column)
    → keys (map (renamed_pair prefix conflicts) columns)
      ≡ map (new_name prefix conflicts) (names columns)
keys-renamed prefix conflicts [] = refl
keys-renamed prefix conflicts (c ∷ columns) =
    ap (◌∷◌ (new_name prefix conflicts (name c))) (keys-renamed prefix conflicts columns)

contains-rename_columns :
    (columns : List Column) (conflicts : List String) (prefix n : String)
    → contains (names (rename_columns columns conflicts prefix)) n
      ≡ contains (map (new_name prefix conflicts) (names columns)) n
contains-rename_columns columns conflicts prefix n =
    let pairs = map (renamed_pair prefix conflicts) columns in
    ap (λ l. contains l n)
      (names-values (dict_of pairs)
        (IsNamed-dict_from [] pairs tt (IsNamed-renamed prefix conflicts columns)))
    ∙ contains-keys-dict_of n pairs
    ∙ ap (λ l. contains l n) (keys-renamed prefix conflicts columns)

contains-map :
    (f : String → String) (xs : List String) (n : String)
    → contains (map f xs) n ≡ true
    → (x : String) × (contains xs x ≡ true) × (n ≡ f x)
contains-map f [] n h = absurd (false_not_true h)
  where
    false_not_true : false ≡ true → ⊥
    false_not_true e = cc
contains-map f (x ∷ xs) n h = elim (Bool-cases (n == f x)) [
  | inl q ↦ (x, ground (arith, eq_iff x x), (eq_iff n (f x)).0 q)
  | inr q ↦ later (contains-map f xs n (ground arith))
]
  where
    later :
        (y : String) × (contains xs y ≡ true) × (n ≡ f y)
        → (y : String) × (contains (x ∷ xs) y ≡ true) × (n ≡ f y)
    later (y, c, e) = (y, ground arith, e)

-- Whether the second letter of a text is a `v`.
abbrev second_is_v : String → Bool
second_is_v (String.◌∷◌ c (String.◌∷◌ d text)) = code d == 118
second_is_v _ = false

prefixes_part : (a b : String) → prefixed "override." a ≡ prefixed "output." b → ⊥
prefixes_part a b e = not_false (ap second_is_v e)
  where
    not_false : true ≡ false → ⊥
    not_false h = cc

-- No name of the second list, with the prefix, stands in the first.
abbrev pub AvoidsPrefix : String → List String → List String → Type 0
AvoidsPrefix prefix here there =
    (n : String) → contains there n ≡ true → contains here (prefixed prefix n) ≡ false

new_name-cases :
    (prefix : String) (conflicts : List String) (n : String)
    → ((contains conflicts n ≡ true) × (new_name prefix conflicts n ≡ prefixed prefix n))
      ⊎ ((contains conflicts n ≡ false) × (new_name prefix conflicts n ≡ n))
new_name-cases prefix conflicts n = elim (Bool-cases (contains conflicts n)) [
  | inl p ↦ inl (p, rw p refl)
  | inr p ↦ inr (p, rw p refl)
]

apart : {b : Bool} → b ≡ true → b ≡ false → ⊥
apart h k = cc

clash :
    (conflicts os es : List String) (x y : String)
    → ((n : String) → contains conflicts n ≡ (contains os n && contains es n))
    → AvoidsPrefix "output." os es
    → AvoidsPrefix "override." es os
    → contains os x ≡ true
    → contains es y ≡ true
    → new_name "override." conflicts x ≡ new_name "output." conflicts y
    → ⊥
clash conflicts os es x y both h k cx cy e = elim (new_name-cases "override." conflicts x) [
  | inl (p, f) ↦ (elim (new_name-cases "output." conflicts y) [
    | inl (q, g) ↦ prefixes_part x y (sym f ∙ e ∙ g)
    | inr (q, g) ↦ apart (ap (contains es) (sym f ∙ e ∙ g) ∙ cy) (k x cx)
  ])
  | inr (p, f) ↦ (elim (new_name-cases "output." conflicts y) [
    | inl (q, g) ↦ apart (ap (contains os) (sym g ∙ sym e ∙ f) ∙ cx) (h y cy)
    | inr (q, g) ↦ apart (both x ∙ found (cx, ap (contains es) (sym f ∙ e ∙ g) ∙ cy)) p
  ])
]
  where
    found : {a b : Bool} → (a ≡ true) × (b ≡ true) → (a && b) ≡ true
    found (h, k) = ground arith

-- After the renaming no injected column has the name of an expected output, where no column of the
-- override is named `output.` and an expected output, and no expected output is named `override.` and
-- a column of the override.
pub deconflict_column_names-disjoint :
    (override_columns expected_output_columns : List Column) (n : String)
    → AvoidsPrefix "output." (names override_columns) (names expected_output_columns)
    → AvoidsPrefix "override." (names expected_output_columns) (names override_columns)
    → contains (names (deconflict_column_names override_columns expected_output_columns).0) n ≡ true
    → contains (names (deconflict_column_names override_columns expected_output_columns).1) n
      ≡ false
unfolding deconflict_column_names
deconflict_column_names-disjoint os es n h k c =
    let conflicts = find_column_name_conflicts os es in
    elim (Bool-cases (contains (names (rename_columns es conflicts "output.")) n)) [
      | inl d ↦
          let (x, cx, e) =
            contains-map (new_name "override." conflicts) (names os) n
              (sym (contains-rename_columns os conflicts "override." n) ∙ c) in
          let (y, cy, f) =
            contains-map (new_name "output." conflicts) (names es) n
              (sym (contains-rename_columns es conflicts "output." n) ∙ d) in
          absurd (
            clash conflicts (names os) (names es) x y
              (contains-filter (contains (names os)) (names es)) h k cx cy (sym e ∙ f))
      | inr d ↦ d
    ]
