-- ===== src/Workflow/Cycle/Whites.antt =====
-- How many nodes are still white: what bounds the depth of the search.
use carbonpaper.Prelude.{
  ◌≤◌, ◌<◌, ◌≡◌, String, Bool, true, false, List, [], ◌∷◌, arith, string_eq, contains, length,
  filter, eq_iff,
}

module _ (p q : String → Bool) (sub : (n : String) → q n ≡ true → p n ≡ true) where
  pub count_mono : (nodes : List String) → length (filter q nodes) ≤ length (filter p nodes)
  count_mono [] = omega arith
  count_mono (n ∷ nodes) = ground (arith, count_mono nodes, sub n)

  pub count-lt :
      (node : String) (nodes : List String)
      → p node ≡ true
      → q node ≡ false
      → contains nodes node ≡ true
      → length (filter q nodes) < length (filter p nodes)
  count-lt node [] hp hq h = cc
  count-lt node (n ∷ nodes) hp hq h =
      ground (arith, count_mono nodes, count-lt node nodes, sub n, eq_iff node n)
