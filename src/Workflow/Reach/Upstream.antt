-- ===== src/Workflow/Reach/Upstream.antt =====
-- What `find_stages_reaching_report` and `find_stages_upstream_of` answer.
use mathlib.Core.List.{reverse, reverse-append, map-append}
use carbonpaper.Prelude.{
  ℕ, zero, suc, ◌+◌, ◌≡◌, refl, sym, ap, ◌∙◌, subst, String, Bool, true, false, Option, some, none,
  List, [], ◌∷◌, ◌++◌, map, contains, lookup, length, string_eq, ◌==◌, Result, ok, err, arith, inl,
  inr, ◌↔◌, Bool-cases, eq_iff,
}
use carbonpaper.Stage.{Stage}
use carbonpaper.Workflow.Checks.{stage_graph}
use carbonpaper.Workflow.Graph.{edges_of}
use carbonpaper.Workflow.Raised.{Raised, no_stage}
use carbonpaper.Workflow.Reach.{
  Loop, Edges, push_all, reach_new, reach_round, reach_from, weight, enough_rounds, report_inputs,
  find_stages_reaching_report, upstream_known, upstream_round, upstream_from, upstream_seeds,
  upstream_of_inputs, find_stages_upstream_of,
}
use carbonpaper.Workflow.Reach.Enough.{length-reverse, reach_from-ends}
use carbonpaper.Workflow.Reach.Closed.{IsUpstream, Closing-seeds, Collected, reach_from-Collected}

-- Both answer the same list, both raise, or neither has ended.
Similar : Loop → Loop → Type 0
Similar none none = Unit
Similar (some (ok a)) (some (ok b)) = a ≡ b
Similar (some (err _)) (some (err _)) = Unit
Similar _ _ = ⊥

reads : List (String × String) → List String
reads pending = map (λ p. p.1) pending

map-reverse : {A B : Type 0} (f : A → B) (xs : List A) → map f (reverse xs) ≡ reverse (map f xs)
map-reverse f [] = refl
map-reverse f (x ∷ xs) =
    ap (map f) (reverse-append (x ∷ []) xs)
    ∙ map-append f (reverse xs) (x ∷ [])
    ∙ ap (λ l. l ++ f x ∷ []) (map-reverse f xs)
    ∙ sym (reverse-append (f x ∷ []) (map f xs))

read_pairs :
    (reader : String) (inputs : List String) → reads (map (λ i. (reader, i)) inputs) ≡ inputs
unfolding reads
read_pairs reader [] = refl
read_pairs reader (i ∷ inputs) = ap (λ l. i ∷ l) (read_pairs reader inputs)

reads-push_all :
    (reader : String) (inputs : List String) (pending : List (String × String))
    → reads (push_all (map (λ i. (reader, i)) inputs) pending) ≡ push_all inputs (reads pending)
unfolding reads
reads-push_all reader inputs pending =
    map-append (λ p. p.1) (reverse (map (λ i. (reader, i)) inputs)) pending
    ∙ ap (λ l. l ++ map (λ p. p.1) pending)
        (map-reverse (λ p. p.1) (map (λ i. (reader, i)) inputs)
          ∙ ap reverse (read_pairs reader inputs))

-- Every id of the set is that of a stage.
AreStages : Edges → List String → Type 0
AreStages edges reached =
    (n : String)
    → contains reached n ≡ true
    → (inputs : List String) × (lookup n edges ≡ some inputs)

AreStages-cons :
    (edges : Edges) (id : String) (inputs reached : List String)
    → lookup id edges ≡ some inputs
    → AreStages edges reached
    → AreStages edges (id ∷ reached)
unfolding AreStages
AreStages-cons edges id inputs reached e h n c = elim (Bool-cases (n == id)) [
  | inl q ↦ (inputs, ap (λ k. lookup k edges) ((eq_iff n id).0 q) ∙ e)
  | inr q ↦ h n (ground arith)
]

-- The two loops take the same rounds.
upstream_from-Similar :
    (fuel : ℕ) (edges : Edges) (pending : List (String × String)) (reached : List String)
    → AreStages edges reached
    → Similar
        (reach_from fuel edges (reads pending) reached)
        (upstream_from fuel edges pending reached)
unfolding reach_from upstream_from Similar reads AreStages
upstream_from-Similar zero edges pending reached h = tt
upstream_from-Similar (suc fuel) edges [] reached h = refl
upstream_from-Similar (suc fuel) edges ((reader, current) ∷ pending) reached h =
    by_inputs (upstream_from-Similar fuel edges) (lookup current edges) refl
      (contains reached current) refl
  where
    Go : Type 0
    Go =
        (p : List (String × String)) (r : List String)
        → AreStages edges r
        → Similar (reach_from fuel edges (reads p) r) (upstream_from fuel edges p r)

    by_inputs :
        Go
        → (o : Option (List String)) → lookup current edges ≡ o
        → (b : Bool) → contains reached current ≡ b
        → Similar
            (reach_round (reach_from fuel edges) edges current (reads pending) reached b)
            (upstream_round (upstream_from fuel edges) reader current pending reached o)
    by_inputs go none e true c = absurd-of (sym e ∙ (h current c).1)
      where
        absurd-of :
            {A : Type 0} {x : List String} → ◌≡◌ {A = Option (List String)} none (some x) → A
        absurd-of f = cc
    by_inputs go none e false c =
        subst
          (λ o.
            Similar (reach_new (reach_from fuel edges) current (reads pending) reached o)
              (upstream_round (upstream_from fuel edges) reader current pending reached none))
          (sym e) tt
    by_inputs go (some inputs) e true c =
        subst
          (λ b.
            Similar (reach_from fuel edges (reads pending) reached)
              (upstream_known (upstream_from fuel edges) current inputs pending reached b))
          (sym c) (go pending reached h)
    by_inputs go (some inputs) e false c =
        subst
          (λ b.
            Similar
              (reach_new (reach_from fuel edges) current (reads pending) reached
                (lookup current edges))
              (upstream_known (upstream_from fuel edges) current inputs pending reached b))
          (sym c)
          (subst
            (λ o. Similar (reach_new (reach_from fuel edges) current (reads pending) reached o) (
              upstream_from fuel edges (push_all (map (λ i. (current, i)) inputs) pending)
                (current ∷ reached)))
            (sym e)
            (subst
              (λ l. Similar (reach_from fuel edges l (current ∷ reached)) (
                upstream_from fuel edges (push_all (map (λ i. (current, i)) inputs) pending)
                  (current ∷ reached)))
              (reads-push_all current inputs pending)
              (go (push_all (map (λ i. (current, i)) inputs) pending) (current ∷ reached)
                (AreStages-cons edges current inputs reached e h))))

of_Similar :
    (edges : Edges) (seeds : List String) (a b : Loop)
    → Similar a b
    → Collected edges seeds a
    → Collected edges seeds b
unfolding Similar Collected
of_Similar edges seeds none none s h = tt
of_Similar edges seeds (some (ok x)) (some (ok y)) s h =
    subst (λ l. Collected edges seeds (some (ok l))) s h
of_Similar edges seeds (some (err x)) (some (err y)) s h = h
of_Similar edges seeds none (some y) s h = absurd s
of_Similar edges seeds (some (ok x)) none s h = absurd s
of_Similar edges seeds (some (ok x)) (some (err y)) s h = absurd s
of_Similar edges seeds (some (err x)) none s h = absurd s
of_Similar edges seeds (some (err x)) (some (ok y)) s h = absurd s

ends_too :
    (a b : Loop) (r : Result Raised (List String))
    → Similar a b
    → a ≡ some r
    → (r' : Result Raised (List String)) × (b ≡ some r')
unfolding Similar
ends_too none b r s e = cc
ends_too (some x) (some y) r s e = (y, refl)
ends_too (some (ok x)) none r s e = absurd s
ends_too (some (err x)) none r s e = absurd s

-- What a search answers: the ids upstream of its seeds; or it raises, and then one that is upstream
-- is no stage.
pub data Answer (edges : Edges) (seeds : List String) : Result Raised (List String) → Type 0 where
  collected :
      {reached : List String}
      → ((n : String) → (contains reached n ≡ true) ↔ IsUpstream edges seeds n)
      → Answer edges seeds (ok reached)
  dangling :
      {e : Raised} {n : String}
      → IsUpstream edges seeds n
      → lookup n edges ≡ none
      → Answer edges seeds (err e)

answered :
    (edges : Edges) (seeds : List String) (r : Result Raised (List String))
    → Collected edges seeds (some r)
    → Answer edges seeds r
unfolding Collected
answered edges seeds (ok reached) h = collected h
answered edges seeds (err e) (n, u, f) = dangling u f

-- The search for the stages that a report rests on ends. It answers exactly the ids upstream of the
-- reports' inputs, a report among them where one reads it in one or more steps; or it raises, and
-- then one of these is no stage of the list.
pub find_stages_reaching_report-Answer :
    (stages : List Stage)
    → (r : Result Raised (List String)) × (find_stages_reaching_report stages ≡ some r)
      × Answer (edges_of stage_graph stages) (report_inputs stages) r
unfolding find_stages_reaching_report
find_stages_reaching_report-Answer stages =
    let edges = edges_of stage_graph stages in
    let frontier = reverse (report_inputs stages) in
    let (r, e) = reach_from-ends (enough_rounds edges frontier) edges frontier [] (omega arith) in
    (
      r,
      e,
      answered edges (report_inputs stages) r (
          subst (Collected edges (report_inputs stages)) e (
            reach_from-Collected edges (report_inputs stages) (enough_rounds edges frontier)
              frontier [] (Closing-seeds edges (report_inputs stages)))),
    )

-- The search for the stages upstream of a stage ends. For an id that is no stage's it raises that;
-- for a stage it answers exactly the ids upstream of its inputs, itself among them where it reads
-- itself in one or more steps; or it raises, and then one of these is no stage of the list.
pub find_stages_upstream_of-Answer :
    (stages : List Stage) (id : String)
    → ((lookup id (edges_of stage_graph stages) ≡ none)
        → find_stages_upstream_of stages id ≡ some (err (no_stage id)))
      × ((inputs : List String)
          → lookup id (edges_of stage_graph stages) ≡ some inputs
          → (r : Result Raised (List String)) × (find_stages_upstream_of stages id ≡ some r)
            × Answer (edges_of stage_graph stages) inputs r)
unfolding find_stages_upstream_of AreStages reads
find_stages_upstream_of-Answer stages id =
    let edges = edges_of stage_graph stages in
    (
      λ e. ap (upstream_of_inputs edges id) e,
      λ inputs e.
          let fuel = suc (length inputs + weight edges []) in
          let seeds = upstream_seeds id inputs in
          let same =
            map-reverse (λ p. p.1) (map (λ i. (id, i)) inputs)
            ∙ ap reverse (read_pairs id inputs) in
          let (r, f) =
            reach_from-ends fuel edges (reverse inputs) [] (omega (arith, length-reverse inputs)) in
          let similar =
            subst (λ l. Similar (reach_from fuel edges l []) (upstream_from fuel edges seeds []))
              same (upstream_from-Similar fuel edges seeds [] (λ n c. cc)) in
          let (r', g) = ends_too _ _ r similar f in
          let all = of_Similar edges inputs _ _ similar (
            reach_from-Collected edges inputs fuel (reverse inputs) []
              (Closing-seeds edges inputs)) in
          (
            r',
            ap (upstream_of_inputs edges id) e ∙ g,
            answered edges inputs r' (subst (Collected edges inputs) g all),
          ),
    )
