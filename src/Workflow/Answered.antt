-- ===== src/Workflow/Answered.antt =====
-- The resolved stages, read from their dictionary in the given order.
use carbonpaper.Prelude.{
  String, true, false, some, List, [], ◌∷◌, map, lookup, lookup-insert, insert, string_eq, nat_eq,
  >>=_of_ok, ◌≡◌, refl, sym, ◌∙◌, ap, arith, contains, Bool-cases, inl, inr, All, All-map, Memᴰ,
  Option, none, ok, ◌==◌, eq_iff,
}
use carbonpaper.Stage.{Stage}
use carbonpaper.Workflow.Checks.{stage_graph}
use carbonpaper.Workflow.Graph.{ids}
use carbonpaper.Workflow.RowTypes.{require_key}
use carbonpaper.Workflow.Resolve.{WorkflowStage, read_resolved}
use carbonpaper.Workflow.Found.{IsResolved, FedBy, IsFedFrom, Under, Has, FedBy-All}

pub fresh_rest :
    (m : List (String × WorkflowStage)) (w : WorkflowStage) (rest : List Stage)
    → contains (ids stage_graph rest) w.stage.id ≡ false
    → All (λ s. lookup s.id m ≡ none) rest
    → All (λ s. lookup s.id (insert w.stage.id w m) ≡ none) rest
fresh_rest m w [] h k = tt
fresh_rest m w (s ∷ rest) h k = (
  ground (
    arith,
    h,
    k.0,
    eq_iff s.id w.stage.id,
    eq_iff w.stage.id s.id,
    lookup-insert w.stage.id s.id w m,
  ),
  fresh_rest m w rest (ground (arith, h)) k.1,
)

require_key-ok :
    (k : String) (m : List (String × WorkflowStage)) (w : WorkflowStage)
    → lookup k m ≡ some w
    → require_key k m ≡ ok w
unfolding require_key
require_key-ok k m w e = ground arith

-- The stages that were resolved, read in the given order.
pub record IsAnswer (m : List (String × WorkflowStage)) (stages : List Stage)
    (ws : List WorkflowStage) : Type 0 where
  pub answered : read_resolved m stages ≡ ok ws
  pub same : map (λ w. w.stage) ws ≡ stages
  pub holds : All (λ w. IsResolved w × FedBy (Under m) w) ws
  pub under :
      (i : String) (u : WorkflowStage)
      → contains (ids stage_graph stages) i ≡ true
      → lookup i m ≡ some u
      → Memᴰ u ws

pub read_resolved-IsAnswer :
    (m : List (String × WorkflowStage)) (stages : List Stage)
    → All (Has m) stages
    → (ws : List WorkflowStage) × IsAnswer m stages ws
unfolding read_resolved
read_resolved-IsAnswer m [] h =
    ([], record { answered = refl; same = refl; holds = tt; under = λ i u c e. cc })
read_resolved-IsAnswer m (s ∷ stages) ((w, e, f, found, fed), h) =
    let (ws, r) = read_resolved-IsAnswer m stages h in
    (
      w ∷ ws,
      record {
        answered = >>=_of_ok _ _ (require_key-ok s.id m w e) (>>=_of_ok _ _ r.answered refl);
        same = cc (f, r.same);
        holds = ((found, fed), r.holds);
        under = λ i u c g. elim (Bool-cases (i == s.id)) [
          | inl q ↦ Memᴰ.head (some_inj (sym g ∙ ap (λ k. lookup k m) ((eq_iff i s.id).0 q) ∙ e))
          | inr q ↦ Memᴰ.tail (r.under i u (ground (arith, c)) g)
        ];
      },
    )
  where
    some_inj : {a b : WorkflowStage} → ◌≡◌ {A = Option WorkflowStage} (some a) (some b) → a ≡ b
    some_inj g = cc

pub IsAnswer-IsFedFrom :
    (m : List (String × WorkflowStage)) (stages : List Stage) (ws : List WorkflowStage)
    → IsAnswer m stages ws
    → ((i : String) (u : WorkflowStage)
        → lookup i m ≡ some u
        → contains (ids stage_graph stages) i ≡ true)
    → All (λ w. IsResolved w × IsFedFrom ws w) ws
IsAnswer-IsFedFrom m stages ws r inside =
    All-map
      (λ w (found, fed). (
        found,
        FedBy-All (Under m) (λ i u. Memᴰ u ws) w.inputs (λ i u e. r.under i u (inside i u e) e) fed,
      ))
      ws r.holds
