-- ===== src/Executor/Loop/Ran.antt =====
-- The whole loop: every stage is settled, or the run is cancelled at one.
use mathlib.Core.List.{append-nil}
use carbonpaper.Prelude.{
  ℕ, suc, ◌≡◌, refl, sym, ◌∙◌, ap, subst, inl, inr, Bool, true, false, Option, some, none, List, [],
  ◌∷◌, ◌++◌, All, All-map, string_eq, beq_self, arith,
}
use carbonpaper.Workflow.Resolve.{WorkflowStage}
use carbonpaper.Executor.Runtime.{RunContext, RunIdentity, Runtime}
use carbonpaper.Executor.Loop.{
  consume_for, consume_cancel, take_turn, unless_cancelled, behind_checkpoint, run_from,
}
use carbonpaper.Executor.Progress.{Progress}
use carbonpaper.Executor.Loop.Turn.{refs, Settled, Turned}
use carbonpaper.Executor.Loop.Took.{take_turn-Turned, take_turn-Took}
use carbonpaper.Executor.Loop.Noted.{Took}
use carbonpaper.Executor.Loop.Between.{
  InOrder, Between, Settled-world, Between-world, Between-next, done-Settled,
}
use carbonpaper.Executor.Loop.Stopped.{All_refl, Ran, apart_rest, Ran-later}

module _ {Row Usage World : Type 0} (runtime : Runtime Row Usage World) (ctx : RunContext)
    (ordered : List WorkflowStage) where
  -- The checkpoint reads the outside world, and changes no more than that.
  consume_cancel-world :
      (p : Progress Row Usage World)
      → (world : World) × (cancel : Bool) × (consume_cancel runtime ctx p
          ≡ (cancel, record p { world = world }))
  unfolding consume_cancel
  consume_cancel-world p = by_identity ctx.identity
    where
      by_identity :
          (o : Option RunIdentity)
          → (world : World) × (cancel : Bool) × (consume_for runtime ctx o p
              ≡ (cancel, record p { world = world }))
      by_identity none = (p.world, false, refl)
      by_identity (some identity) =
          let answer = runtime.consume_cancel identity p.world in (answer.1, answer.0, refl)

  -- Each stage has its turn until the loop ends or a cancellation stops it.
  pub run_from-Ran :
      (index : ℕ) (done rest : List WorkflowStage) (p : Progress Row Usage World)
      → Between done rest p
      → InOrder rest
      → Ran index done rest p (run_from runtime ctx ordered index rest p)
  unfolding run_from
  run_from-Ran index done [] p b o = inl (subst (λ l. Between l [] p) (sym (append-nil done)) b)
  run_from-Ran index done (ws ∷ rest) p b o =
      let (world, cancel, e) = consume_cancel-world p in
      by_checkpoint world cancel e
        (λ r b'. run_from-Ran (suc index) (done ++ ws ∷ []) rest r b' o.1.1)
    where
      turn : World → Progress Row Usage World
      turn world = take_turn runtime ctx ordered index ws (record p { world = world })

      checked : Bool × Progress Row Usage World → Progress Row Usage World
      checked =
          behind_checkpoint runtime ctx ordered index ws
            (run_from runtime ctx ordered (suc index) rest)

      stepped :
          (world : World)
          → (consume_cancel runtime ctx p ≡ (false, record p { world = world }))
          → run_from runtime ctx ordered index (ws ∷ rest) p
            ≡ unless_cancelled runtime ctx ordered
                (run_from runtime ctx ordered (suc index) rest)
                (turn world)
                (turn world).cancel_at_index
      stepped world e = ap checked e

      turned : (world : World) → Turned ws.stage.id (record p { world = world }) (turn world)
      turned world = take_turn-Turned runtime ctx ordered index ws (record p { world = world })

      turned_from : (world : World) → Turned ws.stage.id p (turn world)
      turned_from world =
          let t = turned world in
          record { records = t.records; outputs = t.outputs; blocks = t.blocks; halts = t.halts }

      between : (world : World) → Between done (ws ∷ rest) (record p { world = world })
      between world = Between-world done (ws ∷ rest) p world b

      Later : Type 0
      Later =
          (r : Progress Row Usage World)
          → Between (done ++ ws ∷ []) rest r
          → Ran (suc index) (done ++ ws ∷ []) rest r
              (run_from runtime ctx ordered (suc index) rest r)

      goes_on :
          (world : World)
          → (consume_cancel runtime ctx p ≡ (false, record p { world = world }))
          → Later
          → Took index ws (record p { world = world }) (turn world)
          → Ran index done (ws ∷ rest) p (run_from runtime ctx ordered index (ws ∷ rest) p)
      goes_on world e rec (inl (going, settled)) =
          let eq : run_from runtime ctx ordered index (ws ∷ rest) p
              ≡ run_from runtime ctx ordered (suc index) rest (turn world) =
            stepped world e
            ∙ ap
                (unless_cancelled runtime ctx ordered
                  (run_from runtime ctx ordered (suc index) rest) (turn world))
                going in
          subst (Ran index done (ws ∷ rest) p) (sym eq) (
            Ran-later index ws done rest p (turn world) _ (turned_from world) o (
              rec (turn world) (
                Between-next ws done rest (record p { world = world }) (turn world) (between world)
                  o (turned world) going settled)))
      goes_on world e rec (inr (at, status)) =
          let eq : run_from runtime ctx ordered index (ws ∷ rest) p ≡ turn world =
            stepped world e
            ∙ ap
                (unless_cancelled runtime ctx ordered
                  (run_from runtime ctx ordered (suc index) rest) (turn world))
                at in
          subst (Ran index done (ws ∷ rest) p) (sym eq) (
            inr (record {
              before = [];
              stage = ws;
              after = rest;
              split = refl;
              at_index = at ∙ ap some (omega arith);
              settled =
                  subst (λ l. All (λ w. Settled w (turn world)) l) (sym (append-nil done))
                    (done-Settled ws done rest (record p { world = world }) (turn world)
                      (between world) o (turned world) done (between world).settled b.past);
              untouched =
                  apart_rest index ws done rest p (turn world) (turn world) (turned_from world) o
                    rest o.1.0 (All_refl _ rest);
              stopped = inr status;
            }))

      by_checkpoint :
          (world : World) (cancel : Bool)
          → (consume_cancel runtime ctx p ≡ (cancel, record p { world = world }))
          → Later
          → Ran index done (ws ∷ rest) p (run_from runtime ctx ordered index (ws ∷ rest) p)
      by_checkpoint world true e rec =
          let q : Progress Row Usage World = record p {
            world = world;
            cancel_at_index = some index;
          } in
          let eq : run_from runtime ctx ordered index (ws ∷ rest) p ≡ q = ap checked e in
          subst (Ran index done (ws ∷ rest) p) (sym eq) (
            inr (record {
              before = [];
              stage = ws;
              after = rest;
              split = refl;
              at_index = ap some (omega arith);
              settled =
                  subst (λ l. All (λ w. Settled w q) l) (sym (append-nil done))
                    (All-map (Settled-world p world (some index)) done b.settled);
              untouched = All_refl _ rest;
              stopped = inl refl;
            }))
      by_checkpoint world false e rec = goes_on world e rec (
          take_turn-Took runtime ctx ordered index ws (record p { world = world }) b.going
            (All-map (λ i h. ground arith) (refs ws) o.0)
            (b.fresh ws.stage.id (ground (arith, beq_self ws.stage.id))).0
            (b.fresh ws.stage.id (ground (arith, beq_self ws.stage.id))).1)
