-- ===== src/Trace/Used.antt =====
-- The choices that a caller gave a trace, and where its walk used them.
use carbonpaper.Prelude.{
  ◌≡◌, String, Option, some, none, List, [], ◌∷◌, ℤ, Result, ok, err, string_eq, int_eq,
}
use carbonpaper.Trace.Frames.{RunFrames}
use carbonpaper.Trace.FanIn.{RowSampleChoice, TraceError}
use carbonpaper.Trace.Step.{Manifest, StageTransform, Walked, Trace}
use carbonpaper.Trace.Chained.{Chain}
use carbonpaper.Trace.Chosen.{UsedAt}

module _ (manifest : Manifest) (frames : RunFrames) where
  -- The steps of a walk from a row start at that row.
  Starts : String → ℤ → List StageTransform → Type 0
  Starts sid r [] = Unit
  Starts sid r (t ∷ _) = (t.stage_id ≡ sid) × (t.row_ordinal ≡ r)

  WalkUsed : String → ℤ → List RowSampleChoice → Option Walked → Type 0
  WalkUsed sid r pending none = Unit
  WalkUsed sid r pending (some (err e)) = Unit
  WalkUsed sid r pending (some (ok (steps, last, left))) =
      Starts sid r steps × UsedAt manifest frames pending steps left

  OfTrace : String → ℤ → List RowSampleChoice → Option (Result TraceError Trace) → Type 0
  OfTrace sid r choices none = Unit
  OfTrace sid r choices (some (err e)) = Unit
  OfTrace sid r choices (some (ok trace)) =
      Chain manifest frames sid r trace.steps trace.last
      × UsedAt manifest frames choices trace.steps []
