-- ===== src/Tests.antt =====
-- Sample stages, the code run on them, and each theorem at one of them.
mod Samples
mod Runs
mod Witnesses
mod StageWitnesses
mod TraceWitnesses
mod ReachWitnesses
mod PredicateWitnesses
mod ReshapeWitnesses
mod EvalWitnesses
mod ExecutorWitnesses
