-- ===== src/Trace.antt =====
-- app/runtime/trace.py: the walk of one row of a run back to its source.
pub mod Frames
pub mod FanIn
pub mod Step
pub mod Walk
pub mod Hops
pub mod Landing
pub mod Origin
pub mod Linked
pub mod Chained
pub mod Traced
pub mod Picked
pub mod Chosen
pub mod Used
pub mod Sampled
