-- ===== src/StageChecks.antt =====
-- app/models/stages/: the column checks of single stage types against the schemas of their inputs.
pub mod Dedupe
pub mod DedupeDecided
pub mod Union
pub mod UnionAgrees
pub mod Explode
pub mod ExplodeNarrows
pub mod Join
pub mod JoinLands
pub mod SortRank
pub mod SortPlaces
