-- ===== src/Orchestrator.antt =====
-- internal/orchestrator: the dispatch of one lookup over the provider lanes.
pub mod Suitability
pub mod Lane
pub mod Dispatch
pub mod Ordered
pub mod Parallel
pub mod Mode
pub mod Examples
pub mod Races
