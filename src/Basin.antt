-- ===== src/Basin.antt =====
-- crates/basin/src/lib.rs: the orchestration loop. Config has its configuration, state and events,
-- Worker the dispatch of one task, Claiming and Settling what comes before and after the dispatches,
-- Orchestrator the loop itself.
pub mod Config
pub mod Worker
pub mod Claiming
pub mod Settling
pub mod Orchestrator
mod Tests
