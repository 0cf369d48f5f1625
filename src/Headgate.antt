-- ===== src/Headgate.antt =====
-- crates/headgate: the control plane that decides what enters an agent's committed context.
pub mod Text
pub mod Ccs
pub mod Gate
pub mod Cycle
pub mod Controller
pub mod Compressor
pub mod Tier
mod Tests
