-- ===== src/Flume.antt =====
-- crates/flume: the loop over turns (Loop) and its state (State), with the options, report and log
-- of a run (Run), the quota events (Quota), the memory that a turn reads (Packet) and the memories
-- that it stores (Memories); the lanes of a team (Lane); and the dispatch of a worker (Dispatch) with
-- its task (Delegation), budget (Envelope), receipts (Receipts) and redacted answer (Redact).
pub mod Quota
pub mod Run
pub mod Packet
pub mod Memories
pub mod State
pub mod Loop
pub mod Envelope
pub mod Lane
pub mod Redact
pub mod Delegation
pub mod Receipts
pub mod Dispatch
mod Tests
mod LaneTests
mod DispatchTests
