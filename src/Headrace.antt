-- ===== src/Headrace.antt =====
-- The task store: crates/headrace. Tasks are Markdown files in status directories.
pub mod Store
pub mod Format
pub mod Files
pub mod Verifier
mod Tests
