-- ===== src/Journal.antt =====
-- treeminer-rs/crates/tm-journal: the durable journal of finds.
pub mod Fallback
pub mod Table
pub mod Finds
pub mod Counts
pub mod Bridge
