-- ===== src/Core.antt =====
-- treeminer-rs/crates/tm-core: the data shared by every component, and the pure rules of mining.
pub mod Address
pub mod Batch
pub mod Encoding
pub mod Matching
pub mod Types
