-- ===== src/Miner.antt =====
-- treeminer-rs/crates/treeminer: the binary's own path of a find.
pub mod Find
