-- ===== src/Platform.antt =====
-- treeminer-rs/crates/tm-platform: the client of the platform that leases the rig out.
pub mod Backoff
pub mod Coordinator
pub mod Envelope
pub mod Lease
pub mod Manager
pub mod Nonces
pub mod Proto
