-- ===== src/Submit.antt =====
-- treeminer-rs/crates/tm-submit: classification of the server's answers, the circuit breaker, the
-- drain order and pacing, the difficulty margin, and the loop that drives them.
pub mod Breaker
pub mod Margin
pub mod Drain
pub mod ClockTime
pub mod Json
pub mod Classifier
pub mod Manager
