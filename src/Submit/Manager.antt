-- ===== src/Submit/Manager.antt =====
-- treeminer-rs/crates/tm-submit/src/manager.rs, transport.rs and journal.rs: the loop that drains
-- the journal to the server, over the interfaces of a journal and a transport.
-- `State` has the data and the monad of a step; `Confirm` what a `/get_block` answer proves, `Pace`
-- the backoff, `Observe` the difficulty and the server's clock, `Step` the margin and the probe,
-- `Send` the submission, and `Loop` the step as a whole with its fatal-error boundary. `Keep` has
-- the rules by which a step inherits a property of the journal.
pub mod State
pub mod Pace
pub mod Confirm
pub mod Observe
pub mod Step
pub mod Send
pub mod Loop
pub mod Keep
