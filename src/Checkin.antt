-- ===== src/Checkin.antt =====
-- workbuddy/checkin_state.go and workbuddy/checkin.go: the daily check-in of an account. `Attempt` is
-- the protocol with the upstream, `Runs` the store of results and retries, `Account` the handler.
pub mod Attempt
pub mod Claims
pub mod Counted
pub mod Retries
pub mod Runs
pub mod Account
pub mod Bounds
pub mod Kept
pub mod Handler
pub mod Checkpoint
pub mod History
mod Tests
