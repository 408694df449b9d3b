-- ===== src/Examples.antt =====
-- A small service, and runs of the operations on it.
pub mod Fixtures
mod Lifecycle
mod Sending
mod People
mod Polling
mod Runs
mod Outside
mod Calendar
