-- ===== src/Pool.antt =====
-- The connection pool of server/pool: its state and operations, and what holds of them.
pub mod State
pub mod Registration
pub mod Retirement
pub mod Traffic
pub mod Balancer
pub mod Frames
pub mod Leases
pub mod Accounting
pub mod Run
pub mod Counted
pub mod Registry
pub mod Claims
pub mod Untouched
pub mod Registered
pub mod Selection
pub mod Admission
pub mod Bounded
pub mod Tracked
pub mod Carried
pub mod Drained
pub mod Signals
pub mod Idle
mod Examples
