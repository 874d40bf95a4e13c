-- ===== src/Manager.antt =====
-- The connection manager of client/connection_manager.go: the generations of server connections, their
-- phases and the counters of each endpoint, and the published connection with its reconnects.
pub mod State
pub mod Generations
pub mod Publication
pub mod Run
pub mod Tallied
pub mod Kept
pub mod Moves
pub mod Counted
pub mod Accounting
mod Examples
pub mod Published
pub mod Stays
pub mod Replaced
pub mod Replacing
pub mod Exclusive
pub mod Histories
