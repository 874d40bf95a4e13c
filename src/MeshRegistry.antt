-- ===== src/MeshRegistry.antt =====
-- The registry of mesh/registry.go: the generations of mesh clients and peers on one server, their
-- prepared, current and retiring states, and the arbitration between two connections to one peer.
pub mod State
pub mod Groups
pub mod Removal
pub mod Steps
pub mod Run
pub mod Shrinks
pub mod Drops
pub mod Leaves
pub mod Joins
pub mod Entered
pub mod Bounded
pub mod Slots
pub mod Vacating
pub mod Retiring
pub mod Moves
pub mod Refinement
pub mod Termination
mod Examples
