-- ===== src/ClientUdp.antt =====
-- The UDP sessions of a client, of client/udp_handler.go: packets from the tunnel wait while the local
-- connection of their session is made, are written to it in order, and each session holds a permit.
pub mod State
pub mod Budget
pub mod Sessions
pub mod Handler
pub mod Run
pub mod Counted
pub mod Changes
pub mod Permits
pub mod Kept
pub mod Moved
pub mod Histories
mod Examples
