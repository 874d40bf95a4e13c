-- ===== src/Outbound.antt =====
-- The connection primitives of internal/outbound that clients, mesh clients and mesh peers share:
-- the published generation with its retry state, the owner of a generation's resources, and the
-- reconnect delay.
pub mod Endpoint
pub mod Owner
pub mod Delay
pub mod Reconnects
pub mod Ownership
mod Examples
