-- ===== src/Message.antt =====
-- Messages between the peers: their framing, their decoding and the negotiation they carry, of
-- protocol/codec.go and protocol/message.go.
pub mod Frame
pub mod Negotiation
pub mod Selected
pub mod Drain
mod Examples
