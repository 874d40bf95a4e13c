-- ===== src/ClientUdp/State.antt =====
-- The data of client/udp_handler.go. A local connection is a number and stands for the session that is
-- made over it; `queued` and `sealed` keep what a session accepted and what it handed out to be written.
use qmux.Base.{ℕ, ◌*◌, Bool, Option, List}
use qmux.Datagram.{max_frag_payload}

abbrev pub udp_pending_packet_limit : ℕ
udp_pending_packet_limit = 8

abbrev pub udp_pending_backing_limit : ℕ
udp_pending_backing_limit = 255 * max_frag_payload

abbrev pub default_max_local_udp_sessions : ℕ
default_max_local_udp_sessions = 256

-- `udpSessionBudget`; the channel of slots is the number of its elements.
pub record Budget : Type 0 where
  pub limit : ℕ
  pub slots : ℕ
  pub permits_held : ℕ
  pub published_active : ℕ
  pub max_permits_held : ℕ
  pub limit_drops : ℕ
  pub accounting_faults : ℕ
  pub pending_drops : ℕ
  pub create_errors : ℕ
  pub write_errors : ℕ

pub data Phase : Type 0 where
  collecting draining ready closed : Phase

pub record Packet : Type 0 where
  pub payload : List ℕ
  pub retained : ℕ

pub record SessionState : Type 0 where
  pub id : ℕ
  pub phase : Phase
  pub fifo : List Packet
  pub retained_bytes : ℕ
  pub candidate : Option ℕ
  pub session : Option ℕ
  pub permit_released : Bool
  pub queued : List Packet
  pub sealed : List Packet

pub data Decision : Type 0 where
  dispatch_queued dispatch_pending_drop dispatch_retry : Decision
  dispatch_ready_write : ℕ → Decision

-- `UDPHandler`, with every session state ever made in `states`; `conns_closed` are the local
-- connections that were closed, the last one first.
pub record Handler : Type 0 where
  pub sessions : List (ℕ × ℕ)
  pub states : List SessionState
  pub budget : Budget
  pub conns_closed : List ℕ
