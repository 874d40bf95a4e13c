-- ===== src/Manager/State.antt =====
-- The data of client/connection_manager.go. A connection is an index into `conns`; its capacity
-- endpoint is an index into `endpoints`, and −1 is `none`.
use qmux.Base.{ℕ, Bool, true, false, Option, List}
use qmux.Outbound.Endpoint.{Endpoint}

abbrev pub Name : Type 0
Name = List ℕ

pub data Phase : Type 0 where
  generation_none handshaking pending registered retiring generation_done : Phase

abbrev pub phase_eq : Phase → Phase → Bool
phase_eq generation_none generation_none = true
phase_eq handshaking handshaking = true
phase_eq pending pending = true
phase_eq registered registered = true
phase_eq retiring retiring = true
phase_eq generation_done generation_done = true
phase_eq _ _ = false

-- `ServerConnection`, as far as the manager keeps it.
pub record Conn : Type 0 where
  pub server_addr : Name
  pub capacity_endpoint : Option ℕ
  pub capacity_phase : Phase
  pub closed : Bool
  pub on_closed : Bool

-- `clientEndpointPhases`.
pub record EndpointPhases : Type 0 where
  pub endpoint : Name
  pub handshaking_count : ℕ
  pub pending_count : ℕ
  pub registered_count : ℕ
  pub retiring_count : ℕ
  pub generation_high_water : ℕ
  pub accounting_faults : ℕ
  pub lifecycle : Endpoint

-- `ConnectionManager`.
pub record Manager : Type 0 where
  pub manager_closed : Bool
  pub endpoints : List EndpointPhases
  pub conns : List Conn
