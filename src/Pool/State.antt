-- ===== src/Pool/State.antt =====
-- The state of server/pool/pool.go. Pointers are numbers: `conns` is the store of the `ClientConn`
-- objects, and reservations, retirements and leases stand in lists at their index. The int64
-- counters are numbers at which `-` would stop at 0; the invariants show that it never does.
use qmux.Base.{
  ℕ, ◌+◌, ◌%◌, ◌^◌, Bool, true, false, not, ◌&&◌, ◌||◌, Option, none, some, List, [], ◌∷◌, ltb, leb,
  ◌==◌, if◌then◌else◌, length, str_eq,
}
use qmux.Base.Assoc.{nat_eq, str_Eq, lookup}
use qmux.Base.Bytes.{codes}

pub data Error : Type 0 where
  no_clients_available no_healthy_clients no_eligible_clients accounting_fault : Error
  pending_registration_capacity client_generation_capacity : Error
  tcp_generation_connection_capacity tcp_generation_setup_capacity udp_generation_capacity : Error
  invalid_reservation nil_connection empty_client_id no_longer_pending already_exists : Error
  already_pending already_added id_changed selected_outside : Error

pub data Result {ℓ} (A : Type ℓ) : Type ℓ where
  ok : A → Result A
  err : Error → Result A

pub record Conn : Type 0 where
  pub id : List ℕ
  pub capabilities : List (List ℕ)
  pub healthy : Bool
  pub added : Bool
  pub active_conns : ℕ
  pub total_conns : ℕ
  pub tcp_pending : ℕ
  pub tcp_active : ℕ
  pub udp_sessions : ℕ
  pub tcp_stream_id : ℕ
  pub tcp_opened : Bool

pub data ReservationState : Type 0 where
  pending reserved committed aborted : ReservationState

-- `conn` and `id` are unset until `Reserve`.
pub record Reservation : Type 0 where
  pub conn : Option ℕ
  pub id : List ℕ
  pub state : ReservationState

-- `tcp_drained` holds what was sent on the channel; the fence -1, for no stream, is `none`.
pub record Retirement : Type 0 where
  pub conn : ℕ
  pub done : Bool
  pub tcp_drained : List (Option ℕ)
  pub drain_sent : Bool

pub data LeaseState : Type 0 where
  pending active released : LeaseState

pub record TcpLease : Type 0 where
  pub conn : ℕ
  pub state : LeaseState

pub record Limits : Type 0 where
  pub max_client_generations : ℕ
  pub max_pending_registrations : ℕ
  pub max_tcp_connections_per_generation : ℕ
  pub max_pending_tcp_setups_per_generation : ℕ
  pub max_udp_sessions_per_generation : ℕ

pub record CapacityState : Type 0 where
  pub high_water : ℕ
  pub drops : ℕ

-- `observe`.
abbrev pub observe : CapacityState → ℕ → CapacityState
observe s current = record s {
  high_water = if ltb s.high_water current then current else s.high_water;
}

abbrev pub drop_one : CapacityState → CapacityState
drop_one s = record s { drops = (s.drops + 1) % 2 ^ 64 }

pub record Pool : Type 0 where
  pub conns : ℕ → Conn
  pub reservation_objects : List Reservation
  pub retirement_objects : List Retirement
  pub leases : List TcpLease
  pub clients : List (List ℕ × ℕ)
  pub reservations : List (List ℕ × ℕ)
  pub retiring : List (ℕ × ℕ)
  pub server_pending : ℕ
  pub accounting_faults : ℕ
  pub limits : Limits
  pub pending_registrations : CapacityState
  pub client_generations : CapacityState
  pub tcp_connections : CapacityState
  pub pending_tcp_setups : CapacityState
  pub udp_sessions : CapacityState
  pub cached_clients : Option (List ℕ)
  pub balancer_counter : ℕ

abbrev pub no_counts : CapacityState
no_counts = record { high_water = 0; drops = 0 }

-- `NewWithLimits`, over the connection objects that callers will pass in.
unfoldable pub new_with_limits : (ℕ → Conn) → Limits → Pool
new_with_limits conns limits = record {
  conns = conns;
  reservation_objects = [];
  retirement_objects = [];
  leases = [];
  clients = [];
  reservations = [];
  retiring = [];
  server_pending = 0;
  accounting_faults = 0;
  limits = limits;
  pending_registrations = no_counts;
  client_generations = no_counts;
  tcp_connections = no_counts;
  pending_tcp_setups = no_counts;
  udp_sessions = no_counts;
  cached_clients = none;
  balancer_counter = 0;
}

-- `defaultLimits`.
abbrev pub default_limits : Limits
default_limits = record {
  max_client_generations = 16;
  max_pending_registrations = 128;
  max_tcp_connections_per_generation = 100;
  max_pending_tcp_setups_per_generation = 16;
  max_udp_sessions_per_generation = 256;
}

abbrev pub update : (ℕ → Conn) → ℕ → Conn → ℕ → Conn
update conns c conn d = if c == d then conn else conns d

abbrev pub is_some {ℓ} : {A : Type ℓ} → Option A → Bool
is_some none = false
is_some (some a) = true

-- Whether a map's entry is exactly this pointer.
abbrev pub points_to : Option ℕ → ℕ → Bool
points_to none c = false
points_to (some d) c = d == c

abbrev pub is_pending : ReservationState → Bool
is_pending ReservationState.pending = true
is_pending _ = false

abbrev pub is_reserved : ReservationState → Bool
is_reserved reserved = true
is_reserved _ = false

-- `clientGenerationCountLocked`.
abbrev pub client_generation_count : Pool → ℕ
client_generation_count p = length p.reservations + length p.clients + length p.retiring

-- `isCurrentLocked`; nil is `none`.
abbrev pub is_current : Pool → ℕ → Bool
is_current p c = not (str_eq (p.conns c).id []) && points_to (lookup (p.conns c).id p.clients) c

unfoldable pub contains : List (List ℕ) → List ℕ → Bool
contains [] s = false
contains (t ∷ ts) s = str_eq t s || contains ts s

abbrev pub tcp : List ℕ
tcp = codes "tcp"

abbrev pub udp : List ℕ
udp = codes "udp"

-- `isEligible`.
unfoldable pub is_eligible : Conn → List ℕ → Bool
unfolding contains
is_eligible conn protocol =
    conn.healthy
    && (str_eq protocol tcp || str_eq protocol udp)
    && contains conn.capabilities protocol

-- `tcpCapacityErrorLocked`.
unfoldable pub tcp_capacity_error : Pool → Conn → Option Error
tcp_capacity_error p conn =
    if leb p.limits.max_tcp_connections_per_generation (conn.tcp_pending + conn.tcp_active)
    then some tcp_generation_connection_capacity
    else if leb p.limits.max_pending_tcp_setups_per_generation conn.tcp_pending
    then some tcp_generation_setup_capacity
    else none
