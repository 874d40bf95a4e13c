-- ===== src/Admission.antt =====
-- The limits of one TCP source of a mesh server: flows, their setups and their HTTP requests, of
-- mesh/admission.go. Leases stand in lists at their index, with their `released` flag; a number with
-- no lease stands for nil.
use qmux.Base.{
  ℕ, ◌+◌, ◌-◌, Bool, true, false, not, Option, none, some, List, [], ◌∷◌, ◌++◌, ltb, leb, ◌==◌,
  if◌then◌else◌, length, get_elem?, set,
}
pub mod Leases
mod Examples

pub data Error : Type 0 where
  source_closed flow_capacity setup_capacity request_capacity : Error
  not_http_source flow_released : Error

pub data Result {ℓ} (A : Type ℓ) : Type ℓ where
  ok : A → Result A
  err : Error → Result A

pub record TcpSource : Type 0 where
  pub max_tcp_connections : ℕ
  pub max_pending_tcp_setups : ℕ
  pub request_limit : ℕ
  pub closed : Bool
  pub flows : ℕ
  pub setups : ℕ
  pub requests : ℕ
  pub flow_high : ℕ
  pub setup_high : ℕ
  pub request_high : ℕ
  pub flow_leases : List Bool
  pub setup_leases : List Bool
  pub request_leases : List Bool

-- `newTCPSource`.
unfoldable pub new_tcp_source : ℕ → ℕ → ℕ → TcpSource
new_tcp_source max_connections max_setups request_limit = record {
  max_tcp_connections = max_connections;
  max_pending_tcp_setups = max_setups;
  request_limit = request_limit;
  closed = false;
  flows = 0;
  setups = 0;
  requests = 0;
  flow_high = 0;
  setup_high = 0;
  request_high = 0;
  flow_leases = [];
  setup_leases = [];
  request_leases = [];
}

-- `close`.
unfoldable pub close : TcpSource → TcpSource
close s = record s { closed = true }

abbrev pub higher : ℕ → ℕ → ℕ
higher a b = if ltb a b then b else a

-- `beginFlow`.
unfoldable pub begin_flow : TcpSource → TcpSource × Result ℕ
begin_flow s =
    if s.closed
    then (s, err source_closed)
    else if leb s.max_tcp_connections s.flows
    then (s, err flow_capacity)
    else (
      record s {
        flows = s.flows + 1;
        flow_high = higher s.flow_high (s.flows + 1);
        flow_leases = s.flow_leases ++ (false ∷ []);
      },
      ok (length s.flow_leases),
    )

-- `flowLease.release`.
unfoldable pub release_flow : TcpSource → ℕ → TcpSource × Bool
release_flow s f = elim (get_elem? s.flow_leases f) [
  | none ↦ (s, false)
  | some true ↦ (s, false)
  | some false ↦ (record s { flows = s.flows - 1; flow_leases = set s.flow_leases f true }, true)
]

-- `beginSetupLocked`.
unfoldable pub begin_setup_locked : TcpSource → TcpSource × Result ℕ
begin_setup_locked s = if leb s.max_pending_tcp_setups s.setups then (s, err setup_capacity) else (
  record s {
    setups = s.setups + 1;
    setup_high = higher s.setup_high (s.setups + 1);
    setup_leases = s.setup_leases ++ (false ∷ []);
  },
  ok (length s.setup_leases),
)

-- `beginSetup`.
unfoldable pub begin_setup : TcpSource → ℕ → TcpSource × Result ℕ
unfolding begin_setup_locked
begin_setup s f = elim (get_elem? s.flow_leases f) [
  | none ↦ (s, err flow_released)
  | some released ↦
      let granted = begin_setup_locked s in
      if s.closed
      then (s, err source_closed)
      else if released
      then (s, err flow_released)
      else granted
]

-- `setupLease.claim`: the lease is released, its setup stays counted until `settle`.
unfoldable pub claim : TcpSource → ℕ → TcpSource × Bool
claim s l = elim (get_elem? s.setup_leases l) [
  | none ↦ (s, false)
  | some true ↦ (s, false)
  | some false ↦ (record s { setup_leases = set s.setup_leases l true }, true)
]

-- `setupLease.live`.
unfoldable pub live : TcpSource → ℕ → Bool
live s l = elim (get_elem? s.setup_leases l) [ none ↦ false | some released ↦ not released ]

-- `setupLease.release`, and `complete`.
unfoldable pub release_setup : TcpSource → ℕ → TcpSource × Bool
release_setup s l = elim (get_elem? s.setup_leases l) [
  | none ↦ (s, false)
  | some true ↦ (s, false)
  | some false ↦
      (record s { setups = s.setups - 1; setup_leases = set s.setup_leases l true }, true)
]

-- `setupLease.settle`.
unfoldable pub settle : TcpSource → TcpSource
settle s = record s { setups = s.setups - 1 }

abbrev begin_request_live : TcpSource → TcpSource × Result ℕ
begin_request_live s =
    if s.request_limit == 0
    then (s, err not_http_source)
    else if leb s.request_limit s.requests
    then (s, err request_capacity)
    else (
      record s {
        requests = s.requests + 1;
        request_high = higher s.request_high (s.requests + 1);
        request_leases = s.request_leases ++ (false ∷ []);
      },
      ok (length s.request_leases),
    )

-- `beginRequest`.
unfoldable pub begin_request : TcpSource → ℕ → TcpSource × Result ℕ
begin_request s f = elim (get_elem? s.flow_leases f) [
  | none ↦ (s, err flow_released)
  | some released ↦
      if s.closed
      then (s, err source_closed)
      else if released
      then (s, err flow_released)
      else begin_request_live s
]

-- `requestLease.release`.
unfoldable pub release_request : TcpSource → ℕ → TcpSource × Bool
release_request s l = elim (get_elem? s.request_leases l) [
  | none ↦ (s, false)
  | some true ↦ (s, false)
  | some false ↦
      (record s { requests = s.requests - 1; request_leases = set s.request_leases l true }, true)
]
