-- ===== src/MeshRegistry/State.antt =====
-- The state of mesh/registry.go. A generation is named by its ID, under which `all` holds it; a
-- generation outside `all` is done, and no operation reads more of it. The entries of clients and of
-- peers are one record, whose group is empty for a peer; the closed channels of `changed` and
-- `group_changed` are counted.
use qmux.Base.{
  ℕ, ◌+◌, max, Bool, true, false, not, ◌&&◌, ◌||◌, Option, none, some, List, [], ◌==◌, leb, str_eq,
}
use qmux.Base.Bytes.{codes}
use qmux.Base.Assoc.{nat_eq, str_Eq, lookup, sum_by}
use qmux.Outbound.Endpoint.{Current, is}

abbrev pub Name : Type 0
Name = List ℕ

pub data Error : Type 0 where
  registry_stopped pending_capacity client_capacity peer_capacity stale_generation : Error
  client_group_conflict client_prepared client_current peer_prepared peer_current : Error
  peer_suppressed : Error

pub data Role : Type 0 where
  role_unknown role_client role_peer : Role

abbrev pub role_eq : Role → Role → Bool
role_eq role_unknown role_unknown = true
role_eq role_client role_client = true
role_eq role_peer role_peer = true
role_eq _ _ = false

pub data Direction : Type 0 where
  direction_inbound direction_outbound : Direction

abbrev pub is_outbound : Direction → Bool
is_outbound direction_inbound = false
is_outbound direction_outbound = true

pub data Phase : Type 0 where
  phase_pending phase_prepared phase_current phase_retiring phase_done : Phase

abbrev pub phase_eq : Phase → Phase → Bool
phase_eq phase_pending phase_pending = true
phase_eq phase_prepared phase_prepared = true
phase_eq phase_current phase_current = true
phase_eq phase_retiring phase_retiring = true
phase_eq phase_done phase_done = true
phase_eq _ _ = false

pub record ForwardingEligibility : Type 0 where
  pub session_ready : Bool
  pub declaration_ready : Bool
  pub l4_healthy : Bool

pub data InstanceL7Health : Type 0 where
  l7_unknown l7_healthy l7_failed : InstanceL7Health

pub record Generation : Type 0 where
  pub role : Role
  pub direction : Direction
  pub phase : Phase
  pub instance_id : Name
  pub group_id : Name
  pub peer_id : Name
  pub rule_version : ℕ
  pub forwarding : ForwardingEligibility
  pub l7_health : InstanceL7Health

-- `clientEntry` and `peerEntry`.
pub record Entry : Type 0 where
  pub entry_group : Name
  pub prepared : Option ℕ
  pub current : Current
  pub retiring : List (ℕ × ℕ)

pub record GroupRule : Type 0 where
  pub version : ℕ
  pub policy : Name

pub record Arbitration : Type 0 where
  pub arbitration_id : ℕ
  pub arbitration_peer : Name
  pub inbound : ℕ
  pub loser : ℕ
  pub loser_released : Bool

pub record Registry : Type 0 where
  pub closed : Bool
  pub changed : ℕ
  pub next_id : ℕ
  pub next_arb_id : ℕ
  pub max_pending : ℕ
  pub max_clients : ℕ
  pub max_peers : ℕ
  pub client_high : ℕ
  pub peer_high : ℕ
  pub pending_high : ℕ
  pub all : List (ℕ × Generation)
  pub clients : List (Name × Entry)
  pub peers : List (Name × Entry)
  pub arbitrations : List (Name × Arbitration)
  pub group_available : List (Name × Bool)
  pub group_rules : List (Name × GroupRule)
  pub group_changed : ℕ
  pub rotations : List (Name × ℕ)

-- `NewRegistry`.
unfoldable pub new_registry : ℕ → ℕ → ℕ → Registry
new_registry max_pending max_clients max_peers = record {
  closed = false;
  changed = 0;
  next_id = 0;
  next_arb_id = 0;
  max_pending = max_pending;
  max_clients = max_clients;
  max_peers = max_peers;
  client_high = 0;
  peer_high = 0;
  pending_high = 0;
  all = [];
  clients = [];
  peers = [];
  arbitrations = [];
  group_available = [];
  group_rules = [];
  group_changed = 0;
  rotations = [];
}

abbrev pub one_if : Bool → ℕ
one_if true = 1
one_if false = 0

abbrev pub has_role : Role → Generation → ℕ
has_role role g = one_if (role_eq g.role role)

abbrev pub is_pending : Generation → ℕ
is_pending g = one_if (role_eq g.role role_unknown && phase_eq g.phase phase_pending)

-- `countRoleLocked`, and `countPhaseLocked` for the pending generations.
abbrev pub count_role : Role → Registry → ℕ
count_role role r = sum_by (has_role role) r.all

abbrev pub count_pending : Registry → ℕ
count_pending r = sum_by is_pending r.all

-- The entries of a role, and the key of a generation among them.
abbrev pub entries : Role → Registry → List (Name × Entry)
entries role_unknown r = []
entries role_client r = r.clients
entries role_peer r = r.peers

abbrev pub with_entries : Role → List (Name × Entry) → Registry → Registry
with_entries role_unknown m r = r
with_entries role_client m r = record r { clients = m }
with_entries role_peer m r = record r { peers = m }

abbrev pub key_of : Generation → Name
key_of g = elim g.role [ role_unknown ↦ [] | role_client ↦ g.instance_id | role_peer ↦ g.peer_id ]

-- `isExactLocked`.
unfoldable pub is_exact : Registry → ℕ → Role → Phase → Bool
is_exact r g role phase = elim (lookup g r.all) [
  | none ↦ false
  | some gen ↦ role_eq gen.role role && phase_eq gen.phase phase
]

-- `signalLocked`.
abbrev pub signal : Registry → Registry
signal r = record r { changed = r.changed + 1 }

-- `updateRoleHighWaterLocked`.
abbrev pub update_high : Role → Registry → Registry
update_high role_unknown r = r
update_high role_client r = record r { client_high = max r.client_high (count_role role_client r) }
update_high role_peer r = record r { peer_high = max r.peer_high (count_role role_peer r) }

abbrev pub is_entry_current : Option Entry → ℕ → Bool
is_entry_current none g = false
is_entry_current (some e) g = is e.current (some g)

-- `isCurrentLocked`.
unfoldable pub is_current : Registry → ℕ → Bool
is_current r g = elim (lookup g r.all) [
  | none ↦ false
  | some gen ↦
      not r.closed
      && phase_eq gen.phase phase_current
      && is_entry_current (lookup (key_of gen) (entries gen.role r)) g
]

abbrev pub apply_latest_rules : Name
apply_latest_rules = codes "apply_latest_rules"

abbrev pub is_rule_ready : Option GroupRule → ℕ → Bool
is_rule_ready none rule_version = false
is_rule_ready (some rule) rule_version =
    not (rule_version == 0)
    && (leb rule.version rule_version || str_eq rule.policy apply_latest_rules)

abbrev pub is_eligible : ForwardingEligibility → Bool
is_eligible e = e.session_ready && e.declaration_ready && e.l4_healthy

-- `isForwardingReadyLocked`.
unfoldable pub is_forwarding_ready : Registry → ℕ → Bool
is_forwarding_ready r g = elim (lookup g r.all) [
  | none ↦ false
  | some gen ↦
      is_current r g
      && is_eligible gen.forwarding
      && (not (role_eq gen.role role_client)
          || is_rule_ready (lookup gen.group_id r.group_rules) gen.rule_version)
]
