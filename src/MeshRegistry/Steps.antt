-- ===== src/MeshRegistry/Steps.antt =====
-- How a generation enters the registry and becomes current: `BeginInbound`, `BeginOutboundPeer`,
-- `PrepareClient`, `PreparePeer`, `CompleteArbitration`, `CommitReceiver` and `CommitOutboundPeer`.
use qmux.Base.{
  ℕ, ◌+◌, ◌%◌, ◌^◌, max, Bool, true, false, not, ◌&&◌, ◌||◌, Option, none, some, [], ◌==◌, leb, ltb,
  str_eq, if◌then◌else◌,
}
use qmux.Base.Assoc.{nat_eq, str_Eq, lookup, insert}
use qmux.Outbound.Endpoint.{is_empty, is, publish}
use qmux.MeshRegistry.State.{
  Name, Entry, Registry, Role, role_unknown, role_client, role_peer, Direction, direction_inbound,
  direction_outbound, is_outbound, Generation, Phase, phase_pending, phase_prepared, phase_current,
  phase_retiring, Arbitration, l7_unknown, Error, registry_stopped, pending_capacity,
  client_capacity, peer_capacity, stale_generation, client_group_conflict, client_prepared,
  client_current, peer_prepared, peer_current, peer_suppressed, count_role, count_pending, entries,
  with_entries, key_of, is_exact, signal, update_high,
}
use qmux.MeshRegistry.Groups.{put}
use qmux.MeshRegistry.Removal.{finish_arbitration, find_arbitration, is_some, entry_of}

-- What an operation answers: an error, the ID of a generation, or an arbitration to settle.
pub data Answer : Type 0 where
  fails : Error → Answer
  grants : ℕ → Answer
  arbitrates : Arbitration → Answer

abbrev pub new_generation : Role → Direction → Phase → Name → Generation
new_generation role direction phase peer_id = record {
  role = role;
  direction = direction;
  phase = phase;
  instance_id = [];
  group_id = [];
  peer_id = peer_id;
  rule_version = 0;
  forwarding = record { session_ready = false; declaration_ready = false; l4_healthy = false };
  l7_health = l7_unknown;
}

abbrev pub fresh_id : Registry → ℕ
fresh_id r = (r.next_id + 1) % 2 ^ 64

-- `newGenerationLocked`.
abbrev pub add_generation : Generation → Registry → Registry
add_generation gen r = put (fresh_id r) gen (record r { next_id = fresh_id r })

abbrev pub update_pending_high : Registry → Registry
update_pending_high r = record r { pending_high = max r.pending_high (count_pending r) }

-- `BeginInbound`.
unfoldable pub begin_inbound : Registry → Registry × Answer
begin_inbound r =
    if r.closed
    then (r, fails registry_stopped)
    else if leb r.max_pending (count_pending r)
    then (r, fails pending_capacity)
    else (
      signal (
          update_pending_high
            (add_generation (new_generation role_unknown direction_inbound phase_pending []) r)),
      grants (fresh_id r),
    )

abbrev pub new_entry : Name → Entry
new_entry group = record { entry_group = group; prepared = none; current = none; retiring = [] }

abbrev pub entry_or : Name → Option Entry → Entry
entry_or group none = new_entry group
entry_or group (some e) = e

-- The generation takes the prepared place of its identity, in a new entry if there is none.
abbrev pub occupy : Role → Name → Name → ℕ → Registry → Registry
occupy role key group g r =
    with_entries role
      (insert key (record (entry_or group (lookup key (entries role r))) { prepared = some g })
        (entries role r))
      r

-- What is in the way of a peer's new generation.
abbrev pub peer_entry_error : Option Entry → Option Error
peer_entry_error none = none
peer_entry_error (some e) =
    if not (is_empty e.current)
    then some peer_current
    else if not (is_empty e.prepared)
    then some peer_prepared
    else none

abbrev pub outbound_error : Registry → Name → Option Error
outbound_error r peer =
    if r.closed
    then some registry_stopped
    else if is_some (lookup peer r.arbitrations)
    then some peer_suppressed
    else elim (peer_entry_error (lookup peer r.peers)) [
      | some e ↦ some e
      | none ↦ if leb r.max_peers (count_role role_peer r) then some peer_capacity else none
    ]

abbrev pub outbound_answer : Registry → Name → Option Error → Registry × Answer
outbound_answer r peer (some e) = (r, fails e)
outbound_answer r peer none = (
  signal (
      update_high role_peer (
        occupy role_peer peer [] (fresh_id r)
          (add_generation (new_generation role_peer direction_outbound phase_prepared peer) r))),
  grants (fresh_id r),
)

-- `BeginOutboundPeer`.
unfoldable pub begin_outbound_peer : Registry → Name → Registry × Answer
begin_outbound_peer r peer = outbound_answer r peer (outbound_error r peer)

abbrev pub client_entry_error : Option Entry → Name → Option Error
client_entry_error none group = none
client_entry_error (some e) group =
    if not (str_eq e.entry_group group)
    then some client_group_conflict
    else if not (is_empty e.current)
    then some client_current
    else if not (is_empty e.prepared)
    then some client_prepared
    else none

abbrev pub client_error : Registry → ℕ → Name → Name → Option Error
client_error r g instance_id group =
    if r.closed
    then some registry_stopped
    else if not (is_exact r g role_unknown phase_pending)
    then some stale_generation
    else elim (client_entry_error (lookup instance_id r.clients) group) [
      | some e ↦ some e
      | none ↦ if leb r.max_clients (count_role role_client r) then some client_capacity else none
    ]

abbrev pub change_at : (Generation → Generation) → ℕ → Option Generation → Registry → Registry
change_at f g none r = r
change_at f g (some gen) r = put g (f gen) r

abbrev pub change : (Generation → Generation) → ℕ → Registry → Registry
change f g r = change_at f g (lookup g r.all) r

abbrev pub as_client : Name → Name → Generation → Generation
as_client instance_id group gen = record gen {
  role = role_client;
  phase = phase_prepared;
  instance_id = instance_id;
  group_id = group;
}

abbrev pub client_answer : Registry → ℕ → Name → Name → Option Error → Registry × Answer
client_answer r g instance_id group (some e) = (r, fails e)
client_answer r g instance_id group none = (
  signal (
      update_high role_client
        (occupy role_client instance_id group g (change (as_client instance_id group) g r))),
  grants g,
)

-- `PrepareClient`.
unfoldable pub prepare_client : Registry → ℕ → Name → Name → Registry × Answer
unfolding is_exact
prepare_client r g instance_id group =
    client_answer r g instance_id group (client_error r g instance_id group)

abbrev pub as_peer : Name → Generation → Generation
as_peer peer gen = record gen { role = role_peer; phase = phase_prepared; peer_id = peer }

-- `transferPendingToPeerLocked`.
unfoldable pub transfer_pending : ℕ → Name → Registry → Registry
transfer_pending g peer r =
    signal (update_high role_peer (occupy role_peer peer [] g (change (as_peer peer) g r)))

-- The outbound generation that the preferred inbound direction contests.
abbrev pub contested : Registry → Name → Bool → Option ℕ
contested r peer preferred_inbound = elim (lookup peer r.peers) [
  | none ↦ none
  | some e ↦ elim e.prepared [
    | none ↦ none
    | some h ↦ elim (lookup h r.all) [
      | none ↦ none
      | some gen ↦
          if preferred_inbound && is_outbound gen.direction && is_empty e.current
          then some h
          else none
    ]
  ]
]

abbrev pub peer_error : Registry → Name → Option Error
peer_error r peer = elim (peer_entry_error (lookup peer r.peers)) [
  | some e ↦ some e
  | none ↦ if leb r.max_peers (count_role role_peer r) then some peer_capacity else none
]

abbrev pub begin_arbitration : Registry → Name → ℕ → ℕ → Registry × Answer
begin_arbitration r peer g h =
    let id : ℕ = (r.next_arb_id + 1) % 2 ^ 64 in
    let a : Arbitration = record {
      arbitration_id = id;
      arbitration_peer = peer;
      inbound = g;
      loser = h;
      loser_released = false;
    } in
    (
      signal (record r { next_arb_id = id; arbitrations = insert peer a r.arbitrations }),
      arbitrates a,
    )

abbrev pub peer_answer : Registry → ℕ → Name → Option Error → Registry × Answer
peer_answer r g peer (some e) = (r, fails e)
peer_answer r g peer none = (transfer_pending g peer r, grants g)

abbrev pub contest : Registry → ℕ → Name → Option ℕ → Registry × Answer
contest r g peer (some h) = begin_arbitration r peer g h
contest r g peer none = peer_answer r g peer (peer_error r peer)

-- `PreparePeer`.
unfoldable pub prepare_peer : Registry → ℕ → Name → Bool → Registry × Answer
unfolding is_exact transfer_pending
prepare_peer r g peer preferred_inbound =
    if r.closed
    then (r, fails registry_stopped)
    else if not (is_exact r g role_unknown phase_pending)
    then (r, fails stale_generation)
    else if is_some (lookup peer r.arbitrations)
    then (r, fails peer_prepared)
    else contest r g peer (contested r peer preferred_inbound)

abbrev pub complete_error : Registry → Arbitration → Option Error
complete_error r a =
    if r.closed
    then some registry_stopped
    else if not (
        is_exact r a.inbound role_unknown phase_pending
        && a.loser_released
        && is_exact r a.loser role_peer phase_retiring)
    then some stale_generation
    else if is_some (peer_entry_error (lookup a.arbitration_peer r.peers))
    then some peer_current
    else if ltb r.max_peers (count_role role_peer r)
    then some peer_capacity
    else none

abbrev pub complete_answer : Registry → Arbitration → Option Error → Registry × Answer
complete_answer r a (some e) = (finish_arbitration a r, fails e)
complete_answer r a none =
    (transfer_pending a.inbound a.arbitration_peer (finish_arbitration a r), grants a.inbound)

abbrev pub complete_of : Registry → Option Arbitration → Registry × Answer
complete_of r none = (r, fails stale_generation)
complete_of r (some a) = complete_answer r a (complete_error r a)

-- `CompleteArbitration`.
unfoldable pub complete_arbitration : Registry → Name → ℕ → Registry × Answer
unfolding is_exact transfer_pending finish_arbitration find_arbitration
complete_arbitration r peer id = complete_of r (find_arbitration r peer id)

abbrev pub set_current : Generation → Generation
set_current gen = record gen { phase = phase_current }

-- The entry of a prepared generation that can be published.
abbrev pub publishable : Option Entry → ℕ → Option Entry
publishable none g = none
publishable (some e) g = if is e.prepared (some g) && is_empty e.current then some e else none

abbrev pub published_entry : ℕ → Entry → Entry
published_entry g e = record e { prepared = none; current = (publish e.current (some g)).0 }

abbrev pub commit_of : Registry → ℕ → Generation → Option Entry → Registry × Bool
commit_of r g gen none = (r, false)
commit_of r g gen (some e) = (
  signal (
      put g (set_current gen)
        (with_entries gen.role (insert (key_of gen) (published_entry g e) (entries gen.role r)) r)),
  true,
)

-- `commitLocked`. Of an unknown role there are no entries.
unfoldable pub commit : Registry → ℕ → Generation → Registry × Bool
unfolding is publish
commit r g gen = commit_of r g gen (publishable (entry_of gen r) g)

abbrev pub commit_receiver_found : Registry → ℕ → Option Generation → Registry × (Bool × Bool)
commit_receiver_found r g none = (r, (false, r.closed))
commit_receiver_found r g (some gen) =
    if is_exact r g gen.role phase_prepared
    then ((commit r g gen).0, ((commit r g gen).1, r.closed))
    else (r, (false, r.closed))

-- `CommitReceiver`; the second result is whether the registry is closed.
unfoldable pub commit_receiver : Registry → ℕ → Registry × (Bool × Bool)
unfolding is_exact commit
commit_receiver r g = commit_receiver_found r g (lookup g r.all)

abbrev pub is_loser_of : Option Arbitration → ℕ → Bool
is_loser_of none g = false
is_loser_of (some a) g = a.loser == g

abbrev pub commit_outbound_found : Registry → ℕ → Option Generation → Registry × Bool
commit_outbound_found r g none = (r, false)
commit_outbound_found r g (some gen) =
    if r.closed || not (is_exact r g role_peer phase_prepared)
    then (r, false)
    else if is_loser_of (lookup gen.peer_id r.arbitrations) g
    then (r, false)
    else commit r g gen

-- `CommitOutboundPeer`.
unfoldable pub commit_outbound_peer : Registry → ℕ → Registry × Bool
unfolding is_exact commit
commit_outbound_peer r g = commit_outbound_found r g (lookup g r.all)
