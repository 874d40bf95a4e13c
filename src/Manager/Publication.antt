-- ===== src/Manager/Publication.antt =====
-- The operations of client/connection_manager.go on the connections and endpoints. The checks of the
-- contexts are the argument `stopped`; a published connection that is replaced is stopped by the caller.
use qmux.Base.{
  ℕ, zero, suc, Bool, true, false, ◌&&◌, ◌||◌, Option, none, some, [], ◌∷◌, ◌++◌, ◌==◌, length,
  get_elem?, if◌then◌else◌,
}
use qmux.Outbound.Endpoint.{
  Endpoint, replace, retire, take, claim_reconnect, release_reconnect, retire_for_reconnect,
  advance_retry,
}
use qmux.Manager.State.{
  Name, Phase, generation_none, handshaking, pending, registered, retiring, generation_done,
  phase_eq, Conn, EndpointPhases, Manager,
}
use qmux.Manager.Generations.{
  at_endpoint, with_conn, generation_fault, find_endpoint, generation_closed, track_generation,
  move_generation,
}

-- `NewServerConnection`.
abbrev pub new_conn : Name → Conn
new_conn addr = record {
  server_addr = addr;
  capacity_endpoint = none;
  capacity_phase = generation_none;
  closed = false;
  on_closed = false;
}

-- An operation on a connection, where the index is one.
abbrev pub on_conn : (Conn → Manager → Manager) → ℕ → Option Conn → Manager → Manager
on_conn f i none m = m
on_conn f i (some c) m = f c m

abbrev pub at_conn : (Conn → Manager → Manager) → ℕ → Manager → Manager
at_conn f i m = on_conn f i (get_elem? m.conns i) m

abbrev pub set_lifecycle : Endpoint → EndpointPhases → EndpointPhases
set_lifecycle l e = record e { lifecycle = l }

abbrev pub is_gone : Phase → Bool
is_gone retiring = true
is_gone generation_done = true
is_gone _ = false

abbrev pub track_if_new : Phase → ℕ → Conn → Manager → Manager
track_if_new p i c m =
    if phase_eq c.capacity_phase generation_none then track_generation p i c m else m

abbrev pub detach_tracked : ℕ → Conn → Manager → Manager
detach_tracked i c m =
    if is_gone c.capacity_phase then m else move_generation registered retiring i c m

-- `detachGenerationLocked`.
unfoldable pub detach_generation : ℕ → Manager → Manager
unfolding track_generation move_generation
detach_generation i m = at_conn (detach_tracked i) i (at_conn (track_if_new registered i) i m)

-- The start of `connectAndRegister`, and its move once the connection is made.
unfoldable pub begin_connection : Name → Manager → Manager
unfolding track_generation
begin_connection addr m =
    track_generation handshaking (length m.conns) (new_conn addr)
      (record m { conns = m.conns ++ (new_conn addr ∷ []) })

unfoldable pub connected : ℕ → Manager → Manager
unfolding move_generation
connected i m = at_conn (move_generation handshaking pending i) i m

abbrev pub detach_previous : ℕ → Option ℕ → Manager → Manager
detach_previous i none m = m
detach_previous i (some j) m = if j == i then m else detach_generation j m

abbrev pub replace_in : ℕ → ℕ → Option EndpointPhases → Manager → Manager
replace_in k i none m = m
replace_in k i (some e) m =
    let (next, (previous, _)) = replace e.lifecycle.current (some i) in
    detach_previous i previous (
      at_conn (move_generation pending registered i) i
        (at_endpoint (set_lifecycle (record e.lifecycle { current = next })) (some k) m))

abbrev pub publish_tracked : ℕ → ℕ → Conn → Manager → Manager
publish_tracked k i c m =
    if phase_eq c.capacity_phase pending
    then replace_in k i (get_elem? m.endpoints k) m
    else generation_fault c m

abbrev pub publish_at : Option ℕ → ℕ → Manager → Manager
publish_at none i m = m
publish_at (some k) i m = at_conn (publish_tracked k i) i (at_conn (track_if_new pending i) i m)

-- `publishServerConnection`, up to its delivery and without the callback and the mark of health.
unfoldable pub publish_server_connection : Bool → ℕ → Manager → Manager
unfolding find_endpoint replace detach_generation track_generation move_generation generation_fault
publish_server_connection stopped i m =
    if m.manager_closed || stopped
    then m
    else at_conn (λ c. publish_at (find_endpoint c.server_addr m.endpoints) i) i m

abbrev pub detach_if : Bool → ℕ → Manager → Manager
detach_if true i m = detach_generation i m
detach_if false i m = m

abbrev pub retire_in : ℕ → ℕ → Option EndpointPhases → Manager → Manager
retire_in k i none m = m
retire_in k i (some e) m =
    let (next, retired) = retire e.lifecycle.current (some i) in
    detach_if retired i
      (at_endpoint (set_lifecycle (record e.lifecycle { current = next })) (some k) m)

abbrev pub retire_at : Option ℕ → ℕ → Manager → Manager
retire_at none i m = m
retire_at (some k) i m = retire_in k i (get_elem? m.endpoints k) m

-- `retireConnection`, and `rollbackPublication` without the mark of the connection's health.
unfoldable pub retire_connection : ℕ → Manager → Manager
unfolding find_endpoint retire detach_generation
retire_connection i m = at_conn (λ c. retire_at (find_endpoint c.server_addr m.endpoints) i) i m

abbrev pub change_lifecycle : (Endpoint → Endpoint) → EndpointPhases → EndpointPhases
change_lifecycle f e = record e { lifecycle = f e.lifecycle }

-- The claim of `startReconnection`.
unfoldable pub start_reconnection : Bool → Name → Option ℕ → Manager → Manager
unfolding find_endpoint claim_reconnect
start_reconnection stopped addr expected m =
    if m.manager_closed || stopped
    then m
    else at_endpoint (change_lifecycle (λ l. (claim_reconnect l expected).0))
        (find_endpoint addr m.endpoints) m

-- The release of the claim, and the advance of the retry state, in `reconnectionLoop`.
unfoldable pub release_slot : Name → Manager → Manager
unfolding find_endpoint release_reconnect
release_slot addr m =
    at_endpoint (change_lifecycle release_reconnect) (find_endpoint addr m.endpoints) m

abbrev pub max_reconnect_stage : ℕ
max_reconnect_stage = 4

unfoldable pub advance : Name → ℕ → Manager → Manager
unfolding find_endpoint advance_retry
advance addr stage m =
    at_endpoint (change_lifecycle (λ l. advance_retry l stage max_reconnect_stage))
      (find_endpoint addr m.endpoints) m

abbrev pub detach_in : ℕ → ℕ → Bool → Option EndpointPhases → Manager → Manager
detach_in k i stable none m = m
detach_in k i stable (some e) m =
    let (next, retired) = retire_for_reconnect e.lifecycle (some i) stable in
    detach_if retired i (at_endpoint (set_lifecycle next) (some k) m)

abbrev pub detach_at : Option ℕ → ℕ → Bool → Manager → Manager
detach_at none i stable m = m
detach_at (some k) i stable m = detach_in k i stable (get_elem? m.endpoints k) m

-- The retirement of the expected connection in `reconnectionLoop`.
unfoldable pub retire_expected : Name → ℕ → Bool → Manager → Manager
unfolding find_endpoint retire_for_reconnect detach_generation
retire_expected addr i stable m = detach_at (find_endpoint addr m.endpoints) i stable m

-- The closed gate of `stopPublishing`.
unfoldable pub stop_publishing : Manager → Manager
stop_publishing m = record m { manager_closed = true }

abbrev pub detach_taken : Option ℕ → Manager → Manager
detach_taken none m = m
detach_taken (some i) m = detach_generation i m

abbrev pub take_in : ℕ → Option EndpointPhases → Manager → Manager
take_in k none m = m
take_in k (some e) m =
    let (next, taken) = take e.lifecycle.current in
    detach_taken taken
      (at_endpoint (set_lifecycle (record e.lifecycle { current = next })) (some k) m)

-- The loop of `Stop` over the `n` endpoints from the index `k` on.
unfoldable pub take_from : ℕ → ℕ → Manager → Manager
unfolding take detach_generation
take_from k zero m = m
take_from k (suc n) m = take_from (suc k) n (take_in k (get_elem? m.endpoints k) m)

-- The end of a connection's `Close` under its own lock, and the report to its watcher after that.
unfoldable pub close_connection : ℕ → Manager → Manager
close_connection i m = at_conn (λ c. with_conn i (record c { closed = true })) i m

abbrev pub report_watched : ℕ → Conn → Manager → Manager
report_watched i c m = if c.closed && c.on_closed then generation_closed i c m else m

unfoldable pub report_closed : ℕ → Manager → Manager
unfolding generation_closed
report_closed i m = at_conn (report_watched i) i m
