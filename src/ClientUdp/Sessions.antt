-- ===== src/ClientUdp/Sessions.antt =====
-- `udpSessionState` of client/udp_handler.go: one session from the collection of its first packets to
-- its end.
use qmux.Base.{
  ℕ, ◌+◌, ◌-◌, Bool, true, false, not, ◌&&◌, ◌||◌, Option, none, some, List, [], ◌∷◌, ◌++◌, leb,
  ltb, ◌==◌, length, if◌then◌else◌,
}
use qmux.ClientUdp.State.{
  Phase, collecting, draining, ready, closed, Packet, SessionState, Decision, dispatch_queued,
  dispatch_pending_drop, dispatch_retry, dispatch_ready_write, udp_pending_packet_limit,
  udp_pending_backing_limit,
}

-- The state that `installPendingOrLoad` makes.
unfoldable pub new_state : ℕ → Packet → SessionState
new_state id packet = record {
  id = id;
  phase = collecting;
  fifo = packet ∷ [];
  retained_bytes = packet.retained;
  candidate = none;
  session = none;
  permit_released = false;
  queued = packet ∷ [];
  sealed = [];
}

abbrev pub enqueue : SessionState → Packet → SessionState
enqueue s packet = record s {
  fifo = s.fifo ++ (packet ∷ []);
  retained_bytes = s.retained_bytes + packet.retained;
  queued = s.queued ++ (packet ∷ []);
}

abbrev pub ready_decision : Option ℕ → Decision
ready_decision none = dispatch_retry
ready_decision (some conn) = dispatch_ready_write conn

abbrev pub accept_in : Phase → SessionState → Packet → SessionState × Decision
accept_in collecting s packet =
    if leb udp_pending_packet_limit (length s.fifo)
      || ltb (udp_pending_backing_limit - s.retained_bytes) packet.retained
    then (s, dispatch_pending_drop)
    else (enqueue s packet, dispatch_queued)
accept_in draining s packet = (s, dispatch_pending_drop)
accept_in ready s packet = (s, ready_decision s.session)
accept_in closed s packet = (s, dispatch_retry)

-- `acceptAndSnapshot`.
unfoldable pub accept_and_snapshot : SessionState → Packet → SessionState × Decision
accept_and_snapshot s packet = accept_in s.phase s packet

abbrev pub is_collecting : Phase → Bool
is_collecting collecting = true
is_collecting _ = false

abbrev pub is_draining : Phase → Bool
is_draining draining = true
is_draining _ = false

abbrev pub is_ready : Phase → Bool
is_ready ready = true
is_ready _ = false

abbrev pub is_closed : Phase → Bool
is_closed closed = true
is_closed _ = false

abbrev pub is_none : Option ℕ → Bool
is_none none = true
is_none (some n) = false

abbrev pub is_conn : Option ℕ → ℕ → Bool
is_conn none conn = false
is_conn (some c) conn = c == conn

-- `attachCandidate`.
unfoldable pub attach_candidate : SessionState → ℕ → SessionState × Bool
attach_candidate s conn =
    if not (is_collecting s.phase) || not (is_none s.candidate)
    then (s, false)
    else (record s { candidate = some conn }, true)

-- `sealCollectingFIFO`.
unfoldable pub seal_collecting_fifo : SessionState → SessionState × Option (List Packet)
seal_collecting_fifo s = if not (is_collecting s.phase) then (s, none) else (
  record s { phase = draining; fifo = []; retained_bytes = 0; sealed = s.fifo },
  some s.fifo,
)

-- `publishReady`, but for the count in the budget.
unfoldable pub publish_ready : SessionState → ℕ → SessionState × Bool
publish_ready s conn =
    if not (is_draining s.phase) || not (is_conn s.candidate conn)
    then (s, false)
    else (record s { phase = ready; candidate = none; session = some conn }, true)

abbrev pub conn_of : SessionState → Option ℕ
conn_of s = elim s.session [ none ↦ s.candidate | some conn ↦ some conn ]

-- `closeLocked`: the connection to close, whether the session was published, and whether the call
-- closed it.
unfoldable pub close_locked : SessionState → SessionState × (Option ℕ × (Bool × Bool))
close_locked s = if is_closed s.phase then (s, (none, (false, false))) else (
  record s { phase = closed; fifo = []; retained_bytes = 0; candidate = none; session = none },
  (conn_of s, (not (is_none s.session) && is_ready s.phase, true)),
)

-- `closePending`: the connection to close, and whether the call closed the state.
unfoldable pub close_pending : SessionState → SessionState × (Option ℕ × Bool)
unfolding close_locked
close_pending s =
    if not (is_collecting s.phase) && not (is_draining s.phase)
    then (s, (none, false))
    else ((close_locked s).0, ((close_locked s).1.0, (close_locked s).1.1.1))

-- `closeReady`.
unfoldable pub close_ready : SessionState → ℕ → SessionState × (Option ℕ × Bool)
unfolding close_locked
close_ready s conn =
    if not (is_ready s.phase) || not (is_conn s.session conn)
    then (s, (none, false))
    else ((close_locked s).0, ((close_locked s).1.0, (close_locked s).1.1.1))
