-- ===== src/ClientUdp/Handler.antt =====
-- `UDPHandler` of client/udp_handler.go: the table of sessions, the dispatch of packets and the ends of
-- sessions. A state is an index into `states`. The calls of the local connection and the checks of the
-- handler's lifecycle are arguments.
use qmux.Base.{
  ℕ, zero, suc, Bool, true, false, ◌&&◌, Option, none, some, [], ◌∷◌, ◌++◌, ltb, ◌==◌, length,
  get_elem?, set, if◌then◌else◌,
}
use qmux.Base.Assoc.{nat_eq, lookup, insert, erase}
use qmux.ClientUdp.State.{
  Budget, Packet, SessionState, Handler, Decision, dispatch_queued, dispatch_pending_drop,
  dispatch_retry, dispatch_ready_write, udp_pending_backing_limit,
}
use qmux.ClientUdp.Budget.{
  new_budget, acquire, give_back, publish, unpublish, drop_pending, record_create_failure,
  record_write_failure,
}
use qmux.ClientUdp.Sessions.{
  new_state, accept_and_snapshot, attach_candidate, seal_collecting_fifo, publish_ready,
  close_locked, close_pending, close_ready,
}

abbrev pub new_handler : ℕ → Handler
new_handler limit = record {
  sessions = [];
  states = [];
  budget = new_budget limit;
  conns_closed = [];
}

abbrev pub with_state : ℕ → SessionState → Handler → Handler
with_state i s h = record h { states = set h.states i s }

-- `isExactSessionState`.
abbrev pub is_mapped : Option ℕ → ℕ → Bool
is_mapped none i = false
is_mapped (some j) i = j == i

abbrev pub is_exact_session_state : Handler → ℕ → SessionState → Bool
is_exact_session_state h i s = is_mapped (lookup s.id h.sessions) i

-- `deleteExactSessionState`.
unfoldable pub delete_exact : ℕ → SessionState → Handler → Handler
delete_exact i s h =
    if is_exact_session_state h i s then record h { sessions = erase s.id h.sessions } else h

-- A closed local connection.
abbrev pub close_conn : Option ℕ → Handler → Handler
close_conn none h = h
close_conn (some conn) h = record h { conns_closed = conn ∷ h.conns_closed }

abbrev pub unpublish_if : Bool → Handler → Handler
unpublish_if false h = h
unpublish_if true h = record h { budget = unpublish h.budget }

-- What follows a close of a session state.
abbrev pub after_close : ℕ → Bool → Handler → SessionState × (Option ℕ × Bool) → Handler
after_close i published h (s, (conn, closed_now)) =
    if closed_now
    then unpublish_if published (close_conn conn (delete_exact i s (with_state i s h)))
    else h

-- `failPendingExact`, `closeSessionExact` and `closeStateExact`.
abbrev pub fail_found : ℕ → Option SessionState → Handler → Handler
fail_found i none h = h
fail_found i (some s) h = after_close i false h (close_pending s)

unfoldable pub fail_pending_exact : ℕ → Handler → Handler
unfolding close_pending delete_exact unpublish
fail_pending_exact i h = fail_found i (get_elem? h.states i) h

abbrev pub close_found : ℕ → ℕ → Option SessionState → Handler → Handler
close_found i conn none h = h
close_found i conn (some s) h = after_close i true h (close_ready s conn)

unfoldable pub close_session_exact : ℕ → ℕ → Handler → Handler
unfolding close_ready delete_exact unpublish
close_session_exact i conn h = close_found i conn (get_elem? h.states i) h

abbrev pub close_state_found : ℕ → Option SessionState → Handler → Handler
close_state_found i none h = h
close_state_found i (some s) h =
    let (t, (conn, (published, closed_now))) = close_locked s in
    after_close i published h (t, (conn, closed_now))

unfoldable pub close_state_exact : ℕ → Handler → Handler
unfolding close_locked delete_exact unpublish
close_state_exact i h = close_state_found i (get_elem? h.states i) h

-- `installPendingOrLoad` where no state is loaded: the index of a new state, if a permit is left.
abbrev pub install_permitted : ℕ → Packet → Handler → Budget × Bool → Handler × Option ℕ
install_permitted id packet h (b, false) = (record h { budget = b }, none)
install_permitted id packet h (b, true) = (
  record h {
    sessions = insert id (length h.states) h.sessions;
    states = h.states ++ (new_state id packet ∷ []);
    budget = b;
  },
  some (length h.states),
)

unfoldable pub install_pending : ℕ → Packet → Handler → Handler × Option ℕ
unfolding acquire new_state
install_pending id packet h = install_permitted id packet h (acquire h.budget)

abbrev pub release_found : ℕ → Option SessionState → Handler → Handler
release_found i none h = h
release_found i (some s) h =
    if s.permit_released then h else record (with_state i (record s { permit_released = true }) h) {
      budget = give_back h.budget;
    }

-- The release of a session's permit, at most once.
unfoldable pub release_permit : ℕ → Handler → Handler
unfolding give_back
release_permit i h = release_found i (get_elem? h.states i) h

abbrev pub write_ready : ℕ → ℕ → Bool → Bool → Handler → Handler
write_ready i conn true teardown h = h
write_ready i conn false teardown h =
    close_session_exact i conn (record h { budget = record_write_failure teardown h.budget })

-- The decision on a packet, carried out; the second result asks for a retry.
abbrev pub carry_out : ℕ → SessionState × Decision → Bool → Bool → Handler → Handler × Bool
carry_out i (s, dispatch_queued) written teardown h = (with_state i s h, false)
carry_out i (s, dispatch_pending_drop) written teardown h =
    (record h { budget = drop_pending h.budget }, false)
carry_out i (s, dispatch_retry) written teardown h = (delete_exact i s h, true)
carry_out i (s, dispatch_ready_write conn) written teardown h =
    (write_ready i conn written teardown h, false)

abbrev pub deliver_found : ℕ → Option SessionState → Packet → Bool → Bool → Handler → Handler × Bool
deliver_found i none packet written teardown h = (h, false)
deliver_found i (some s) packet written teardown h =
    carry_out i (accept_and_snapshot s packet) written teardown h

-- The dispatch to a loaded state.
unfoldable pub deliver : ℕ → Packet → Bool → Bool → Handler → Handler × Bool
unfolding accept_and_snapshot delete_exact close_session_exact
deliver i packet written teardown h =
    deliver_found i (get_elem? h.states i) packet written teardown h

-- The start of a session's worker; `registered` is the answer of `registerSessionProducer`.
abbrev pub start_session : Bool → Handler × Option ℕ → Handler
start_session registered (h, none) = h
start_session true (h, some i) = h
start_session false (h, some i) = release_permit i (fail_pending_exact i h)

abbrev pub dispatch_loaded :
    (Handler → Handler) → ℕ → Packet → Bool → Bool → Bool → Option ℕ → Handler → Handler
dispatch_loaded again id packet registered written teardown none h =
    start_session registered (install_pending id packet h)
dispatch_loaded again id packet registered written teardown (some i) h =
    let (q, retry) = deliver i packet written teardown h in if retry then again q else q

-- The rounds of `dispatchPayload`.
unfoldable pub dispatch_rounds : ℕ → ℕ → Packet → Bool → Bool → Bool → Handler → Handler
unfolding deliver install_pending release_permit fail_pending_exact
dispatch_rounds zero id packet registered written teardown h = h
dispatch_rounds (suc rounds) id packet registered written teardown h =
    dispatch_loaded (dispatch_rounds rounds id packet registered written teardown) id packet
      registered written teardown (lookup id h.sessions) h

-- `dispatchPayload`.
unfoldable pub dispatch_payload : ℕ → Packet → Bool → Bool → Bool → Handler → Handler
unfolding dispatch_rounds
dispatch_payload id packet registered written teardown h =
    if ltb udp_pending_backing_limit packet.retained
    then record h { budget = drop_pending h.budget }
    else dispatch_rounds 2 id packet registered written teardown h

abbrev pub attach_found : ℕ → ℕ → Option SessionState → Handler → Handler
attach_found i conn none h = h
attach_found i conn (some s) h =
    let (t, attached) = attach_candidate s conn in
    if attached then with_state i t h else close_conn (some conn) h

-- The dialed connection of `createSessionCandidate`, which is closed if the state has changed.
unfoldable pub attach : ℕ → ℕ → Handler → Handler
unfolding attach_candidate
attach i conn h = attach_found i conn (get_elem? h.states i) h

abbrev pub seal_found : ℕ → Option SessionState → Handler → Handler
seal_found i none h = h
seal_found i (some s) h = with_state i (seal_collecting_fifo s).0 h

-- The seal of the collected packets in `runSession`.
unfoldable pub seal : ℕ → Handler → Handler
unfolding seal_collecting_fifo
seal i h = seal_found i (get_elem? h.states i) h

abbrev pub publish_found : ℕ → ℕ → Option SessionState → Handler → Handler
publish_found i conn none h = h
publish_found i conn (some s) h =
    let (t, published) = publish_ready s conn in
    if is_exact_session_state h i s && published
    then record (with_state i t h) { budget = publish h.budget }
    else h

-- `publishReadyAfterGate` once its gate is passed.
unfoldable pub publish_session : ℕ → ℕ → Handler → Handler
unfolding publish_ready publish
publish_session i conn h = publish_found i conn (get_elem? h.states i) h

-- A failure in `runSession` before the session is published.
unfoldable pub fail_session : ℕ → Bool → Handler → Handler
unfolding fail_pending_exact
fail_session i teardown h =
    fail_pending_exact i (record h { budget = record_create_failure teardown h.budget })
