-- ===== src/ClientUdp/Histories.antt =====
-- A client's UDP handler over every history of its operations.
use qmux.Base.{
  ℕ, zero, suc, ◌≡◌, refl, ◌+◌, ◌≤◌, Bool, true, false, Option, none, some, List, [], ◌∷◌, ltb,
  ltb→le, get_elem?, if_cases, arith,
}
use qmux.Base.Lists.{count_by}
use qmux.Base.Assoc.{nat_eq, lookup}
use qmux.ClientUdp.State.{Packet, SessionState, Handler, udp_pending_backing_limit}
use qmux.ClientUdp.Budget.{new_budget}
use qmux.ClientUdp.Sessions.{accept_and_snapshot}
use qmux.ClientUdp.Handler.{
  new_handler, deliver_found, deliver, release_found, release_permit, attach_found, attach,
  seal_found, seal, publish_found, publish_session, fail_session, fail_pending_exact, start_session,
  install_pending, dispatch_loaded, dispatch_rounds, dispatch_payload,
}
use qmux.ClientUdp.Run.{
  Call, dispatches, delivers, attaches, seals, publishes, fails, closes_session, closes_state,
  releases, step, run,
}
use qmux.ClientUdp.Counted.{IsCounted}
use qmux.ClientUdp.Permits.{released-IsCounted, install-IsCounted}
use qmux.ClientUdp.Kept.{
  counters-IsCounted, close_session-IsCounted, fail_pending-IsCounted, close_state-IsCounted,
}
use qmux.ClientUdp.Moved.{attach-IsCounted, seal-IsCounted, publish-IsCounted, carried-IsCounted}

deliver_found-IsCounted :
    (h : Handler) (i : ℕ) (o : Option SessionState) (packet : Packet) (written teardown : Bool)
    → get_elem? h.states i ≡ o
    → IsCounted h
    → IsCounted (deliver_found i o packet written teardown h).0
unfolding accept_and_snapshot
deliver_found-IsCounted h i none packet written teardown e v = v
deliver_found-IsCounted h i (some s) packet written teardown e v =
    carried-IsCounted h i s e v packet written teardown s.phase refl

deliver-IsCounted :
    (h : Handler) (i : ℕ) (packet : Packet) (written teardown : Bool)
    → IsCounted h
    → IsCounted (deliver i packet written teardown h).0
unfolding deliver
deliver-IsCounted h i packet written teardown v =
    deliver_found-IsCounted h i (get_elem? h.states i) packet written teardown refl v

release_found-IsCounted :
    (h : Handler) (i : ℕ) (o : Option SessionState)
    → get_elem? h.states i ≡ o
    → IsCounted h
    → IsCounted (release_found i o h)
release_found-IsCounted h i none e v = v
release_found-IsCounted h i (some s) e v = released-IsCounted h i s e v

release_permit-IsCounted : (h : Handler) (i : ℕ) → IsCounted h → IsCounted (release_permit i h)
unfolding release_permit
release_permit-IsCounted h i v = release_found-IsCounted h i (get_elem? h.states i) refl v

start_session-IsCounted :
    (registered : Bool) (h : Handler) (o : Option ℕ)
    → IsCounted h
    → IsCounted (start_session registered (h, o))
start_session-IsCounted registered h none v = v
start_session-IsCounted true h (some i) v = v
start_session-IsCounted false h (some i) v =
    release_permit-IsCounted (fail_pending_exact i h) i (fail_pending-IsCounted h i v)

dispatch_loaded-IsCounted :
    (again : Handler → Handler) (id : ℕ) (packet : Packet) (registered written teardown : Bool)
    (o : Option ℕ) (h : Handler)
    → ((q : Handler) → IsCounted q → IsCounted (again q))
    → packet.retained ≤ udp_pending_backing_limit
    → lookup id h.sessions ≡ o
    → IsCounted h
    → IsCounted (dispatch_loaded again id packet registered written teardown o h)
dispatch_loaded-IsCounted again id packet registered written teardown none h keep fits e v =
    start_session-IsCounted registered (install_pending id packet h).0
      (install_pending id packet h).1 (install-IsCounted id packet h v e fits)
dispatch_loaded-IsCounted again id packet registered written teardown (some i) h keep fits e v =
    let w : IsCounted (deliver i packet written teardown h).0 =
      deliver-IsCounted h i packet written teardown v in
    if_cases IsCounted (deliver i packet written teardown h).1 _ _
      (λ p. keep (deliver i packet written teardown h).0 w) (λ p. w)

dispatch_rounds-IsCounted :
    (rounds id : ℕ) (packet : Packet) (registered written teardown : Bool) (h : Handler)
    → packet.retained ≤ udp_pending_backing_limit
    → IsCounted h
    → IsCounted (dispatch_rounds rounds id packet registered written teardown h)
unfolding dispatch_rounds
dispatch_rounds-IsCounted zero id packet registered written teardown h fits v = v
dispatch_rounds-IsCounted (suc rounds) id packet registered written teardown h fits v =
    dispatch_loaded-IsCounted (dispatch_rounds rounds id packet registered written teardown) id
      packet registered written teardown (lookup id h.sessions) h
      (λ q w. dispatch_rounds-IsCounted rounds id packet registered written teardown q fits w) fits
      refl v

dispatch_payload-IsCounted :
    (id : ℕ) (packet : Packet) (registered written teardown : Bool) (h : Handler)
    → IsCounted h
    → IsCounted (dispatch_payload id packet registered written teardown h)
unfolding dispatch_payload
dispatch_payload-IsCounted id packet registered written teardown h v =
    if_cases IsCounted (ltb udp_pending_backing_limit packet.retained) _ _
      (λ p.
        counters-IsCounted h h.conns_closed h.budget.limit_drops (h.budget.pending_drops + 1)
          h.budget.create_errors h.budget.write_errors v)
      (λ p.
        dispatch_rounds-IsCounted 2 id packet registered written teardown h
          (ltb→le udp_pending_backing_limit packet.retained p) v)

attach_any-IsCounted :
    (h : Handler) (i conn : ℕ) (o : Option SessionState)
    → get_elem? h.states i ≡ o
    → IsCounted h
    → IsCounted (attach_found i conn o h)
attach_any-IsCounted h i conn none e v = v
attach_any-IsCounted h i conn (some s) e v = attach-IsCounted h i s e v conn

seal_any-IsCounted :
    (h : Handler) (i : ℕ) (o : Option SessionState)
    → get_elem? h.states i ≡ o
    → IsCounted h
    → IsCounted (seal_found i o h)
seal_any-IsCounted h i none e v = v
seal_any-IsCounted h i (some s) e v = seal-IsCounted h i s e v

publish_any-IsCounted :
    (h : Handler) (i conn : ℕ) (o : Option SessionState)
    → get_elem? h.states i ≡ o
    → IsCounted h
    → IsCounted (publish_found i conn o h)
publish_any-IsCounted h i conn none e v = v
publish_any-IsCounted h i conn (some s) e v = publish-IsCounted h i s e v conn

fail_session-IsCounted :
    (h : Handler) (i : ℕ) (teardown : Bool) → IsCounted h → IsCounted (fail_session i teardown h)
unfolding fail_session
fail_session-IsCounted h i true v = fail_pending-IsCounted h i v
fail_session-IsCounted h i false v = fail_pending-IsCounted _ i (
    counters-IsCounted h h.conns_closed h.budget.limit_drops h.budget.pending_drops
      (h.budget.create_errors + 1) h.budget.write_errors v)

step-IsCounted : (h : Handler) (c : Call) → IsCounted h → IsCounted (step h c)
unfolding step attach seal publish_session
step-IsCounted h (dispatches id packet registered written teardown) v =
    dispatch_payload-IsCounted id packet registered written teardown h v
step-IsCounted h (delivers i packet written teardown) v =
    deliver-IsCounted h i packet written teardown v
step-IsCounted h (attaches i conn) v = attach_any-IsCounted h i conn (get_elem? h.states i) refl v
step-IsCounted h (seals i) v = seal_any-IsCounted h i (get_elem? h.states i) refl v
step-IsCounted h (publishes i conn) v = publish_any-IsCounted h i conn (get_elem? h.states i) refl v
step-IsCounted h (fails i teardown) v = fail_session-IsCounted h i teardown v
step-IsCounted h (closes_session i conn) v = close_session-IsCounted h i conn v
step-IsCounted h (closes_state i) v = close_state-IsCounted h i v
step-IsCounted h (releases i) v = release_permit-IsCounted h i v

run-IsCounted_from : (h : Handler) (cs : List Call) → IsCounted h → IsCounted (run h cs)
unfolding run
run-IsCounted_from h [] v = v
run-IsCounted_from h (c ∷ cs) v = run-IsCounted_from (step h c) cs (step-IsCounted h c v)

new_handler-IsCounted : (limit : ℕ) → IsCounted (new_handler limit)
unfolding new_budget count_by
new_handler-IsCounted limit = record {
  valid = λ i s e. cc;
  mapped = λ i s e c. cc;
  uniq = tt;
  permits = omega arith;
  active = refl;
  faultless = refl;
}

-- After any history of a new handler: an open session stands in the table under its ID, so no two
-- share one; the packets that a session accepted wait within the limits until they are handed out, all
-- of them and in order; the permits held are those of the sessions that have not given theirs back,
-- never more than the limit; the published sessions are the ready ones; and no accounting fault occurs.
pub client-IsCounted : (limit : ℕ) (cs : List Call) → IsCounted (run (new_handler limit) cs)
client-IsCounted limit cs = run-IsCounted_from (new_handler limit) cs (new_handler-IsCounted limit)
