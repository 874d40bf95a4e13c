-- ===== src/ClientUdp/Run.antt =====
-- Histories of a client's UDP handler: its operations, from the receive loop, the session workers and
-- the cleanup, in any order.
use qmux.Base.{ℕ, Bool, List, [], ◌∷◌}
use qmux.ClientUdp.State.{Packet, Handler}
use qmux.ClientUdp.Handler.{
  dispatch_payload, deliver, attach, seal, publish_session, fail_session, close_session_exact,
  close_state_exact, release_permit,
}

pub data Call : Type 0 where
  dispatches : ℕ → Packet → Bool → Bool → Bool → Call
  delivers : ℕ → Packet → Bool → Bool → Call
  attaches : ℕ → ℕ → Call
  seals : ℕ → Call
  publishes : ℕ → ℕ → Call
  fails : ℕ → Bool → Call
  closes_session : ℕ → ℕ → Call
  closes_state releases : ℕ → Call

unfoldable pub step : Handler → Call → Handler
unfolding dispatch_payload deliver attach seal publish_session fail_session close_session_exact
    close_state_exact release_permit
step h (dispatches id packet registered written teardown) =
    dispatch_payload id packet registered written teardown h
step h (delivers i packet written teardown) = (deliver i packet written teardown h).0
step h (attaches i conn) = attach i conn h
step h (seals i) = seal i h
step h (publishes i conn) = publish_session i conn h
step h (fails i teardown) = fail_session i teardown h
step h (closes_session i conn) = close_session_exact i conn h
step h (closes_state i) = close_state_exact i h
step h (releases i) = release_permit i h

unfoldable pub run : Handler → List Call → Handler
unfolding step
run h [] = h
run h (c ∷ cs) = run (step h c) cs
