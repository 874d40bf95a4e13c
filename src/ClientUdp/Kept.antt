-- ===== src/ClientUdp/Kept.antt =====
-- The operations of a client's UDP handler keep what holds of it.
use qmux.Base.{
  ℕ, ◌≡◌, refl, ap, ◌∙◌, true, false, not, Option, none, some, List, [], get_elem?, arith,
  Bool-cases, inl, inr,
}
use qmux.Base.Assoc.{nat_eq}
use qmux.ClientUdp.State.{Phase, collecting, draining, ready, closed, SessionState, Handler}
use qmux.ClientUdp.Sessions.{
  is_ready, is_closed, is_none, is_conn, close_locked, close_pending, close_ready, conn_of,
}
use qmux.ClientUdp.Handler.{
  after_close, fail_found, fail_pending_exact, close_found, close_session_exact, close_state_found,
  close_state_exact,
}
use qmux.ClientUdp.Counted.{IsSession, IsCounted}
use qmux.ClientUdp.Changes.{close_published, close_unpublished}

-- Counters of drops and errors, and the log of closed connections, do not matter.
pub counters-IsCounted :
    (h : Handler) (cs : List ℕ) (drops pending creates writes : ℕ)
    → IsCounted h
    → IsCounted (record h {
      budget = record h.budget {
        limit_drops = drops;
        pending_drops = pending;
        create_errors = creates;
        write_errors = writes;
      };
      conns_closed = cs;
    })
counters-IsCounted h cs drops pending creates writes v = record {
  valid = v.valid;
  mapped = v.mapped;
  uniq = v.uniq;
  permits = v.permits;
  active = v.active;
  faultless = v.faultless;
}

abbrev closed_state : SessionState → SessionState
closed_state s = record s {
  phase = closed;
  fifo = [];
  retained_bytes = 0;
  candidate = none;
  session = none;
}

closed_state-IsSession : (s : SessionState) → IsSession (closed_state s)
closed_state-IsSession s = record {
  in_order = refl;
  retained = refl;
  fits = (omega arith, omega arith);
  published = refl;
}

module _ (h : Handler) (i : ℕ) (s : SessionState) (there : get_elem? h.states i ≡ some s)
    (v : IsCounted h) where
  pub fail_phase : (p : Phase) → s.phase ≡ p → IsCounted (after_close i false h (close_pending s))
  unfolding close_pending close_locked
  fail_phase collecting e = rw e (
      close_unpublished h i s (closed_state s) there (conn_of s) v (closed_state-IsSession s)
        (ap is_closed e) refl refl refl (ap is_ready e) refl)
  fail_phase draining e = rw e (
      close_unpublished h i s (closed_state s) there (conn_of s) v (closed_state-IsSession s)
        (ap is_closed e) refl refl refl (ap is_ready e) refl)
  fail_phase ready e = rw e v
  fail_phase closed e = rw e v

  close_phase :
      (conn : ℕ) (p : Phase) → s.phase ≡ p → IsCounted (after_close i true h (close_ready s conn))
  unfolding close_ready close_locked
  close_phase conn collecting e = rw e v
  close_phase conn draining e = rw e v
  close_phase conn closed e = rw e v
  close_phase conn ready e = elim (Bool-cases (is_conn s.session conn)) [
    | inl q ↦
        rw (e, q)
          (close_published h i s (closed_state s) there (conn_of s) v (closed_state-IsSession s)
            (ap is_closed e) refl refl refl (ap is_ready e) refl)
    | inr q ↦ rw (e, q) v
  ]

  no_session : (p : Phase) → s.phase ≡ p → is_none s.session ≡ not (is_ready p)
  no_session p e = (v.valid i s there).published ∙ ap (λ x. not (is_ready x)) e

  -- `closeLocked` reports a published session exactly in the ready phase.
  lock_phase : (p : Phase) → s.phase ≡ p → IsCounted (close_state_found i (some s) h)
  unfolding close_locked
  lock_phase collecting e =
      rw (no_session collecting e, e)
        (close_unpublished h i s (closed_state s) there (conn_of s) v (closed_state-IsSession s)
          (ap is_closed e) refl refl refl (ap is_ready e) refl)
  lock_phase draining e =
      rw (no_session draining e, e)
        (close_unpublished h i s (closed_state s) there (conn_of s) v (closed_state-IsSession s)
          (ap is_closed e) refl refl refl (ap is_ready e) refl)
  lock_phase ready e =
      rw (no_session ready e, e)
        (close_published h i s (closed_state s) there (conn_of s) v (closed_state-IsSession s)
          (ap is_closed e) refl refl refl (ap is_ready e) refl)
  lock_phase closed e = rw e v

close_found-IsCounted :
    (h : Handler) (i conn : ℕ) (o : Option SessionState)
    → get_elem? h.states i ≡ o
    → IsCounted h
    → IsCounted (close_found i conn o h)
close_found-IsCounted h i conn none e v = v
close_found-IsCounted h i conn (some s) e v = close_phase h i s e v conn s.phase refl

pub close_session-IsCounted :
    (h : Handler) (i conn : ℕ) → IsCounted h → IsCounted (close_session_exact i conn h)
unfolding close_session_exact
close_session-IsCounted h i conn v = close_found-IsCounted h i conn (get_elem? h.states i) refl v

fail_found-IsCounted :
    (h : Handler) (i : ℕ) (o : Option SessionState)
    → get_elem? h.states i ≡ o
    → IsCounted h
    → IsCounted (fail_found i o h)
fail_found-IsCounted h i none e v = v
fail_found-IsCounted h i (some s) e v = fail_phase h i s e v s.phase refl

pub fail_pending-IsCounted :
    (h : Handler) (i : ℕ) → IsCounted h → IsCounted (fail_pending_exact i h)
unfolding fail_pending_exact
fail_pending-IsCounted h i v = fail_found-IsCounted h i (get_elem? h.states i) refl v

close_state_found-IsCounted :
    (h : Handler) (i : ℕ) (o : Option SessionState)
    → get_elem? h.states i ≡ o
    → IsCounted h
    → IsCounted (close_state_found i o h)
close_state_found-IsCounted h i none e v = v
close_state_found-IsCounted h i (some s) e v = lock_phase h i s e v s.phase refl

pub close_state-IsCounted : (h : Handler) (i : ℕ) → IsCounted h → IsCounted (close_state_exact i h)
unfolding close_state_exact
close_state-IsCounted h i v = close_state_found-IsCounted h i (get_elem? h.states i) refl v
