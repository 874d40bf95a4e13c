-- ===== src/ClientUdp/Moved.antt =====
-- The operations of a client's UDP handler that move a session on keep what holds of it.
use qmux.Base.{
  ℕ, ◌≡◌, refl, sym, ap, subst, ◌∙◌, ◌+◌, ◌-◌, ◌≤◌, ◌<◌, Bool, true, false, not, ◌&&◌, ◌||◌, Option,
  none, some, List, [], ◌∷◌, ◌++◌, length, length-append, get_elem?, count_by-set, if◌then◌else◌,
  if_cases, arith, ltb, leb,
}
use qmux.Base.Assoc.{nat_eq}
use qmux.ClientUdp.State.{
  Phase, collecting, draining, ready, closed, Packet, SessionState, Handler, Decision,
  udp_pending_packet_limit, udp_pending_backing_limit,
}
use qmux.ClientUdp.Budget.{publish}
use qmux.ClientUdp.Sessions.{
  is_ready, is_closed, is_none, is_collecting, is_draining, is_conn, enqueue, accept_in,
  ready_decision, attach_candidate, seal_collecting_fifo, publish_ready,
}
use qmux.ClientUdp.Handler.{
  with_state, close_conn, carry_out, attach_found, seal_found, publish_found,
  is_exact_session_state,
}
use qmux.ClientUdp.Counted.{
  IsInOrder, IsSession, IsCounted, holds_permit, is_published, sum_retained, replaced-valid,
  replaced-mapped, with_state-IsCounted,
}
use qmux.ClientUdp.Changes.{true≢false}
use qmux.ClientUdp.Permits.{forget-IsCounted}
use qmux.ClientUdp.Kept.{counters-IsCounted, close_session-IsCounted}

collecting_phase : (p : Phase) → not (is_collecting p) ≡ false → p ≡ collecting
collecting_phase collecting h = refl
collecting_phase draining h = cc
collecting_phase ready h = cc
collecting_phase closed h = cc

draining_phase : (p : Phase) → not (is_draining p) ≡ false → p ≡ draining
draining_phase draining h = refl
draining_phase collecting h = cc
draining_phase ready h = cc
draining_phase closed h = cc

and_false : (b : Bool) → (b && false) ≡ false
and_false true = refl
and_false false = refl

or_left : (a b : Bool) → (a || b) ≡ false → a ≡ false
or_left true b h = h
or_left false b h = refl

sum_retained-append :
    (ps : List Packet) (p : Packet) → sum_retained (ps ++ (p ∷ [])) ≡ sum_retained ps + p.retained
sum_retained-append [] p = omega arith
sum_retained-append (q ∷ ps) p = omega (arith, sum_retained-append ps p)

-- What the test of `acceptAndSnapshot` leaves.
has_room :
    (s : SessionState) (packet : Packet)
    → (leb udp_pending_packet_limit (length s.fifo)
        || ltb (udp_pending_backing_limit - s.retained_bytes) packet.retained)
      ≡ false
    → (length s.fifo < udp_pending_packet_limit)
      × (packet.retained ≤ udp_pending_backing_limit - s.retained_bytes)
has_room s packet h = ground arith

module _ (h : Handler) (i : ℕ) (s : SessionState) (there : get_elem? h.states i ≡ some s)
    (v : IsCounted h) where
  no_session : (p : Phase) → s.phase ≡ p → is_none s.session ≡ not (is_ready p)
  no_session p e = (v.valid i s there).published ∙ ap (λ x. not (is_ready x)) e

  sealed-IsInOrder :
      (p : Phase)
      → s.phase ≡ p
      → (conn : Option ℕ) → IsInOrder p s
      → IsInOrder p (record s { candidate = conn })
  sealed-IsInOrder collecting e conn w = w
  sealed-IsInOrder draining e conn w = w
  sealed-IsInOrder ready e conn w = w
  sealed-IsInOrder closed e conn w = w

  pub attach-IsCounted : (conn : ℕ) → IsCounted (attach_found i conn (some s) h)
  unfolding attach_candidate
  attach-IsCounted conn =
      if_cases
        (λ (z : SessionState × Bool).
          IsCounted (if z.1 then with_state i z.0 h else close_conn (some conn) h))
        (not (is_collecting s.phase) || not (is_none s.candidate)) (s, false)
        (record s { candidate = some conn }, true)
        (λ p.
          counters-IsCounted h (conn ∷ h.conns_closed) h.budget.limit_drops h.budget.pending_drops
            h.budget.create_errors h.budget.write_errors v)
        (λ p.
          let w : IsSession s = v.valid i s there in
          with_state-IsCounted h i s (record s { candidate = some conn }) there v
            (record {
              in_order = sealed-IsInOrder s.phase refl (some conn) w.in_order;
              retained = w.retained;
              fits = w.fits;
              published = w.published;
            })
            refl refl refl (λ c. c))

  same-IsCounted : IsCounted (with_state i s h)
  same-IsCounted = with_state-IsCounted h i s s there v (v.valid i s there) refl refl refl (λ c. c)

  pub seal-IsCounted : IsCounted (seal_found i (some s) h)
  unfolding seal_collecting_fifo
  seal-IsCounted =
      if_cases (λ (z : SessionState × Option (List Packet)). IsCounted (with_state i z.0 h))
        (not (is_collecting s.phase)) _ _ (λ p. same-IsCounted)
        (λ p.
          let e : s.phase ≡ collecting = collecting_phase s.phase p in
          with_state-IsCounted h i s
            (record s { phase = draining; fifo = []; retained_bytes = 0; sealed = s.fifo }) there v
            (record {
              in_order = ((subst (λ q. IsInOrder q s) e (v.valid i s there).in_order).0, refl);
              retained = refl;
              fits = (omega arith, omega arith);
              published = no_session collecting e;
            })
            refl refl (sym (ap is_ready e)) (λ c. ap is_closed e))

  published-IsCounted :
      (conn : ℕ)
      → s.phase ≡ draining
      → IsCounted
          (record (with_state i
            (record s { phase = ready; candidate = none; session = some conn })
            h) { budget = publish h.budget })
  unfolding publish
  published-IsCounted conn e =
      let t : SessionState = record s { phase = ready; candidate = none; session = some conn } in
      record {
        valid = replaced-valid h i s t there v (record {
          in_order = subst (λ q. IsInOrder q s) e (v.valid i s there).in_order;
          retained = (v.valid i s there).retained;
          fits = (v.valid i s there).fits;
          published = refl;
        });
        mapped = replaced-mapped h i s t there v refl (λ c. ap is_closed e);
        uniq = v.uniq;
        permits = omega (arith, v.permits, count_by-set holds_permit h.states i s t there);
        active = omega (
          arith,
          v.active,
          count_by-set is_published h.states i s t there,
          ap {B = ℕ} (λ p. if is_ready p then 1 else 0) e,
        );
        faultless = v.faultless;
      }

  pub publish-IsCounted : (conn : ℕ) → IsCounted (publish_found i conn (some s) h)
  unfolding publish_ready
  publish-IsCounted conn =
      if_cases
        (λ (z : SessionState × Bool). IsCounted (
          if is_exact_session_state h i s && z.1
          then record (with_state i z.0 h) { budget = publish h.budget }
          else h))
        (not (is_draining s.phase) || not (is_conn s.candidate conn)) _ _
        (λ p.
          if_cases IsCounted (is_exact_session_state h i s && false) _ h
            (λ q. absurd (true≢false (sym q ∙ and_false (is_exact_session_state h i s)))) (λ q. v))
        (λ p.
          if_cases IsCounted (is_exact_session_state h i s && true) _ h
            (λ q. published-IsCounted conn (
              draining_phase s.phase
                (or_left (not (is_draining s.phase)) (not (is_conn s.candidate conn)) p)))
            (λ q. v))

  enqueued-IsCounted :
      (packet : Packet)
      → s.phase ≡ collecting
      → (leb udp_pending_packet_limit (length s.fifo)
          || ltb (udp_pending_backing_limit - s.retained_bytes) packet.retained)
        ≡ false
      → IsCounted (with_state i (enqueue s packet) h)
  enqueued-IsCounted packet e free =
      with_state-IsCounted h i s (enqueue s packet) there v
        (record {
          in_order =
              let w = subst (λ q. IsInOrder q s) e (v.valid i s there).in_order in
              subst (λ q. IsInOrder q (enqueue s packet)) (sym e)
                (ap (λ xs. xs ++ (packet ∷ [])) w.0, w.1);
          retained = omega (arith, sum_retained-append s.fifo packet, (v.valid i s there).retained);
          fits = omega (
            arith,
            length-append s.fifo (packet ∷ []),
            has_room s packet free,
            (v.valid i s there).fits,
          );
          published = (v.valid i s there).published;
        })
        refl refl refl (λ c. c)

  written-IsCounted :
      (written teardown : Bool) (o : Option ℕ)
      → s.session ≡ o
      → s.phase ≡ ready
      → IsCounted (carry_out i (s, ready_decision o) written teardown h).0
  written-IsCounted written teardown none q e =
      absurd (true≢false (sym (ap is_none q) ∙ no_session ready e))
  written-IsCounted true teardown (some conn) q e = v
  written-IsCounted false true (some conn) q e = close_session-IsCounted h i conn v
  written-IsCounted false false (some conn) q e = close_session-IsCounted _ i conn (
      counters-IsCounted h h.conns_closed h.budget.limit_drops h.budget.pending_drops
        h.budget.create_errors (h.budget.write_errors + 1) v)

  pub carried-IsCounted :
      (packet : Packet) (written teardown : Bool) (p : Phase)
      → s.phase ≡ p
      → IsCounted (carry_out i (accept_in p s packet) written teardown h).0
  carried-IsCounted packet written teardown collecting e =
      if_cases (λ (z : SessionState × Decision). IsCounted (carry_out i z written teardown h).0) _ _
        _
        (λ q.
          counters-IsCounted h h.conns_closed h.budget.limit_drops (h.budget.pending_drops + 1)
            h.budget.create_errors h.budget.write_errors v)
        (λ q. enqueued-IsCounted packet e q)
  carried-IsCounted packet written teardown draining e =
      counters-IsCounted h h.conns_closed h.budget.limit_drops (h.budget.pending_drops + 1)
        h.budget.create_errors h.budget.write_errors v
  carried-IsCounted packet written teardown ready e =
      written-IsCounted written teardown s.session refl e
  carried-IsCounted packet written teardown closed e =
      forget-IsCounted h i s there v (ap is_closed e)
