-- ===== src/Manager/Counted.antt =====
-- Every operation of client/connection_manager.go keeps the counters exact.
use qmux.Base.{
  ℕ, zero, suc, ◌≡◌, refl, Bool, true, false, ◌&&◌, ◌||◌, Option, none, some, List, [], ◌∷◌, ◌++◌,
  ◌==◌, get_elem?, get_elem?-append, count_by-append, length, if_cases, arith,
}
use qmux.Outbound.Endpoint.{
  Endpoint, replace, retire, take, claim_reconnect, release_reconnect, retire_for_reconnect,
  advance_retry,
}
use qmux.Manager.State.{
  Name, Phase, generation_none, handshaking, pending, registered, retiring, phase_eq, Conn,
  EndpointPhases, Manager,
}
use qmux.Manager.Generations.{at_endpoint, with_conn, find_endpoint, move_generation}
use qmux.Manager.Publication.{
  new_conn, on_conn, at_conn, set_lifecycle, is_gone, track_if_new, detach_tracked,
  detach_generation, begin_connection, connected, detach_previous, replace_in, publish_tracked,
  publish_at, publish_server_connection, detach_if, retire_in, retire_at, retire_connection,
  change_lifecycle, start_reconnection, release_slot, max_reconnect_stage, advance, detach_in,
  detach_at, retire_expected, stop_publishing, detach_taken, take_in, take_from, report_watched,
  close_connection, report_closed,
}
use qmux.Manager.Run.{
  Call, begins, connects, publishes, retires, claims, releases, advances, retires_expected,
  stops_publishing, takes_all, closes, reports, step, run,
}
use qmux.Manager.Tallied.{is_placed, IsTallied}
use qmux.Manager.Moves.{
  quiet-IsTallied, fault-IsTallied, closed-IsTallied, relabel-IsTallied, track-IsTallied,
  move-IsTallied,
}

at_conn-IsTallied :
    (f : Conn → Manager → Manager) (i : ℕ) (m : Manager)
    → ((c : Conn) → get_elem? m.conns i ≡ some c → IsTallied (f c m))
    → IsTallied m
    → IsTallied (at_conn f i m)
at_conn-IsTallied f i m keeps v = found (get_elem? m.conns i) refl
  where
    found : (o : Option Conn) → get_elem? m.conns i ≡ o → IsTallied (on_conn f i o m)
    found none h = v
    found (some c) h = keeps c h

set_lifecycle-IsTallied :
    (l : Endpoint) (o : Option ℕ) (m : Manager)
    → IsTallied m
    → IsTallied (at_endpoint (set_lifecycle l) o m)
set_lifecycle-IsTallied l o m v =
    quiet-IsTallied (set_lifecycle l) o m (λ e p. ground arith) (λ e h. h) v

change_lifecycle-IsTallied :
    (f : Endpoint → Endpoint) (o : Option ℕ) (m : Manager)
    → IsTallied m
    → IsTallied (at_endpoint (change_lifecycle f) o m)
change_lifecycle-IsTallied f o m v =
    quiet-IsTallied (change_lifecycle f) o m (λ e p. ground arith) (λ e h. h) v

track_if_new-IsTallied :
    (p : Phase) (i : ℕ) (m : Manager) → IsTallied m → IsTallied (at_conn (track_if_new p i) i m)
track_if_new-IsTallied p i m v =
    at_conn-IsTallied (track_if_new p i) i m
      (λ c h.
        if_cases IsTallied (phase_eq c.capacity_phase generation_none) _ _
          (λ new. track-IsTallied m i c h v p) (λ old. v))
      v

at_move-IsTallied :
    (p q : Phase) (i : ℕ) (m : Manager)
    → IsTallied m
    → IsTallied (at_conn (move_generation p q i) i m)
at_move-IsTallied p q i m v =
    at_conn-IsTallied (move_generation p q i) i m (λ c h. move-IsTallied m i c h v p q) v

detach-IsTallied : (i : ℕ) (m : Manager) → IsTallied m → IsTallied (detach_generation i m)
unfolding detach_generation
detach-IsTallied i m v =
    let n : Manager = at_conn (track_if_new registered i) i m in
    let w = track_if_new-IsTallied registered i m v in
    at_conn-IsTallied (detach_tracked i) i n
      (λ c h.
        if_cases IsTallied (is_gone c.capacity_phase) _ _ (λ gone. w)
          (λ here. move-IsTallied n i c h w registered retiring))
      w

detach_if-IsTallied : (b : Bool) (i : ℕ) (m : Manager) → IsTallied m → IsTallied (detach_if b i m)
detach_if-IsTallied true i m v = detach-IsTallied i m v
detach_if-IsTallied false i m v = v

detach_previous-IsTallied :
    (i : ℕ) (o : Option ℕ) (m : Manager) → IsTallied m → IsTallied (detach_previous i o m)
detach_previous-IsTallied i none m v = v
detach_previous-IsTallied i (some j) m v =
    if_cases IsTallied (j == i) _ _ (λ same. v) (λ other. detach-IsTallied j m v)

replace_in-IsTallied :
    (k i : ℕ) (o : Option EndpointPhases) (m : Manager)
    → IsTallied m
    → IsTallied (replace_in k i o m)
replace_in-IsTallied k i none m v = v
replace_in-IsTallied k i (some e) m v =
    let (next, (previous, _)) = replace e.lifecycle.current (some i) in
    let l : Endpoint = record e.lifecycle { current = next } in
    let n : Manager = at_endpoint (set_lifecycle l) (some k) m in
    detach_previous-IsTallied i previous (at_conn (move_generation pending registered i) i n)
      (at_move-IsTallied pending registered i n (set_lifecycle-IsTallied l (some k) m v))

publish_at-IsTallied :
    (o : Option ℕ) (i : ℕ) (m : Manager) → IsTallied m → IsTallied (publish_at o i m)
publish_at-IsTallied none i m v = v
publish_at-IsTallied (some k) i m v =
    let n : Manager = at_conn (track_if_new pending i) i m in
    let w = track_if_new-IsTallied pending i m v in
    at_conn-IsTallied (publish_tracked k i) i n
      (λ c h.
        if_cases IsTallied (phase_eq c.capacity_phase pending) _ _
          (λ waits. replace_in-IsTallied k i (get_elem? n.endpoints k) n w)
          (λ other. fault-IsTallied c n w))
      w

publish-IsTallied :
    (stopped : Bool) (i : ℕ) (m : Manager)
    → IsTallied m
    → IsTallied (publish_server_connection stopped i m)
unfolding publish_server_connection
publish-IsTallied stopped i m v =
    if_cases IsTallied (m.manager_closed || stopped) _ _ (λ over. v)
      (λ goes.
        at_conn-IsTallied (λ c. publish_at (find_endpoint c.server_addr m.endpoints) i) i m
          (λ c h. publish_at-IsTallied (find_endpoint c.server_addr m.endpoints) i m v) v)

retire_in-IsTallied :
    (k i : ℕ) (o : Option EndpointPhases) (m : Manager)
    → IsTallied m
    → IsTallied (retire_in k i o m)
retire_in-IsTallied k i none m v = v
retire_in-IsTallied k i (some e) m v =
    let (next, retired) = retire e.lifecycle.current (some i) in
    let l : Endpoint = record e.lifecycle { current = next } in
    detach_if-IsTallied retired i (at_endpoint (set_lifecycle l) (some k) m)
      (set_lifecycle-IsTallied l (some k) m v)

retire_at-IsTallied :
    (o : Option ℕ) (i : ℕ) (m : Manager) → IsTallied m → IsTallied (retire_at o i m)
retire_at-IsTallied none i m v = v
retire_at-IsTallied (some k) i m v = retire_in-IsTallied k i (get_elem? m.endpoints k) m v

retire-IsTallied : (i : ℕ) (m : Manager) → IsTallied m → IsTallied (retire_connection i m)
unfolding retire_connection
retire-IsTallied i m v =
    at_conn-IsTallied (λ c. retire_at (find_endpoint c.server_addr m.endpoints) i) i m
      (λ c h. retire_at-IsTallied (find_endpoint c.server_addr m.endpoints) i m v) v

detach_in-IsTallied :
    (k i : ℕ) (stable : Bool) (o : Option EndpointPhases) (m : Manager)
    → IsTallied m
    → IsTallied (detach_in k i stable o m)
detach_in-IsTallied k i stable none m v = v
detach_in-IsTallied k i stable (some e) m v =
    let (next, retired) = retire_for_reconnect e.lifecycle (some i) stable in
    detach_if-IsTallied retired i (at_endpoint (set_lifecycle next) (some k) m)
      (set_lifecycle-IsTallied next (some k) m v)

detach_at-IsTallied :
    (o : Option ℕ) (i : ℕ) (stable : Bool) (m : Manager)
    → IsTallied m
    → IsTallied (detach_at o i stable m)
detach_at-IsTallied none i stable m v = v
detach_at-IsTallied (some k) i stable m v =
    detach_in-IsTallied k i stable (get_elem? m.endpoints k) m v

take_in-IsTallied :
    (k : ℕ) (o : Option EndpointPhases) (m : Manager) → IsTallied m → IsTallied (take_in k o m)
take_in-IsTallied k none m v = v
take_in-IsTallied k (some e) m v =
    let (next, taken) = take e.lifecycle.current in
    let l : Endpoint = record e.lifecycle { current = next } in
    detached taken (at_endpoint (set_lifecycle l) (some k) m)
      (set_lifecycle-IsTallied l (some k) m v)
  where
    detached : (o : Option ℕ) (n : Manager) → IsTallied n → IsTallied (detach_taken o n)
    detached none n w = w
    detached (some i) n w = detach-IsTallied i n w

take_from-IsTallied : (k n : ℕ) (m : Manager) → IsTallied m → IsTallied (take_from k n m)
unfolding take_from
take_from-IsTallied k zero m v = v
take_from-IsTallied k (suc n) m v =
    take_from-IsTallied (suc k) n (take_in k (get_elem? m.endpoints k) m)
      (take_in-IsTallied k (get_elem? m.endpoints k) m v)

close-IsTallied : (i : ℕ) (m : Manager) → IsTallied m → IsTallied (close_connection i m)
unfolding close_connection
close-IsTallied i m v =
    at_conn-IsTallied (λ c. with_conn i (record c { closed = true })) i m
      (λ c h. relabel-IsTallied m i c h v (record c { closed = true }) refl refl) v

report-IsTallied : (i : ℕ) (m : Manager) → IsTallied m → IsTallied (report_closed i m)
unfolding report_closed
report-IsTallied i m v =
    at_conn-IsTallied (report_watched i) i m
      (λ c h.
        if_cases IsTallied (c.closed && c.on_closed) _ _ (λ watched. closed-IsTallied m i c h v)
          (λ free. v))
      v

begin-IsTallied : (addr : Name) (m : Manager) → IsTallied m → IsTallied (begin_connection addr m)
unfolding begin_connection
begin-IsTallied addr m v =
    let n : Manager = record m { conns = m.conns ++ (new_conn addr ∷ []) } in
    track-IsTallied n (length m.conns) (new_conn addr)
      (ground (arith, get_elem?-append m.conns (new_conn addr) (length m.conns)))
      (record {
        tallies = λ k e p was q.
            omega (
              arith,
              v.tallies k e p was q,
              count_by-append (is_placed k p) m.conns (new_conn addr),
            );
        high = v.high;
      })
      handshaking

step-IsTallied : (m : Manager) (c : Call) → IsTallied m → IsTallied (step m c)
unfolding step connected start_reconnection release_slot advance retire_expected stop_publishing
step-IsTallied m (begins addr) v = begin-IsTallied addr m v
step-IsTallied m (connects i) v = at_move-IsTallied handshaking pending i m v
step-IsTallied m (publishes stopped i) v = publish-IsTallied stopped i m v
step-IsTallied m (retires i) v = retire-IsTallied i m v
step-IsTallied m (claims stopped addr expected) v =
    if_cases IsTallied (m.manager_closed || stopped) _ _ (λ over. v)
      (λ goes.
        change_lifecycle-IsTallied (λ l. (claim_reconnect l expected).0)
          (find_endpoint addr m.endpoints) m v)
step-IsTallied m (releases addr) v =
    change_lifecycle-IsTallied release_reconnect (find_endpoint addr m.endpoints) m v
step-IsTallied m (advances addr stage) v =
    change_lifecycle-IsTallied (λ l. advance_retry l stage max_reconnect_stage)
      (find_endpoint addr m.endpoints) m v
step-IsTallied m (retires_expected addr i stable) v =
    detach_at-IsTallied (find_endpoint addr m.endpoints) i stable m v
step-IsTallied m stops_publishing v = record { tallies = v.tallies; high = v.high }
step-IsTallied m takes_all v = take_from-IsTallied 0 (length m.endpoints) m v
step-IsTallied m (closes i) v = close-IsTallied i m v
step-IsTallied m (reports i) v = report-IsTallied i m v

pub run-IsTallied : (m : Manager) (cs : List Call) → IsTallied m → IsTallied (run m cs)
unfolding run
run-IsTallied m [] v = v
run-IsTallied m (c ∷ cs) v = run-IsTallied (step m c) cs (step-IsTallied m c v)
