-- ===== src/Manager/Histories.antt =====
-- The published connections of a connection manager over its whole life, client/connection_manager.go.
use qmux.Base.{
  ℕ, ◌≡◌, ◌≢◌, refl, sym, ap, subst, ◌∙◌, true, false, ◌&&◌, ◌||◌, Option, none, some, List, [],
  ◌∷◌, ◌++◌, length, ◌==◌, get_elem?, get_elem?-append, set, if_cases, arith, Bool-cases, inl, inr,
}
use qmux.Outbound.Endpoint.{Endpoint, claim_reconnect, release_reconnect, advance_retry}
use qmux.Manager.State.{
  Name, generation_none, handshaking, pending, registered, phase_eq, Conn, Manager,
}
use qmux.Manager.Generations.{
  at_endpoint, with_conn, count_up, add_one, find_endpoint, track_at, track_generation,
  move_generation,
}
use qmux.Manager.Publication.{
  new_conn, change_lifecycle, begin_connection, connected, start_reconnection, release_slot,
  max_reconnect_stage, advance, retire_expected, stop_publishing, report_watched, close_connection,
  report_closed,
}
use qmux.Manager.Run.{
  Call, begins, connects, publishes, retires, claims, releases, advances, retires_expected,
  stops_publishing, takes_all, closes, reports, step, run, new_manager,
}
use qmux.Manager.Moves.{there-at_endpoint}
use qmux.Manager.Published.{IsPublishedBut}
use qmux.Manager.Stays.{
  at_counter-IsPublished, add-IsPublished, move-IsPublished, relabel-IsPublished,
  closed-IsPublished, watch-IsPublished, not_registered, not_none,
}
use qmux.Manager.Replaced.{at_conn-holds}
use qmux.Manager.Replacing.{publish-IsPublished}
use qmux.Manager.Exclusive.{retire-IsPublished, detach_at-IsPublished, take_from-IsPublished}

abbrev with_new : Conn → Manager → Manager
with_new d m = record m { conns = m.conns ++ (d ∷ []) }

set-append : (xs : List Conn) (a b : Conn) → set (xs ++ (a ∷ [])) (length xs) b ≡ xs ++ (b ∷ [])
set-append [] a b = refl
set-append (x ∷ xs) a b = ap (λ ys. x ∷ ys) (set-append xs a b)

with_new-IsPublished :
    (m : Manager) (d : Conn)
    → ((k : ℕ) → d.capacity_endpoint ≡ some k → find_endpoint d.server_addr m.endpoints ≡ some k)
    → (d.capacity_phase ≡ generation_none → find_endpoint d.server_addr m.endpoints ≡ none)
    → phase_eq d.capacity_phase registered ≡ false
    → IsPublishedBut none m
    → IsPublishedBut none (with_new d m)
with_new-IsPublished m d placed fresh other v = record {
  placed = λ j b k h at. elim (Bool-cases (j == length m.conns)) [
    | inl last ↦
        let this : d ≡ b = read_last j b h last in
        subst (λ a. find_endpoint a m.endpoints ≡ some k) (ap (λ (w : Conn). w.server_addr) this)
          (placed k (ap (λ (w : Conn). w.capacity_endpoint) this ∙ at))
    | inr before ↦ v.placed j b k (read_before j b h before) at
  ];
  untracked = λ j b h phase. elim (Bool-cases (j == length m.conns)) [
    | inl last ↦
        let this : d ≡ b = read_last j b h last in
        subst (λ a. find_endpoint a m.endpoints ≡ none) (ap (λ (w : Conn). w.server_addr) this)
          (fresh (ap (λ (w : Conn). w.capacity_phase) this ∙ phase))
    | inr before ↦ v.untracked j b (read_before j b h before) phase
  ];
  published = λ j b k e h phase at was off. elim (Bool-cases (j == length m.conns)) [
    | inl last ↦
        not_registered d.capacity_phase other
          (ap (λ (w : Conn). w.capacity_phase) (read_last j b h last) ∙ phase)
    | inr before ↦ v.published j b k e (read_before j b h before) phase at was off
  ];
}
  where
    read_last :
        (j : ℕ) (b : Conn)
        → get_elem? (m.conns ++ (d ∷ [])) j ≡ some b
        → (j == length m.conns) ≡ true
        → d ≡ b
    read_last j b h last = ground (arith, get_elem?-append m.conns d j)

    read_before :
        (j : ℕ) (b : Conn)
        → get_elem? (m.conns ++ (d ∷ [])) j ≡ some b
        → (j == length m.conns) ≡ false
        → get_elem? m.conns j ≡ some b
    read_before j b h before = ground (arith, get_elem?-append m.conns d j)

begin-IsPublished :
    (addr : Name) (m : Manager)
    → IsPublishedBut none m
    → IsPublishedBut none (begin_connection addr m)
unfolding begin_connection track_generation add_one
begin-IsPublished addr m v = found (find_endpoint addr m.endpoints) refl
  where
    found :
        (o : Option ℕ)
        → find_endpoint addr m.endpoints ≡ o
        → IsPublishedBut none
            (track_at o handshaking (length m.conns) (new_conn addr) (with_new (new_conn addr) m))
    found none h = with_new-IsPublished m (new_conn addr) (λ k at. cc) (λ phase. h) refl v
    found (some k) h =
        let d : Conn = record (new_conn addr) {
          capacity_endpoint = some k;
          capacity_phase = handshaking;
        } in
        let n : Manager = with_conn (length m.conns) d (with_new (new_conn addr) m) in
        let same : with_new d m ≡ n =
          ap {B = Manager} (λ cs. record m { conns = cs })
            (sym (set-append m.conns (new_conn addr) d)) in
        watch-IsPublished (at_endpoint (count_up handshaking) (some k) n) (length m.conns) d none
          (there-at_endpoint (count_up handshaking) (some k) n (length m.conns) d (
            ap (λ cs. get_elem? cs (length m.conns)) (set-append m.conns (new_conn addr) d)
            ∙ ground (arith, get_elem?-append m.conns d (length m.conns))))
          (add-IsPublished d handshaking none n (
            subst (IsPublishedBut none) same (
              with_new-IsPublished m d (λ j at. h ∙ at) (λ phase. not_none handshaking refl phase)
                refl v)))

-- A change of the reconnects of an endpoint.
reconnects-IsPublished :
    (f : Endpoint → Endpoint) (o : Option ℕ) (m : Manager)
    → ((l : Endpoint) → (f l).current ≡ l.current)
    → IsPublishedBut none m
    → IsPublishedBut none (at_endpoint (change_lifecycle f) o m)
reconnects-IsPublished f o m same v =
    at_counter-IsPublished (change_lifecycle f) o none m (λ e. refl) (λ e. same e.lifecycle) v

claim-current :
    (l : Endpoint) (expected : Option ℕ) → (claim_reconnect l expected).0.current ≡ l.current
unfolding claim_reconnect
claim-current l expected = ground arith

step-IsPublished : (m : Manager) (c : Call) → IsPublishedBut none m → IsPublishedBut none (step m c)
unfolding step connected start_reconnection release_slot advance retire_expected stop_publishing
    close_connection report_closed release_reconnect advance_retry
step-IsPublished m (begins addr) v = begin-IsPublished addr m v
step-IsPublished m (connects i) v =
    at_conn-holds (IsPublishedBut none) (move_generation handshaking pending i) i m
      (λ c h. move-IsPublished m i c none h v handshaking pending refl refl) (λ h. v)
step-IsPublished m (publishes stopped i) v = publish-IsPublished stopped i m v
step-IsPublished m (retires i) v = retire-IsPublished i m v
step-IsPublished m (claims stopped addr expected) v =
    if_cases (IsPublishedBut none) (m.manager_closed || stopped) _ _ (λ over. v)
      (λ goes.
        reconnects-IsPublished (λ l. (claim_reconnect l expected).0)
          (find_endpoint addr m.endpoints) m (λ l. claim-current l expected) v)
step-IsPublished m (releases addr) v =
    reconnects-IsPublished release_reconnect (find_endpoint addr m.endpoints) m (λ l. refl) v
step-IsPublished m (advances addr stage) v =
    reconnects-IsPublished (λ l. advance_retry l stage max_reconnect_stage)
      (find_endpoint addr m.endpoints) m (λ l. refl) v
step-IsPublished m (retires_expected addr i stable) v =
    detach_at-IsPublished (find_endpoint addr m.endpoints) i stable m v
step-IsPublished m stops_publishing v = record {
  placed = v.placed;
  untracked = v.untracked;
  published = v.published;
}
step-IsPublished m takes_all v = take_from-IsPublished 0 (length m.endpoints) m v
step-IsPublished m (closes i) v =
    at_conn-holds (IsPublishedBut none) (λ c. with_conn i (record c { closed = true })) i m
      (λ c h. relabel-IsPublished m i c h (record c { closed = true }) none refl refl refl v)
      (λ h. v)
step-IsPublished m (reports i) v =
    at_conn-holds (IsPublishedBut none) (report_watched i) i m
      (λ c h.
        if_cases (IsPublishedBut none) (c.closed && c.on_closed) _ _
          (λ watched. closed-IsPublished m i c none h v) (λ free. v))
      (λ h. v)

run-IsPublished :
    (m : Manager) (cs : List Call) → IsPublishedBut none m → IsPublishedBut none (run m cs)
unfolding run
run-IsPublished m [] v = v
run-IsPublished m (c ∷ cs) v = run-IsPublished (step m c) cs (step-IsPublished m c v)

-- Whatever operations run on a new connection manager, in whatever order, a connection that is in the
-- registered phase is the published connection of its capacity endpoint, so an endpoint has at most
-- one; the capacity endpoint of a connection is the first one with its address, and a connection
-- without a phase has an address that no endpoint has.
pub manager-IsPublished :
    (addrs : List Name) (cs : List Call) → IsPublishedBut none (run (new_manager addrs) cs)
unfolding new_manager
manager-IsPublished addrs cs = run-IsPublished (new_manager addrs) cs (record {
  placed = λ i c k h. absurd (empty c h);
  untracked = λ i c h. absurd (empty c h);
  published = λ i c k e h. absurd (empty c h);
})
  where
    empty : (c : Conn) → none ≢ some c
    empty c h = cc
