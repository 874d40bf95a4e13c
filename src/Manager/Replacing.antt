-- ===== src/Manager/Replacing.antt =====
-- The publication of a connection in client/connection_manager.go over the one before it.
use qmux.Base.{
  ℕ, ◌≡◌, ◌≢◌, refl, sym, ap, subst, ◌∙◌, Bool, true, false, not, ◌||◌, Option, none, some, ◌==◌,
  ==_iff, get_elem?, if_cases, inl, inr,
}
use qmux.Outbound.Endpoint.{Endpoint, replace}
use qmux.Manager.State.{Phase, pending, registered, phase_eq, Conn, EndpointPhases, Manager}
use qmux.Manager.Generations.{
  count_down, at_endpoint, with_conn, drop_one, find_endpoint, move_generation,
}
use qmux.Manager.Publication.{
  at_conn, set_lifecycle, track_if_new, detach_generation, detach_previous, replace_in,
  publish_tracked, publish_at, publish_server_connection,
}
use qmux.Manager.Tallied.{read_endpoint, conns-at_endpoint}
use qmux.Manager.Published.{
  IsPublishedBut, find_endpoint-at_endpoint, at_endpoint-IsPublished, with_conn-IsPublished,
}
use qmux.Manager.Stays.{
  fault-IsPublished, add-IsPublished, drop-IsPublished, placed-drop_one, there-drop_one,
  track_if_new-same, count_down-current, not_none,
}
use qmux.Manager.Replaced.{at_conn-holds, detach-IsPublished}

self : {A : Type 0} (k : ℕ) → (k == k) ≡ false → A
self k h = absurd (clash (k == k) ((==_iff k k).1 refl) h)
  where
    clash : (b : Bool) → b ≡ true → b ≢ false
    clash b g h = cc

-- What an endpoint publishes when a connection has been put there.
put_current :
    (k i : ℕ) (l : Endpoint) (m : Manager) (c : Conn) (p : Phase) (e2 : EndpointPhases)
    → l.current ≡ some i
    → get_elem? (drop_one c p (at_endpoint (set_lifecycle l) (some k) m)).endpoints k ≡ some e2
    → e2.lifecycle.current ≡ some i
unfolding drop_one
put_current k i l m c p e2 now was =
    let (e1, was1, side1) =
      read_endpoint (count_down p) c.capacity_endpoint (at_endpoint (set_lifecycle l) (some k) m) k
        e2 was in
    let (e0, was0, side0) = read_endpoint (set_lifecycle l) (some k) m k e1 was1 in
    let first : e1.lifecycle.current ≡ some i = elim side0 [
      | inl (at, r) ↦ ap (λ (w : EndpointPhases). w.lifecycle.current) r ∙ now
      | inr (off, r) ↦ self k off
    ] in
    elim side1 [
      | inl (at, r) ↦
          ap (λ (w : EndpointPhases). w.lifecycle.current) r ∙ count_down-current p e1 ∙ first
      | inr (off, r) ↦ ap (λ (w : EndpointPhases). w.lifecycle.current) r ∙ first
    ]

nothing : {A : Type 0} {j : ℕ} → none ≡ some j → A
nothing h = cc

module _ (k i : ℕ) (l : Endpoint) (m : Manager) (c : Conn) (there : get_elem? m.conns i ≡ some c)
    (found : find_endpoint c.server_addr m.endpoints ≡ some k) (now : l.current ≡ some i) where
  moved_in :
      (y : Option ℕ)
      → IsPublishedBut y (at_endpoint (set_lifecycle l) (some k) m)
      → IsPublishedBut y (
          at_conn
            (move_generation pending registered i)
            i
            (at_endpoint (set_lifecycle l) (some k) m))
  unfolding move_generation
  moved_in y v =
      let n : Manager = at_endpoint (set_lifecycle l) (some k) m in
      at_conn-holds (IsPublishedBut y) (move_generation pending registered i) i n
        (λ b h.
          if_cases (IsPublishedBut y) (not (phase_eq b.capacity_phase pending)) _ _
            (λ away. fault-IsPublished b y n v)
            (λ same.
              add-IsPublished b registered y
                (with_conn i (record b { capacity_phase = registered }) (drop_one b pending n))
                (with_conn-IsPublished (drop_one b pending n) i b
                  (record b { capacity_phase = registered }) y y (there-drop_one n i b h pending)
                  (λ j at. placed-drop_one n i b h pending j (v.placed i b j h at))
                  (not_none registered refl) (λ j other off. off)
                  (λ j e2 phase at was off. put_current k i l m b pending e2 now (
                    subst (λ q. get_elem? (drop_one b pending n).endpoints q ≡ some e2)
                      (same_place b j h (v.placed i b j h at)) was))
                  (drop-IsPublished b pending y n v))))
        (λ h. v)
    where
      same_place :
          (b : Conn) (j : ℕ)
          → get_elem? (at_endpoint (set_lifecycle l) (some k) m).conns i ≡ some b
          → find_endpoint b.server_addr (at_endpoint (set_lifecycle l) (some k) m).endpoints
            ≡ some j
          → j ≡ k
      same_place b j h g =
          let here : some c ≡ some b =
            sym there
            ∙ sym (ap (λ cs. get_elem? cs i) (conns-at_endpoint (set_lifecycle l) (some k) m))
            ∙ h in
          let this : c ≡ b = cc in
          let both : some k ≡ some j =
            sym found
            ∙ ap (λ (w : Conn). find_endpoint w.server_addr m.endpoints) this
            ∙ sym (find_endpoint-at_endpoint (set_lifecycle l) (some k) m b.server_addr (λ e. refl))
            ∙ g in
          cc

  current_there :
      (e : EndpointPhases) (o : Option ℕ)
      → get_elem? m.endpoints k ≡ some e
      → e.lifecycle.current ≡ o
      → (q : ℕ) (d : EndpointPhases) → get_elem? m.endpoints q ≡ some d
      → k ≡ q
      → d.lifecycle.current ≡ o
  current_there e o was before q d h at =
      let this : e ≡ d = cc in ap (λ (w : EndpointPhases). w.lifecycle.current) (sym this) ∙ before

  pub replaced-IsPublished :
      (e : EndpointPhases)
      → get_elem? m.endpoints k ≡ some e
      → IsPublishedBut none m
      → (o : Option ℕ) → e.lifecycle.current ≡ o
      → IsPublishedBut none (
          detach_previous i o (
            at_conn
              (move_generation pending registered i)
              i
              (at_endpoint (set_lifecycle l) (some k) m)))
  replaced-IsPublished e was v none before = moved_in none (
      at_endpoint-IsPublished (set_lifecycle l) (some k) m none none (λ d. refl) (λ j h. h)
        (λ q d j h at off old.
          nothing (sym (current_there e none was before q d h ((==_iff k q).0 at)) ∙ old))
        v)
  replaced-IsPublished e was v (some j) before =
      let n : Manager =
        at_conn (move_generation pending registered i) i
          (at_endpoint (set_lifecycle l) (some k) m) in
      if_cases (IsPublishedBut none) (j == i) n (detach_generation j n)
        (λ same. moved_in none (
          at_endpoint-IsPublished (set_lifecycle l) (some k) m none none (λ d. refl) (λ a h. h)
            (λ q d a h at off old.
              now
              ∙ ap some (sym ((==_iff j i).0 same))
              ∙ sym (current_there e (some j) was before q d h ((==_iff k q).0 at))
              ∙ old)
            v))
        (λ other. detach-IsPublished j n (
          moved_in (some j) (
            at_endpoint-IsPublished (set_lifecycle l) (some k) m none (some j) (λ d. refl)
              (λ a h. refl)
              (λ q d a h at off old.
                apart a off
                  (sym (current_there e (some j) was before q d h ((==_iff k q).0 at)) ∙ old))
              v)))
    where
      apart : {A : Type 0} (a : ℕ) → (j == a) ≡ false → some j ≡ some a → A
      apart a off h = let same : j ≡ a = cc in self a (subst (λ w. (w == a) ≡ false) same off)

publish_tracked-IsPublished :
    (k i : ℕ) (m : Manager) (c : Conn)
    → get_elem? m.conns i ≡ some c
    → find_endpoint c.server_addr m.endpoints ≡ some k
    → IsPublishedBut none m
    → IsPublishedBut none (publish_tracked k i c m)
unfolding replace
publish_tracked-IsPublished k i m c there found v =
    if_cases (IsPublishedBut none) (phase_eq c.capacity_phase pending) _ _
      (λ waits. put (get_elem? m.endpoints k) refl) (λ other. fault-IsPublished c none m v)
  where
    put :
        (o : Option EndpointPhases)
        → get_elem? m.endpoints k ≡ o
        → IsPublishedBut none (replace_in k i o m)
    put none h = v
    put (some e) h =
        replaced-IsPublished k i (record e.lifecycle { current = some i }) m c there found refl e h
          v e.lifecycle.current refl

pub publish-IsPublished :
    (stopped : Bool) (i : ℕ) (m : Manager)
    → IsPublishedBut none m
    → IsPublishedBut none (publish_server_connection stopped i m)
unfolding publish_server_connection
publish-IsPublished stopped i m v =
    if_cases (IsPublishedBut none) (m.manager_closed || stopped) _ _ (λ over. v)
      (λ goes.
        at_conn-holds (IsPublishedBut none)
          (λ c. publish_at (find_endpoint c.server_addr m.endpoints) i) i m
          (λ c h. placed c h (find_endpoint c.server_addr m.endpoints) refl) (λ h. v))
  where
    twice : (c b : Conn) → get_elem? m.conns i ≡ some c → get_elem? m.conns i ≡ some b → b ≡ c
    twice c b h there = cc

    placed :
        (c : Conn)
        → get_elem? m.conns i ≡ some c
        → (o : Option ℕ) → find_endpoint c.server_addr m.endpoints ≡ o
        → IsPublishedBut none (publish_at o i m)
    placed c h none found = v
    placed c h (some k) found =
        subst (λ n. IsPublishedBut none (at_conn (publish_tracked k i) i n))
          (sym (
            at_conn-holds (λ n. n ≡ m) (track_if_new pending i) i m
              (λ b there. track_if_new-same pending i b m none there v) (λ there. refl)))
          (at_conn-holds (IsPublishedBut none) (publish_tracked k i) i m
            (λ b there.
              publish_tracked-IsPublished k i m b there
                (ap (λ (w : Conn). find_endpoint w.server_addr m.endpoints) (twice c b h there)
                  ∙ found)
                v)
            (λ there. v))
