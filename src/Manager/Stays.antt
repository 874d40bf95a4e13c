-- ===== src/Manager/Stays.antt =====
-- The generation operations of client/connection_manager.go keep the published connections.
use qmux.Base.{
  ℕ, ◌≡◌, ◌≢◌, refl, sym, ap, ◌∙◌, Bool, true, false, not, Option, some, ◌==◌, get_elem?, if_cases,
  arith,
}
use qmux.Manager.State.{
  Phase, generation_none, handshaking, pending, registered, retiring, generation_done, phase_eq,
  Conn, EndpointPhases, Manager,
}
use qmux.Manager.Generations.{
  fault, count_up, count_down, at_endpoint, with_conn, add_one, drop_one, generation_fault,
  finish_generation, closed_in, generation_closed, watch_close, track_at, find_endpoint,
  track_generation, move_generation,
}
use qmux.Manager.Publication.{track_if_new}
use qmux.Manager.Tallied.{is_at}
use qmux.Manager.Moves.{phase_eq_sound, there-at_endpoint}
use qmux.Manager.Published.{
  IsPublishedBut, find_endpoint-at_endpoint, at_endpoint-IsPublished, with_conn-IsPublished,
}

-- The counters are not what the publication reads.
pub at_counter-IsPublished :
    (f : EndpointPhases → EndpointPhases) (o x : Option ℕ) (m : Manager)
    → ((e : EndpointPhases) → (f e).endpoint ≡ e.endpoint)
    → ((e : EndpointPhases) → (f e).lifecycle.current ≡ e.lifecycle.current)
    → IsPublishedBut x m
    → IsPublishedBut x (at_endpoint f o m)
at_counter-IsPublished f o x m named same v =
    at_endpoint-IsPublished f o m x x named (λ i h. h) (λ k e i was at off now. same e ∙ now) v

pub count_up-endpoint : (p : Phase) (e : EndpointPhases) → (count_up p e).endpoint ≡ e.endpoint
unfolding count_up
count_up-endpoint p e = ground arith

pub count_up-current :
    (p : Phase) (e : EndpointPhases) → (count_up p e).lifecycle.current ≡ e.lifecycle.current
unfolding count_up
count_up-current p e = ground arith

pub count_down-endpoint : (p : Phase) (e : EndpointPhases) → (count_down p e).endpoint ≡ e.endpoint
unfolding count_down
count_down-endpoint p e = ground arith

pub count_down-current :
    (p : Phase) (e : EndpointPhases) → (count_down p e).lifecycle.current ≡ e.lifecycle.current
unfolding count_down
count_down-current p e = ground arith

pub fault-IsPublished :
    (c : Conn) (x : Option ℕ) (m : Manager)
    → IsPublishedBut x m
    → IsPublishedBut x (generation_fault c m)
unfolding generation_fault
fault-IsPublished c x m v =
    at_counter-IsPublished fault c.capacity_endpoint x m (λ e. refl) (λ e. refl) v

pub drop-IsPublished :
    (c : Conn) (p : Phase) (x : Option ℕ) (m : Manager)
    → IsPublishedBut x m
    → IsPublishedBut x (drop_one c p m)
unfolding drop_one
drop-IsPublished c p x m v =
    at_counter-IsPublished (count_down p) c.capacity_endpoint x m (count_down-endpoint p)
      (count_down-current p) v

pub add-IsPublished :
    (c : Conn) (p : Phase) (x : Option ℕ) (m : Manager)
    → IsPublishedBut x m
    → IsPublishedBut x (add_one c p m)
unfolding add_one
add-IsPublished c p x m v =
    at_counter-IsPublished (count_up p) c.capacity_endpoint x m (count_up-endpoint p)
      (count_up-current p) v

-- A phase that is not the registered one.
pub not_registered : {A : Type 0} (p : Phase) → phase_eq p registered ≡ false → p ≡ registered → A
not_registered handshaking h e = cc
not_registered pending h e = cc
not_registered registered h e = cc
not_registered retiring h e = cc
not_registered generation_none h e = cc
not_registered generation_done h e = cc

pub not_none :
    {A : Type 0} (p : Phase) → phase_eq p generation_none ≡ false → p ≡ generation_none → A
not_none handshaking h e = cc
not_none pending h e = cc
not_none registered h e = cc
not_none retiring h e = cc
not_none generation_none h e = cc
not_none generation_done h e = cc

module _ (m : Manager) (i : ℕ) (c : Conn) (there : get_elem? m.conns i ≡ some c) where
  pub there-drop_one : (p : Phase) → get_elem? (drop_one c p m).conns i ≡ some c
  unfolding drop_one
  there-drop_one p = there-at_endpoint (count_down p) c.capacity_endpoint m i c there

  pub placed-drop_one :
      (p : Phase) (k : ℕ)
      → find_endpoint c.server_addr m.endpoints ≡ some k
      → find_endpoint c.server_addr (drop_one c p m).endpoints ≡ some k
  unfolding drop_one
  placed-drop_one p k h =
      find_endpoint-at_endpoint (count_down p) c.capacity_endpoint m c.server_addr
        (count_down-endpoint p)
      ∙ h

  -- A connection that leaves its phase for one that is not the registered one.
  pub leave-IsPublished :
      (p q : Phase) (x y : Option ℕ)
      → phase_eq q registered ≡ false
      → phase_eq q generation_none ≡ false
      → ((j : ℕ) → (i == j) ≡ false → is_at y j ≡ false → is_at x j ≡ false)
      → IsPublishedBut x m
      → IsPublishedBut y (with_conn i (record c { capacity_phase = q }) (drop_one c p m))
  leave-IsPublished p q x y other tracked narrower v =
      with_conn-IsPublished (drop_one c p m) i c (record c { capacity_phase = q }) x y
        (there-drop_one p) (λ k at. placed-drop_one p k (v.placed i c k there at))
        (not_none q tracked) narrower (λ k e phase. not_registered q other phase)
        (drop-IsPublished c p x m v)

  -- One whose flags change.
  pub relabel-IsPublished :
      (d : Conn) (x : Option ℕ)
      → d.server_addr ≡ c.server_addr
      → d.capacity_endpoint ≡ c.capacity_endpoint
      → d.capacity_phase ≡ c.capacity_phase
      → IsPublishedBut x m
      → IsPublishedBut x (with_conn i d m)
  relabel-IsPublished d x named at phase v =
      with_conn-IsPublished m i c d x x there
        (λ k h. ap (λ a. find_endpoint a m.endpoints) named ∙ v.placed i c k there (sym at ∙ h))
        (λ r. ap (λ a. find_endpoint a m.endpoints) named ∙ v.untracked i c there (sym phase ∙ r))
        (λ j other off. off)
        (λ k e r h was off. v.published i c k e there (sym phase ∙ r) (sym at ∙ h) was off) v

  finish-IsPublished :
      (x : Option ℕ) → IsPublishedBut x m → IsPublishedBut x (finish_generation i c m)
  finish-IsPublished x v =
      leave-IsPublished c.capacity_phase generation_done x x refl refl (λ j other off. off) v

module _ (m : Manager) (i : ℕ) (c : Conn) (x : Option ℕ) (there : get_elem? m.conns i ≡ some c)
    (v : IsPublishedBut x m) where
  pub closed-IsPublished : IsPublishedBut x (generation_closed i c m)
  unfolding generation_closed generation_fault
  closed-IsPublished = by_phase c.capacity_phase
    where
      by_phase : (p : Phase) → IsPublishedBut x (closed_in p i c m)
      by_phase handshaking = finish-IsPublished m i c there x v
      by_phase pending = finish-IsPublished m i c there x v
      by_phase retiring = finish-IsPublished m i c there x v
      by_phase registered =
          finish-IsPublished (generation_fault c m) i c
            (there-at_endpoint fault c.capacity_endpoint m i c there) x (fault-IsPublished c x m v)
      by_phase generation_none = v
      by_phase generation_done = v

  pub watch-IsPublished : IsPublishedBut x (watch_close i c m)
  watch-IsPublished =
      if_cases (IsPublishedBut x) c.closed _ _ (λ closed. closed-IsPublished)
        (λ still.
          relabel-IsPublished m i c there (record c { on_closed = true }) x refl refl refl v)

  -- A move to a phase that is not the registered one.
  pub move-IsPublished :
      (p q : Phase)
      → phase_eq q registered ≡ false
      → phase_eq q generation_none ≡ false
      → IsPublishedBut x (move_generation p q i c m)
  unfolding move_generation
  move-IsPublished p q other tracked =
      if_cases (IsPublishedBut x) (not (phase_eq c.capacity_phase p)) _ _
        (λ away. fault-IsPublished c x m v)
        (λ same.
          add-IsPublished c q x (with_conn i (record c { capacity_phase = q }) (drop_one c p m))
            (leave-IsPublished m i c there p q x x other tracked (λ j away off. off) v))

-- A connection that no endpoint counts has an address that none has.
pub track_if_new-same :
    (p : Phase) (i : ℕ) (c : Conn) (m : Manager) (x : Option ℕ)
    → get_elem? m.conns i ≡ some c
    → IsPublishedBut x m
    → track_if_new p i c m ≡ m
unfolding track_generation
track_if_new-same p i c m x there v =
    if_cases (λ r. r ≡ m) (phase_eq c.capacity_phase generation_none) _ _
      (λ new.
        let none_yet = phase_eq_sound c.capacity_phase generation_none new in
        if_cases (λ r. r ≡ m) (not (phase_eq c.capacity_phase generation_none)) _ _
          (λ busy. absurd (clash (phase_eq c.capacity_phase generation_none) new busy))
          (λ free. ap (λ o. track_at o p i c m) (v.untracked i c there none_yet)))
      (λ old. refl)
  where
    clash : (b : Bool) → b ≡ true → not b ≢ true
    clash b h k = ground arith
