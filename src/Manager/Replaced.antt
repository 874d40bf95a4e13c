-- ===== src/Manager/Replaced.antt =====
-- The operations of client/connection_manager.go that publish and give up a connection.
use qmux.Base.{
  ℕ, ◌≡◌, refl, sym, ap, subst, ◌∙◌, Bool, true, false, not, Option, none, some, ◌==◌, ==_iff,
  get_elem?, if_cases, arith, Bool-cases, inl, inr,
}
use qmux.Manager.State.{Phase, registered, retiring, phase_eq, Conn, EndpointPhases, Manager}
use qmux.Manager.Generations.{with_conn, drop_one, track_generation, move_generation}
use qmux.Manager.Publication.{
  on_conn, at_conn, is_gone, track_if_new, detach_tracked, detach_generation,
}
use qmux.Manager.Published.{IsPublishedBut}
use qmux.Manager.Stays.{
  fault-IsPublished, add-IsPublished, leave-IsPublished, track_if_new-same, not_registered,
}

pub at_conn-holds :
    (P : Manager → Type 0) (f : Conn → Manager → Manager) (i : ℕ) (m : Manager)
    → ((c : Conn) → get_elem? m.conns i ≡ some c → P (f c m))
    → (get_elem? m.conns i ≡ none → P m)
    → P (at_conn f i m)
at_conn-holds P f i m some_case none_case = found (get_elem? m.conns i) refl
  where
    found : (o : Option Conn) → get_elem? m.conns i ≡ o → P (on_conn f i o m)
    found none h = none_case h
    found (some c) h = some_case c h

-- The one that was left out is not registered, or published.
pub cover-IsPublished :
    (i : ℕ) (m : Manager)
    → ((c : Conn) (k : ℕ) (e : EndpointPhases)
        → get_elem? m.conns i ≡ some c
        → c.capacity_phase ≡ registered
        → c.capacity_endpoint ≡ some k
        → get_elem? m.endpoints k ≡ some e
        → e.lifecycle.current ≡ some i)
    → IsPublishedBut (some i) m
    → IsPublishedBut none m
cover-IsPublished i m covered v = record {
  placed = v.placed;
  untracked = v.untracked;
  published = λ j c k e there phase at was off. elim (Bool-cases (i == j)) [
    | inl same ↦
        let name : i ≡ j = (==_iff i j).0 same in
        subst (λ n. e.lifecycle.current ≡ some n) name
          (covered c k e (ap (get_elem? m.conns) name ∙ there) phase at was)
    | inr other ↦ v.published j c k e there phase at was other
  ];
}

leave_out : (i : ℕ) (m : Manager) → IsPublishedBut none m → IsPublishedBut (some i) m
leave_out i m v = record {
  placed = v.placed;
  untracked = v.untracked;
  published = λ j c k e there phase at was off. v.published j c k e there phase at was refl;
}

same_if : (b : Bool) → not b ≡ false → b ≡ true
same_if b h = ground arith

gone_phase : {A : Type 0} (p : Phase) → is_gone p ≡ true → p ≡ registered → A
gone_phase p h e = cc

clash : {A : Type 0} {c : Conn} {o : Option Conn} → o ≡ none → o ≡ some c → A
clash h k = cc

-- A connection that is detached is registered no more.
detached_tracked :
    (i : ℕ) (m : Manager) (c : Conn)
    → get_elem? m.conns i ≡ some c
    → IsPublishedBut (some i) m
    → IsPublishedBut none (detach_tracked i c m)
unfolding move_generation
detached_tracked i m c there v =
    if_cases (IsPublishedBut none) (is_gone c.capacity_phase) _ _
      (λ gone.
        cover-IsPublished i m
          (λ b k e h phase.
            gone_phase c.capacity_phase gone
              (ap (λ (w : Conn). w.capacity_phase) (twice b h) ∙ phase))
          v)
      (λ here.
        if_cases (IsPublishedBut none) (not (phase_eq c.capacity_phase registered)) _ _
          (λ other. fault-IsPublished c none m (
            cover-IsPublished i m
              (λ b k e h phase.
                not_registered c.capacity_phase
                  (not_false (phase_eq c.capacity_phase registered) other)
                  (ap (λ (w : Conn). w.capacity_phase) (twice b h) ∙ phase))
              v))
          (λ same.
            add-IsPublished c retiring none
              (with_conn i (record c { capacity_phase = retiring }) (drop_one c registered m))
              (leave-IsPublished m i c there registered retiring (some i) none refl refl
                (λ j other off. other) v)))
  where
    twice : (b : Conn) → get_elem? m.conns i ≡ some b → c ≡ b
    twice b h = cc

    not_false : (b : Bool) → not b ≡ true → b ≡ false
    not_false b h = ground arith

pub detach-IsPublished :
    (i : ℕ) (m : Manager) → IsPublishedBut (some i) m → IsPublishedBut none (detach_generation i m)
unfolding detach_generation track_generation
detach-IsPublished i m v =
    subst (λ n. IsPublishedBut none (at_conn (detach_tracked i) i n)) (sym tracked)
      (at_conn-holds (IsPublishedBut none) (detach_tracked i) i m
        (λ c h. detached_tracked i m c h v)
        (λ h. cover-IsPublished i m (λ c k e there. clash h there) v))
  where
    tracked : at_conn (track_if_new registered i) i m ≡ m
    tracked =
        at_conn-holds (λ n. n ≡ m) (track_if_new registered i) i m
          (λ c h. track_if_new-same registered i c m (some i) h v) (λ h. refl)
