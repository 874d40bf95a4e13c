-- ===== src/Manager/Moves.antt =====
-- The generation operations of client/connection_manager.go keep the counters exact.
use qmux.Base.{
  ℕ, zero, suc, ◌≡◌, refl, sym, ap, subst, ◌∙◌, ◌≤◌, Bool, true, false, not, Option, none, some,
  List, [], ◌∷◌, get_elem?, set, get_elem?-set, if_cases, arith, inl, inr,
}
use qmux.Base.Lists.{count_by}
use qmux.Manager.State.{
  Phase, generation_none, handshaking, pending, registered, retiring, generation_done, phase_eq,
  Conn, EndpointPhases, Manager,
}
use qmux.Manager.Generations.{
  total, tally, fault, is_counted, count_up, count_down, change_found, at_endpoint, with_conn,
  add_one, drop_one, generation_fault, closed_in, generation_closed, watch_close, track_at,
  find_endpoint, track_generation, move_generation,
}
use qmux.Manager.Tallied.{is_placed, IsTallied, change-IsTallied, conns-at_endpoint, read_endpoint}
use qmux.Manager.Kept.{finish-IsTallied, raise-IsTallied}

pub phase_eq_sound : (p q : Phase) → phase_eq p q ≡ true → p ≡ q
phase_eq_sound p q h = ground arith

undo_negation : (b : Bool) → not b ≡ false → b ≡ true
undo_negation b h = ground arith

-- A change of an endpoint that leaves its counters.
pub quiet-IsTallied :
    (f : EndpointPhases → EndpointPhases) (o : Option ℕ) (m : Manager)
    → ((e : EndpointPhases) (p : Phase) → tally (f e) p ≡ tally e p)
    → ((e : EndpointPhases)
        → total e ≤ e.generation_high_water
        → total (f e) ≤ (f e).generation_high_water)
    → IsTallied m
    → IsTallied (at_endpoint f o m)
quiet-IsTallied f o m same keeps v = record {
  tallies = λ k e' p h q.
      let (e, was, side) = read_endpoint f o m k e' h in
      let there =
        v.tallies k e p was q ∙ sym (ap (count_by (is_placed k p)) (conns-at_endpoint f o m)) in
      elim side [
        | inl (at, r) ↦ ap (λ x. tally x p) r ∙ same e p ∙ there
        | inr (off, r) ↦ ap (λ x. tally x p) r ∙ there
      ];
  high = λ k e' h.
      let (e, was, side) = read_endpoint f o m k e' h in
      elim side [
        | inl (at, r) ↦
            subst (λ x. total x ≤ x.generation_high_water) (sym r) (keeps e (v.high k e was))
        | inr (off, r) ↦ subst (λ x. total x ≤ x.generation_high_water) (sym r) (v.high k e was)
      ];
}

pub fault-IsTallied : (c : Conn) (m : Manager) → IsTallied m → IsTallied (generation_fault c m)
unfolding generation_fault
fault-IsTallied c m v =
    quiet-IsTallied fault c.capacity_endpoint m (λ e p. ground arith) (λ e h. h) v

-- A change of an endpoint and one of a connection do not meet.
at_endpoint-with_conn :
    (f : EndpointPhases → EndpointPhases) (o : Option ℕ) (i : ℕ) (d : Conn) (m : Manager)
    → at_endpoint f o (with_conn i d m) ≡ with_conn i d (at_endpoint f o m)
at_endpoint-with_conn f none i d m = refl
at_endpoint-with_conn f (some k) i d m = found (get_elem? m.endpoints k)
  where
    found :
        (o : Option EndpointPhases)
        → change_found f k o (with_conn i d m) ≡ with_conn i d (change_found f k o m)
    found none = refl
    found (some e) = refl

set-set : (xs : List Conn) (i : ℕ) (a b : Conn) → set (set xs i a) i b ≡ set xs i b
set-set [] i a b = refl
set-set (x ∷ xs) zero a b = refl
set-set (x ∷ xs) (suc i) a b = ap (λ ys. x ∷ ys) (set-set xs i a b)

pub there-at_endpoint :
    (f : EndpointPhases → EndpointPhases) (o : Option ℕ) (m : Manager) (i : ℕ) (c : Conn)
    → get_elem? m.conns i ≡ some c
    → get_elem? (at_endpoint f o m).conns i ≡ some c
there-at_endpoint f o m i c there = ap (λ cs. get_elem? cs i) (conns-at_endpoint f o m) ∙ there

module _ (m : Manager) (i : ℕ) (c : Conn) (there : get_elem? m.conns i ≡ some c)
    (v : IsTallied m) where
  -- A connection that changes and keeps its place.
  pub relabel-IsTallied :
      (d : Conn)
      → d.capacity_endpoint ≡ c.capacity_endpoint
      → d.capacity_phase ≡ c.capacity_phase
      → IsTallied (with_conn i d m)
  relabel-IsTallied d at phase =
      change-IsTallied m i c d there v (λ e. e) none (λ k e p was q absurd_at. cc) (λ k p q off. cc)
        (λ e h. h)

  pub closed-IsTallied : IsTallied (generation_closed i c m)
  unfolding generation_closed generation_fault
  closed-IsTallied = by_phase c.capacity_phase
    where
      by_phase : (p : Phase) → IsTallied (closed_in p i c m)
      by_phase handshaking = finish-IsTallied m i c there v
      by_phase pending = finish-IsTallied m i c there v
      by_phase retiring = finish-IsTallied m i c there v
      by_phase registered =
          finish-IsTallied (generation_fault c m) i c
            (there-at_endpoint fault c.capacity_endpoint m i c there) (fault-IsTallied c m v)
      by_phase generation_none = v
      by_phase generation_done = v

  watch-IsTallied : IsTallied (watch_close i c m)
  watch-IsTallied =
      if_cases IsTallied c.closed _ _ (λ closed. closed-IsTallied)
        (λ still. relabel-IsTallied (record c { on_closed = true }) refl refl)

pub there-with_conn :
    (m : Manager) (i : ℕ) (c d : Conn)
    → get_elem? m.conns i ≡ some c
    → get_elem? (with_conn i d m).conns i ≡ some d
there-with_conn m i c d there = ground (arith, get_elem?-set m.conns i i c d there)

with_conn-with_conn :
    (m : Manager) (i : ℕ) (a b : Conn) → with_conn i b (with_conn i a m) ≡ with_conn i b m
with_conn-with_conn m i a b =
    ap {B = Manager} (λ cs. record m { conns = cs }) (set-set m.conns i a b)

module _ (m : Manager) (i : ℕ) (c : Conn) (there : get_elem? m.conns i ≡ some c)
    (v : IsTallied m) where
  track_at-IsTallied :
      (o : Option ℕ) (p : Phase)
      → is_counted c.capacity_phase ≡ false
      → IsTallied (track_at o p i c m)
  unfolding add_one
  track_at-IsTallied none p h = v
  track_at-IsTallied (some k) p h =
      let d : Conn = record c { capacity_endpoint = some k; capacity_phase = p } in
      watch-IsTallied (at_endpoint (count_up p) (some k) (with_conn i d m)) i d
        (there-at_endpoint (count_up p) (some k) (with_conn i d m) i d
          (there-with_conn m i c d there))
        (subst IsTallied (sym (at_endpoint-with_conn (count_up p) (some k) i d m))
          (raise-IsTallied m i c there v d h))

  pub track-IsTallied : (p : Phase) → IsTallied (track_generation p i c m)
  unfolding track_generation
  track-IsTallied p =
      if_cases IsTallied (not (phase_eq c.capacity_phase generation_none)) _ _
        (λ busy. fault-IsTallied c m v)
        (λ new.
          track_at-IsTallied (find_endpoint c.server_addr m.endpoints) p
            (ap is_counted (phase_eq_sound c.capacity_phase generation_none (undo_negation _ new))))

  moved-IsTallied :
      (q : Phase)
      → IsTallied (
          add_one c q
            (with_conn i (record c { capacity_phase = q }) (drop_one c c.capacity_phase m)))
  unfolding add_one drop_one
  moved-IsTallied q =
      let d : Conn = record c { capacity_phase = q } in
      let gone : Conn = record c { capacity_phase = generation_done } in
      let o : Option ℕ = c.capacity_endpoint in
      let low : Manager = at_endpoint (count_down c.capacity_phase) o m in
      let same : with_conn i d (at_endpoint (count_up q) o (with_conn i gone low))
          ≡ at_endpoint (count_up q) o (with_conn i d low) =
        ap (with_conn i d) (at_endpoint-with_conn (count_up q) o i gone low)
        ∙ with_conn-with_conn (at_endpoint (count_up q) o low) i gone d
        ∙ sym (at_endpoint-with_conn (count_up q) o i d low) in
      subst IsTallied same (
        raise-IsTallied (with_conn i gone low) i gone
          (there-with_conn low i c gone
            (there-at_endpoint (count_down c.capacity_phase) o m i c there))
          (finish-IsTallied m i c there v) d refl)

  pub move-IsTallied : (p q : Phase) → IsTallied (move_generation p q i c m)
  unfolding move_generation
  move-IsTallied p q =
      if_cases IsTallied (not (phase_eq c.capacity_phase p)) _ _ (λ other. fault-IsTallied c m v)
        (λ same.
          subst
            (λ r.
              IsTallied
                (add_one c q (with_conn i (record c { capacity_phase = q }) (drop_one c r m))))
            (phase_eq_sound c.capacity_phase p (undo_negation _ same)) (moved-IsTallied q))
