-- ===== src/Manager/Kept.antt =====
-- The moves of a generation in client/connection_manager.go keep the counters exact.
use qmux.Base.{
  ℕ, ◌≡◌, refl, sym, ap, ◌∙◌, ◌≤◌, Bool, true, false, ◌&&◌, some, get_elem?, count_by-set, arith,
}
use qmux.Manager.State.{Phase, generation_done, phase_eq, Conn, EndpointPhases, Manager}
use qmux.Manager.Generations.{
  tally, is_counted, count_up, count_down, at_endpoint, with_conn, drop_one, finish_generation,
}
use qmux.Manager.Tallied.{
  is_at, is_placed, IsTallied, one_if, count_up-tally, count_down-tally, count_up-total,
  count_down-total, change-IsTallied,
}

uncounted_phase : (p q : Phase) → is_counted p ≡ false → is_counted q ≡ true → phase_eq p q ≡ false
uncounted_phase p q h k = ground arith

phase_eq_self : (p : Phase) → phase_eq p p ≡ true
phase_eq_self p = ground arith

off_phase :
    (k : ℕ) (p : Phase) (c : Conn) → phase_eq c.capacity_phase p ≡ false → is_placed k p c ≡ false
off_phase k p c h = ground arith

off_endpoint :
    (k : ℕ) (p : Phase) (c : Conn) → is_at c.capacity_endpoint k ≡ false → is_placed k p c ≡ false
off_endpoint k p c h = ground arith

on_endpoint :
    (k : ℕ) (p : Phase) (c : Conn)
    → is_at c.capacity_endpoint k ≡ true
    → is_placed k p c ≡ phase_eq c.capacity_phase p
on_endpoint k p c h = ground arith

one : {a b : Bool} → a ≡ b → one_if a ≡ one_if b
one e = ap {B = ℕ} (λ x. one_if x) e

module _ (m : Manager) (i : ℕ) (c : Conn) (there : get_elem? m.conns i ≡ some c)
    (v : IsTallied m) where
  -- A generation that counts is one of those counted.
  counted_once :
      (k : ℕ) (e : EndpointPhases)
      → get_elem? m.endpoints k ≡ some e
      → is_at c.capacity_endpoint k ≡ true
      → is_counted c.capacity_phase ≡ true
      → 1 ≤ tally e c.capacity_phase
  counted_once k e was at counted =
      let p : Phase = c.capacity_phase in
      let gone : Conn = record c { capacity_phase = generation_done } in
      omega (
        arith,
        v.tallies k e p was counted,
        count_by-set (is_placed k p) m.conns i c gone there,
        one (on_endpoint k p c at ∙ phase_eq_self p),
        one (off_phase k p gone (uncounted_phase generation_done p refl counted)),
      )

  -- A generation ends.
  pub finish-IsTallied : IsTallied (finish_generation i c m)
  unfolding drop_one
  finish-IsTallied =
      let gone : Conn = record c { capacity_phase = generation_done } in
      let p : Phase = c.capacity_phase in
      change-IsTallied m i c gone there v (count_down p) c.capacity_endpoint
        (λ k e q was counted at. omega (
          arith,
          count_down-tally p q e (counted_once k e was at) counted,
          one (on_endpoint k q c at),
          one (off_phase k q gone (uncounted_phase generation_done q refl counted)),
        ))
        (λ k q counted off. one (off_endpoint k q c off) ∙ sym (one (off_endpoint k q gone off)))
        (count_down-total p)

  -- A generation that does not count comes to count.
  pub raise-IsTallied :
      (d : Conn)
      → is_counted c.capacity_phase ≡ false
      → IsTallied (with_conn i d (at_endpoint (count_up d.capacity_phase) d.capacity_endpoint m))
  raise-IsTallied d uncounted =
      change-IsTallied m i c d there v (count_up d.capacity_phase) d.capacity_endpoint
        (λ k e q was counted at. omega (
          arith,
          count_up-tally d.capacity_phase q e,
          one (off_phase k q c (uncounted_phase c.capacity_phase q uncounted counted)),
          one (on_endpoint k q d at ∙ same_count d.capacity_phase q counted),
        ))
        (λ k q counted off.
          one (off_phase k q c (uncounted_phase c.capacity_phase q uncounted counted))
          ∙ sym (one (off_endpoint k q d off)))
        (count_up-total d.capacity_phase)
    where
      same_count :
          (p q : Phase) → is_counted q ≡ true → phase_eq p q ≡ (phase_eq p q && is_counted p)
      same_count p q h = ground arith
