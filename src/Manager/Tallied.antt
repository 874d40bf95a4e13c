-- ===== src/Manager/Tallied.antt =====
-- The counters of client/connection_manager.go count the connections of their endpoint by phase.
use qmux.Base.{
  ℕ, ◌≡◌, ◌≢◌, refl, sym, ap, subst, ◌∙◌, ◌+◌, ◌≤◌, ◌⊎◌, Bool, true, false, ◌&&◌, Option, none,
  some, ◌==◌, ==_iff, get_elem?, set, get_elem?-set, count_by-set, if◌then◌else◌, arith, Bool-cases,
  inl, inr,
}
use qmux.Base.Lists.{count_by}
use qmux.Manager.State.{Phase, phase_eq, Conn, EndpointPhases, Manager}
use qmux.Manager.Generations.{
  total, tally, is_counted, count_up, count_down, change_found, at_endpoint, with_conn,
}

abbrev pub is_at : Option ℕ → ℕ → Bool
is_at none k = false
is_at (some j) k = j == k

-- A connection that counts for a phase of an endpoint.
abbrev pub is_placed : ℕ → Phase → Conn → Bool
is_placed k p c = is_at c.capacity_endpoint k && phase_eq c.capacity_phase p

pub record IsTallied (m : Manager) : Type 0 where
  pub tallies :
      (k : ℕ) (e : EndpointPhases) (p : Phase)
      → get_elem? m.endpoints k ≡ some e
      → is_counted p ≡ true
      → tally e p ≡ count_by (is_placed k p) m.conns
  pub high :
      (k : ℕ) (e : EndpointPhases)
      → get_elem? m.endpoints k ≡ some e
      → total e ≤ e.generation_high_water

abbrev pub one_if : Bool → ℕ
one_if b = if b then 1 else 0

pub count_up-tally :
    (p q : Phase) (e : EndpointPhases)
    → tally (count_up p e) q ≡ tally e q + one_if (phase_eq p q && is_counted p)
unfolding count_up
count_up-tally p q e = ground arith

pub count_down-tally :
    (p q : Phase) (e : EndpointPhases)
    → (is_counted p ≡ true → 1 ≤ tally e p)
    → is_counted q ≡ true
    → tally (count_down p e) q + one_if (phase_eq p q) ≡ tally e q
unfolding count_down
count_down-tally p q e h c = ground arith

pub count_up-total :
    (p : Phase) (e : EndpointPhases)
    → total e ≤ e.generation_high_water
    → total (count_up p e) ≤ (count_up p e).generation_high_water
unfolding count_up
count_up-total p e h = ground arith

pub count_down-total :
    (p : Phase) (e : EndpointPhases)
    → total e ≤ e.generation_high_water
    → total (count_down p e) ≤ (count_down p e).generation_high_water
unfolding count_down
count_down-total p e h = ground arith

none≢some : {A : Type 0} {x : A} → none ≢ some x
none≢some e = cc

-- A read of an endpoint after a change of one.
pub read_endpoint :
    (f : EndpointPhases → EndpointPhases) (o : Option ℕ) (m : Manager) (k : ℕ) (e' : EndpointPhases)
    → get_elem? (at_endpoint f o m).endpoints k ≡ some e'
    → (e : EndpointPhases) × (get_elem? m.endpoints k ≡ some e)
      × (((is_at o k ≡ true) × (e' ≡ f e)) ⊎ ((is_at o k ≡ false) × (e' ≡ e)))
read_endpoint f none m k e' h = (e', h, inr (refl, refl))
read_endpoint f (some j) m k e' h = read_found (get_elem? m.endpoints j) refl h
  where
    read_found :
        (o : Option EndpointPhases)
        → get_elem? m.endpoints j ≡ o
        → get_elem? (change_found f j o m).endpoints k ≡ some e'
        → (e : EndpointPhases) × (get_elem? m.endpoints k ≡ some e)
          × ((((j == k) ≡ true) × (e' ≡ f e)) ⊎ (((j == k) ≡ false) × (e' ≡ e)))
    read_found none p q = elim (Bool-cases (j == k)) [
      | inl same ↦ absurd (none≢some (sym p ∙ ap (get_elem? m.endpoints) ((==_iff j k).0 same) ∙ q))
      | inr other ↦ (e', q, inr (other, refl))
    ]
    read_found (some e) p q = elim (Bool-cases (j == k)) [
      | inl same ↦ (
        e,
        ap (get_elem? m.endpoints) (sym ((==_iff j k).0 same)) ∙ p,
        inl (same, ground (arith, get_elem?-set m.endpoints j k e (f e) p)),
      )
      | inr other ↦ (e', ground (arith, get_elem?-set m.endpoints j k e (f e) p), inr (other, refl))
    ]

pub conns-at_endpoint :
    (f : EndpointPhases → EndpointPhases) (o : Option ℕ) (m : Manager)
    → (at_endpoint f o m).conns ≡ m.conns
conns-at_endpoint f none m = refl
conns-at_endpoint f (some k) m = found (get_elem? m.endpoints k)
  where
    found : (o : Option EndpointPhases) → (change_found f k o m).conns ≡ m.conns
    found none = refl
    found (some e) = refl

-- A connection that changes while the endpoint that counts it keeps account.
module _ (m : Manager) (i : ℕ) (c d : Conn) (there : get_elem? m.conns i ≡ some c)
    (v : IsTallied m) where
  pub change-IsTallied :
      (f : EndpointPhases → EndpointPhases) (o : Option ℕ)
      → ((k : ℕ) (e : EndpointPhases) (p : Phase)
          → get_elem? m.endpoints k ≡ some e
          → is_counted p ≡ true
          → is_at o k ≡ true
          → tally (f e) p + one_if (is_placed k p c) ≡ tally e p + one_if (is_placed k p d))
      → ((k : ℕ) (p : Phase)
          → is_counted p ≡ true
          → is_at o k ≡ false
          → one_if (is_placed k p c) ≡ one_if (is_placed k p d))
      → ((e : EndpointPhases)
          → total e ≤ e.generation_high_water
          → total (f e) ≤ (f e).generation_high_water)
      → IsTallied (with_conn i d (at_endpoint f o m))
  change-IsTallied f o here elsewhere keeps = record {
    tallies = λ k e' p h q.
        let (e, was, side) = read_endpoint f o m k e' h in
        let moved = count_by-set (is_placed k p) m.conns i c d there in
        let same = ap (λ cs. count_by (is_placed k p) (set cs i d)) (conns-at_endpoint f o m) in
        elim side [
          | inl (at, r) ↦ omega (
            arith,
            moved,
            same,
            here k e p was q at,
            v.tallies k e p was q,
            ap (λ x. tally x p) r,
          )
          | inr (off, r) ↦ omega (
            arith,
            moved,
            same,
            elsewhere k p q off,
            v.tallies k e p was q,
            ap (λ x. tally x p) r,
          )
        ];
    high = λ k e' h.
        let (e, was, side) = read_endpoint f o m k e' h in
        elim side [
          | inl (at, r) ↦
              subst (λ x. total x ≤ x.generation_high_water) (sym r) (keeps e (v.high k e was))
          | inr (off, r) ↦ subst (λ x. total x ≤ x.generation_high_water) (sym r) (v.high k e was)
        ];
  }
