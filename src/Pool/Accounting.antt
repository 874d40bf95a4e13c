-- ===== src/Pool/Accounting.antt =====
-- Every traffic operation keeps the lease counters exact and within the limits.
use mathlib.Core.Path.{subst}
use qmux.Base.{
  ℕ, zero, suc, ◌≡◌, refl, sym, ◌+◌, ◌-◌, inl, inr, Bool, true, false, Option, none, some, List, [],
  ◌∷◌, arith, ◌==◌, length, get_elem?, set, drop, Option-cases, if_cases, not,
}
use qmux.Base.Assoc.{nat_eq, str_Eq}
use qmux.Pool.State.{
  Error, Result, ok, err, Conn, TcpLease, LeaseState, active, released, Pool, update, is_eligible,
  is_current, tcp, udp, tcp_capacity_error,
}
use qmux.Pool.Retirement.{signal_tcp_drained, finalize_retirement}
use qmux.Pool.Balancer.{Select}
use qmux.Pool.Traffic.{
  values, keep, index_of, take_udp, chosen_udp, udp_room, reserve_udp, release_udp, TcpAdmission,
  Verdict, skip, connection_full, setup_full, take, verdict, take_setup, walk, balance, next_from,
  next, commit_lease, settle_release, release_state, release_lease, record_stream,
}
use qmux.Pool.Frames.{SameTraffic}
use qmux.Pool.Leases.{
  is_pending_lease, is_active_lease, count_leases-append, count_leases-set, IsCounted,
  SameTraffic-IsCounted,
}

pub signal-SameTraffic : (p : Pool) (rt : Option ℕ) → SameTraffic p (signal_tcp_drained p rt)
unfolding signal_tcp_drained
signal-SameTraffic p rt = record {
  leases_eq = ground arith;
  limits_eq = ground arith;
  traffic_eq = λ c. ground arith;
}

pub finalize-SameTraffic : (p : Pool) (c : ℕ) → SameTraffic p (finalize_retirement p c)
unfolding finalize_retirement
finalize-SameTraffic p c = record {
  leases_eq = ground arith;
  limits_eq = ground arith;
  traffic_eq = λ d. ground arith;
}

pub index_of-keep :
    (test : ℕ → Bool) (c : ℕ) (cs : List ℕ) (i : ℕ)
    → index_of c (keep test cs) ≡ some i
    → test c ≡ true
unfolding keep index_of
index_of-keep test c [] i e = cc
index_of-keep test c (d ∷ cs) zero e = ground (arith, index_of-keep test c cs zero)
index_of-keep test c (d ∷ cs) (suc i) e =
    ground (arith, index_of-keep test c cs i, index_of-keep test c cs (suc i))

take_udp-IsCounted :
    (p : Pool) (c : ℕ) → udp_room p c ≡ true → IsCounted p → IsCounted (take_udp p c)
unfolding take_udp
take_udp-IsCounted p c room v d = ground (arith, v d)

pub reserve_udp-IsCounted :
    (select : Select) (p : Pool) → IsCounted p → IsCounted (reserve_udp select p).0
unfolding reserve_udp
reserve_udp-IsCounted select p v =
    if_cases OkCounted (not (p.accounting_faults == 0)) _ _ (λ _. v)
      (λ _.
        if_cases OkCounted (length p.clients == 0) _ _ (λ _. v)
          (λ _.
            if_cases OkCounted (length capable == 0) _ _ (λ _. v)
              (λ _.
                if_cases OkCounted (length (keep (udp_room p) capable) == 0) _ _
                  (λ _ c. ground (arith, v c))
                  (λ _. chosen (select p (keep (udp_room p) capable))))))
  where
    OkCounted : Pool × Result ℕ → Type 0
    OkCounted r = IsCounted r.0

    capable : List ℕ
    capable = keep (λ c. is_eligible (p.conns c) udp) (values p.clients)

    chosen : (choice : Result ℕ × ℕ) → IsCounted (chosen_udp p (keep (udp_room p) capable) choice).0
    chosen (err e, counter) = λ c. ground (arith, v c)
    chosen (ok d, counter) = elim (Option-cases (index_of d (keep (udp_room p) capable))) [
      | inl outside ↦ rw (outside, chosen_udp) (λ c. ground (arith, v c))
      | inr (i, inside) ↦
          rw (inside, chosen_udp)
            (take_udp-IsCounted (record p { balancer_counter = counter }) d
              (index_of-keep (udp_room p) d capable i inside) (λ c. ground (arith, v c)))
    ]

pub release_udp-IsCounted : (p : Pool) (c : Option ℕ) → IsCounted p → IsCounted (release_udp p c).0
unfolding release_udp
release_udp-IsCounted p none v = v
release_udp-IsCounted p (some c) v =
    if_cases {A = Pool × Bool} (λ r. IsCounted r.0) ((p.conns c).udp_sessions == 0) _ _
      (λ _ d. ground (arith, v d))
      (λ _.
        SameTraffic-IsCounted _ _ (finalize-SameTraffic (one_less) c) (λ d. ground (arith, v d)))
  where
    one_less : Pool
    one_less = record p {
      conns = update p.conns c (record (p.conns c) { udp_sessions = (p.conns c).udp_sessions - 1 });
    }

pub verdict-take :
    (p : Pool) (c : ℕ)
    → verdict p c ≡ take
    → (is_current p c ≡ true)
      × (is_eligible (p.conns c) tcp ≡ true)
      × (tcp_capacity_error p (p.conns c) ≡ none)
unfolding verdict tcp_capacity_error
verdict-take p c e = ground arith

take_setup-IsCounted :
    (p : Pool) (c : ℕ) → verdict p c ≡ take → IsCounted p → IsCounted (take_setup p c)
unfolding take_setup tcp_capacity_error
take_setup-IsCounted p c e v d =
    let lease : TcpLease = record { conn = c; state = LeaseState.pending } in
    ground (
      arith,
      v d,
      verdict-take p c e,
      count_leases-append is_pending_lease d p.leases lease,
      count_leases-append is_active_lease d p.leases lease,
    )

pub commit_lease-IsCounted : (p : Pool) (l : ℕ) → IsCounted p → IsCounted (commit_lease p l).0
unfolding commit_lease
commit_lease-IsCounted p l v d = elim (Option-cases (get_elem? p.leases l)) [
  | inl e ↦ rw (e, commit_lease) (v d)
  | inr (lease, e) ↦ ground (
    arith,
    v d,
    count_leases-set is_pending_lease d p.leases l lease (record lease { state = active }) e,
    count_leases-set is_active_lease d p.leases l lease (record lease { state = active }) e,
  )
]

settle_release-IsCounted :
    (p : Pool) (l : ℕ) (lease : TcpLease) (conn : Conn)
    → IsCounted (record p {
      conns = update p.conns lease.conn conn;
      leases = set p.leases l (record lease { state = released });
    })
    → IsCounted (settle_release p l lease conn)
unfolding settle_release
settle_release-IsCounted p l lease conn v =
    SameTraffic-IsCounted _ _ (finalize-SameTraffic _ lease.conn)
      (SameTraffic-IsCounted _ _ (signal-SameTraffic _ _) v)

release_state-IsCounted :
    (p : Pool) (l : ℕ) (lease : TcpLease) (st : LeaseState)
    → lease.state ≡ st
    → get_elem? p.leases l ≡ some lease
    → IsCounted p
    → IsCounted (release_state p l lease st).0
unfolding release_state
release_state-IsCounted p l lease LeaseState.pending was e v =
    settle_release-IsCounted p l lease _ λ d. ground (
      arith,
      v d,
      count_leases-set is_pending_lease d p.leases l lease (record lease { state = released }) e,
      count_leases-set is_active_lease d p.leases l lease (record lease { state = released }) e,
    )
release_state-IsCounted p l lease active was e v = settle_release-IsCounted p l lease _ λ d.
    ground (
      arith,
      v d,
      count_leases-set is_pending_lease d p.leases l lease (record lease { state = released }) e,
      count_leases-set is_active_lease d p.leases l lease (record lease { state = released }) e,
    )
release_state-IsCounted p l lease released was e v = v

pub release_lease-IsCounted : (p : Pool) (l : ℕ) → IsCounted p → IsCounted (release_lease p l).0
unfolding release_lease
release_lease-IsCounted p l v = elim (Option-cases (get_elem? p.leases l)) [
  | inl e ↦ rw (e, release_lease) v
  | inr (lease, e) ↦ rw (e, release_lease) (release_state-IsCounted p l lease lease.state refl e v)
]

pub record_stream-IsCounted : (p : Pool) (l s : ℕ) → IsCounted p → IsCounted (record_stream p l s)
unfolding record_stream
record_stream-IsCounted p l s v d = ground (arith, v d)

walk-IsCounted :
    (p : Pool) (cs : List ℕ) (n : ℕ) (at_connection at_setup : Bool)
    → IsCounted p
    → IsCounted (walk p cs n at_connection at_setup).0
unfolding walk
walk-IsCounted p [] n true at_setup v = λ c. ground (arith, v c)
walk-IsCounted p [] n false true v = λ c. ground (arith, v c)
walk-IsCounted p [] n false false v = v
walk-IsCounted p (c ∷ cs) n at_connection at_setup v =
    by_verdict (verdict p c) refl (λ x y. walk-IsCounted p cs (n + 1) x y v)
  where
    by_verdict :
        (w : Verdict)
        → verdict p c ≡ w
        → ((x y : Bool) → IsCounted (walk p cs (n + 1) x y).0)
        → IsCounted (walk p (c ∷ cs) n at_connection at_setup).0
    by_verdict take e rest = rw (e, walk) (take_setup-IsCounted p c e v)
    by_verdict skip e rest = rw (e, walk) (rest at_connection at_setup)
    by_verdict connection_full e rest = rw (e, walk) (rest true at_setup)
    by_verdict setup_full e rest = rw (e, walk) (rest at_connection true)

-- Only the balancer's counter moves.
pub balance-counter :
    (select : Select) (p : Pool) (a : TcpAdmission)
    → (n : ℕ) × ((balance select p a).0 ≡ record p { balancer_counter = n })
unfolding balance
balance-counter select p a = ((balance select p a).0.balancer_counter, ground arith)

pub next-IsCounted :
    (select : Select) (p : Pool) (a : TcpAdmission) → IsCounted p → IsCounted (next select p a).0
unfolding next
next-IsCounted select p a v =
    if_cases {A = Pool × TcpAdmission × Result (Option ℕ)} (λ r. IsCounted r.0)
      (not (p.accounting_faults == 0)) _ _ (λ _. v)
      (λ _. balanced (balance select p a).1.balance_err)
  where
    b : Pool × TcpAdmission
    b = balance select p a

    w : IsCounted b.0
    w =
        let (n, e) = balance-counter select p a in
        subst IsCounted (sym e) (λ c. ground (arith, v c))

    balanced : (e : Option Error) → IsCounted (next_from b.0 b.1 e).0
    balanced (some e) = w
    balanced none = walk-IsCounted b.0 (drop b.1.next b.1.candidates) b.1.next false false w
