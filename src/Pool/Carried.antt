-- ===== src/Pool/Carried.antt =====
-- New traffic goes to known generations only, over every history of calls.
use mathlib.Core.Path.{subst}
use qmux.Base.{
  ℕ, ◌≡◌, refl, sym, ap, ◌+◌, ◌-◌, ◌≤◌, Bool, true, false, Option, none, some, List, [], ◌∷◌, arith,
  ◌==◌, ==_refl, get_elem?, set, Option-cases, Bool-cases, inl, inr, if_cases, length, not, drop,
  str_eq_sound, str_eq_refl,
}
use qmux.Base.Assoc.{nat_eq, str_Eq, lookup, Uniq}
use qmux.Pool.State.{
  Error, Result, ok, err, Conn, Limits, Pool, TcpLease, LeaseState, active, released, is_some,
  update, new_with_limits, is_eligible, udp,
}
use qmux.Pool.Balancer.{Select}
use qmux.Pool.Traffic.{
  values, keep, index_of, udp_room, chosen_udp, take_udp, reserve_udp, release_udp, TcpAdmission,
  Verdict, skip, connection_full, setup_full, take, verdict, take_setup, walk, balance, next_from,
  next, commit_state, commit_lease, release_lease, release_state, settle_release,
}
use qmux.Pool.Leases.{is_pending_lease, count_leases-set, IsCounted}
use qmux.Pool.Accounting.{verdict-take, balance-counter}
use qmux.Pool.Counted.{step-IsCounted, AreIdle, new-IsCounted}
use qmux.Pool.Registry.{IsRegistered}
use qmux.Pool.Registered.{step-IsRegistered, new-IsRegistered}
use qmux.Pool.Tracked.{
  load, is_known, IsTracked, finalize-IsTracked, signal-IsTracked, done-IsTracked,
  begin_retire-IsTracked, commit-IsTracked, abort-IsTracked, reserve-IsTracked,
  begin_pending-IsTracked, mark-IsTracked, begin_tcp_admission-IsTracked, record_stream-IsTracked,
}
use qmux.Pool.Run.{
  Call, begins_pending, reserves, commits, aborts, retires, finishes, marks, reserves_udp,
  releases_udp, begins_admission, admits, commits_lease, releases_lease, records_stream, step, run,
}

index_of-keep_within :
    (test : ℕ → Bool) (c : ℕ) (cs : List ℕ)
    → is_some (index_of c (keep test cs)) ≡ true
    → is_some (index_of c cs) ≡ true
unfolding keep index_of
index_of-keep_within test c [] e = e
index_of-keep_within test c (d ∷ cs) e = ground (arith, index_of-keep_within test c cs)

index_of-values :
    (m : List (List ℕ × ℕ)) (c : ℕ)
    → Uniq m
    → is_some (index_of c (values m)) ≡ true
    → (id : List ℕ) × (lookup id m ≡ some c)
unfolding values index_of lookup
index_of-values [] c u e = ground arith
index_of-values ((id, d) ∷ m) c u e = elim (Bool-cases (d == c)) [
  | inl same ↦ (id, ground (arith, str_eq_refl id))
  | inr other ↦
      let (id', at) = index_of-values m c u.1 (ground arith) in
      (
        id',
        ground
            (arith, u.0, str_eq_sound id id', ap (λ (s : List ℕ). lookup s m) {x = id} {y = id'}),
      )
]

-- A choice among the published clients is a known generation.
chosen-known :
    (p : Pool) (test room : ℕ → Bool) (c i : ℕ)
    → IsRegistered p
    → index_of c (keep room (keep test (values p.clients))) ≡ some i
    → is_known p c ≡ true
chosen-known p test room c i g e =
    let inside : is_some (index_of c (values p.clients)) ≡ true =
      index_of-keep_within test c (values p.clients)
        (index_of-keep_within room c (keep test (values p.clients)) (ground arith)) in
    let (id, at) = index_of-values p.clients c g.clients_uniq inside in
    let (named, _) = g.client_ok id c at in
    ground (arith, ap (λ (s : List ℕ). lookup s p.clients) named)

take_udp-IsTracked :
    (p : Pool) (c : ℕ) → is_known p c ≡ true → IsTracked p → IsTracked (take_udp p c)
unfolding take_udp
take_udp-IsTracked p c here v = record {
  known = λ d. ground (arith, v.known d);
  retiring_uniq = v.retiring_uniq;
}

take_setup-IsTracked :
    (p : Pool) (c : ℕ) → verdict p c ≡ take → IsTracked p → IsTracked (take_setup p c)
unfolding take_setup
take_setup-IsTracked p c e v = record {
  known = λ d. ground (arith, v.known d, verdict-take p c e);
  retiring_uniq = v.retiring_uniq;
}

release_udp-IsTracked : (p : Pool) (c : Option ℕ) → IsTracked p → IsTracked (release_udp p c).0
unfolding release_udp
release_udp-IsTracked p none v = v
release_udp-IsTracked p (some c) v =
    if_cases {A = Pool × Bool} (λ r. IsTracked r.0) ((p.conns c).udp_sessions == 0) _ _
      (λ _. record { known = v.known; retiring_uniq = v.retiring_uniq })
      (λ _.
        finalize-IsTracked one_less c
          (record { known = λ d. ground (arith, v.known d); retiring_uniq = v.retiring_uniq }))
  where
    one_less : Pool
    one_less = record p {
      conns = update p.conns c (record (p.conns c) { udp_sessions = (p.conns c).udp_sessions - 1 });
    }

settle_release-IsTracked :
    (p : Pool) (l : ℕ) (lease : TcpLease) (conn : Conn)
    → load conn ≤ load (p.conns lease.conn)
    → conn.id ≡ (p.conns lease.conn).id
    → IsTracked p
    → IsTracked (settle_release p l lease conn)
unfolding settle_release
settle_release-IsTracked p l lease conn less same v = finalize-IsTracked _ lease.conn (
    signal-IsTracked q (lookup lease.conn q.retiring) (record {
      known = λ d. ground (arith, v.known d, less, same);
      retiring_uniq = v.retiring_uniq;
    }))
  where
    q : Pool
    q = record p {
      conns = update p.conns lease.conn conn;
      leases = set p.leases l (record lease { state = released });
    }

release_state-IsTracked :
    (p : Pool) (l : ℕ) (lease : TcpLease) (st : LeaseState)
    → IsTracked p
    → IsTracked (release_state p l lease st).0
unfolding release_state
release_state-IsTracked p l lease LeaseState.pending v =
    settle_release-IsTracked p l lease _ (omega arith) refl v
release_state-IsTracked p l lease active v =
    settle_release-IsTracked p l lease _ (omega arith) refl v
release_state-IsTracked p l lease released v = v

release_lease-IsTracked : (p : Pool) (l : ℕ) → IsTracked p → IsTracked (release_lease p l).0
unfolding release_lease
release_lease-IsTracked p l v = elim (Option-cases (get_elem? p.leases l)) [
  | inl e ↦ rw (e, release_lease) v
  | inr (lease, e) ↦ rw (e, release_lease) (release_state-IsTracked p l lease lease.state v)
]

reserve_udp-IsTracked :
    (select : Select) (p : Pool) → IsRegistered p → IsTracked p → IsTracked (reserve_udp select p).0
unfolding reserve_udp
reserve_udp-IsTracked select p g v =
    if_cases OkTracked (not (p.accounting_faults == 0)) _ _ (λ _. v)
      (λ _.
        if_cases OkTracked (length p.clients == 0) _ _ (λ _. v)
          (λ _.
            if_cases OkTracked (length capable == 0) _ _ (λ _. v)
              (λ _.
                if_cases OkTracked (length (keep (udp_room p) capable) == 0) _ _
                  (λ _. record { known = v.known; retiring_uniq = v.retiring_uniq })
                  (λ _. chosen (select p (keep (udp_room p) capable))))))
  where
    OkTracked : Pool × Result ℕ → Type 0
    OkTracked r = IsTracked r.0

    capable : List ℕ
    capable = keep (λ c. is_eligible (p.conns c) udp) (values p.clients)

    chosen : (choice : Result ℕ × ℕ) → IsTracked (chosen_udp p (keep (udp_room p) capable) choice).0
    chosen (err e, counter) = record { known = v.known; retiring_uniq = v.retiring_uniq }
    chosen (ok d, counter) = elim (Option-cases (index_of d (keep (udp_room p) capable))) [
      | inl outside ↦
          rw (outside, chosen_udp) (record { known = v.known; retiring_uniq = v.retiring_uniq })
      | inr (i, inside) ↦
          rw (inside, chosen_udp)
            (take_udp-IsTracked (record p { balancer_counter = counter }) d
              (chosen-known p (λ c. is_eligible (p.conns c) udp) (udp_room p) d i g inside)
              (record { known = v.known; retiring_uniq = v.retiring_uniq }))
    ]

commit_lease-IsTracked :
    (p : Pool) (l : ℕ) → IsCounted p → IsTracked p → IsTracked (commit_lease p l).0
unfolding commit_lease
commit_lease-IsTracked p l counts v = elim (Option-cases (get_elem? p.leases l)) [
  | inl e ↦ rw (e, commit_lease) v
  | inr (lease, e) ↦ rw (e, commit_lease) (by_state lease e lease.state refl)
]
  where
    by_state :
        (lease : TcpLease)
        → get_elem? p.leases l ≡ some lease
        → (st : LeaseState) → lease.state ≡ st
        → IsTracked (commit_state p l lease st).0
    by_state lease e LeaseState.pending was = record {
      known = λ d. ground (
        arith,
        v.known d,
        counts lease.conn,
        count_leases-set is_pending_lease lease.conn p.leases l lease
            (record lease { state = released }) e,
        ==_refl lease.conn,
      );
      retiring_uniq = v.retiring_uniq;
    }
    by_state lease e active was = v
    by_state lease e released was = v

walk-IsTracked :
    (p : Pool) (cs : List ℕ) (n : ℕ) (at_connection at_setup : Bool)
    → IsTracked p
    → IsTracked (walk p cs n at_connection at_setup).0
unfolding walk
walk-IsTracked p [] n true at_setup v = record { known = v.known; retiring_uniq = v.retiring_uniq }
walk-IsTracked p [] n false true v = record { known = v.known; retiring_uniq = v.retiring_uniq }
walk-IsTracked p [] n false false v = v
walk-IsTracked p (c ∷ cs) n at_connection at_setup v =
    by_verdict (verdict p c) refl (λ x y. walk-IsTracked p cs (n + 1) x y v)
  where
    by_verdict :
        (w : Verdict)
        → verdict p c ≡ w
        → ((x y : Bool) → IsTracked (walk p cs (n + 1) x y).0)
        → IsTracked (walk p (c ∷ cs) n at_connection at_setup).0
    by_verdict take e rest = rw (e, walk) (take_setup-IsTracked p c e v)
    by_verdict skip e rest = rw (e, walk) (rest at_connection at_setup)
    by_verdict connection_full e rest = rw (e, walk) (rest true at_setup)
    by_verdict setup_full e rest = rw (e, walk) (rest at_connection true)

next-IsTracked :
    (select : Select) (p : Pool) (a : TcpAdmission) → IsTracked p → IsTracked (next select p a).0
unfolding next
next-IsTracked select p a v =
    if_cases {A = Pool × TcpAdmission × Result (Option ℕ)} (λ r. IsTracked r.0)
      (not (p.accounting_faults == 0)) _ _ (λ _. v)
      (λ _. balanced (balance select p a).1.balance_err)
  where
    b : Pool × TcpAdmission
    b = balance select p a

    w : IsTracked b.0
    w =
        let (n, e) = balance-counter select p a in
        subst IsTracked (sym e) (record { known = v.known; retiring_uniq = v.retiring_uniq })

    balanced : (e : Option Error) → IsTracked (next_from b.0 b.1 e).0
    balanced (some e) = w
    balanced none = walk-IsTracked b.0 (drop b.1.next b.1.candidates) b.1.next false false w

pub step-IsTracked :
    (select : Select) (p : Pool) (c : Call)
    → IsCounted p
    → IsRegistered p
    → IsTracked p
    → IsTracked (step select p c)
unfolding step
step-IsTracked select p begins_pending n g = begin_pending-IsTracked p
step-IsTracked select p (reserves r conn) n g = reserve-IsTracked p r conn
step-IsTracked select p (commits r) n g = commit-IsTracked p r
step-IsTracked select p (aborts r) n g = abort-IsTracked p r
step-IsTracked select p (retires c) n g = begin_retire-IsTracked p c g
step-IsTracked select p (finishes rt) n g = done-IsTracked p rt
step-IsTracked select p (marks health c) n g = mark-IsTracked health p c
step-IsTracked select p reserves_udp n g = reserve_udp-IsTracked select p g
step-IsTracked select p (releases_udp c) n g = release_udp-IsTracked p c
step-IsTracked select p begins_admission n g = begin_tcp_admission-IsTracked p
step-IsTracked select p (admits a) n g = next-IsTracked select p a
step-IsTracked select p (commits_lease l) n g = commit_lease-IsTracked p l n
step-IsTracked select p (releases_lease l) n g = release_lease-IsTracked p l
step-IsTracked select p (records_stream l s) n g = record_stream-IsTracked p l s

run_from-IsTracked :
    (select : Select) (p : Pool) (cs : List Call)
    → IsCounted p
    → IsRegistered p
    → IsTracked p
    → IsTracked (run select p cs)
unfolding run
run_from-IsTracked select p [] n g v = v
run_from-IsTracked select p (c ∷ cs) n g v =
    run_from-IsTracked select (step select p c) cs (step-IsCounted select p c n)
      (step-IsRegistered select p c g) (step-IsTracked select p c n g v)

pub new-IsTracked :
    (conns : ℕ → Conn) (limits : Limits) → AreIdle conns → IsTracked (new_with_limits conns limits)
unfolding new_with_limits
new-IsTracked conns limits idle = record { known = λ c. ground (arith, idle c); retiring_uniq = tt }

-- Whatever calls come in whatever order on a new pool over idle connections, and whatever the
-- balancer picks: a generation that carries TCP setups, TCP connections or UDP sessions is published
-- under its name or retiring, so none is forgotten before its traffic ends.
pub run-IsTracked :
    (select : Select) (conns : ℕ → Conn) (limits : Limits) (cs : List Call)
    → AreIdle conns
    → IsTracked (run select (new_with_limits conns limits) cs)
run-IsTracked select conns limits cs idle =
    run_from-IsTracked select (new_with_limits conns limits) cs (new-IsCounted conns limits idle)
      (new-IsRegistered conns limits) (new-IsTracked conns limits idle)
