-- ===== src/Pool/Untouched.antt =====
-- Which operations leave the registrations and the published clients alone.
use qmux.Base.{
  ℕ, ◌≡◌, refl, ◌∙◌, ◌+◌, Bool, true, false, Option, none, some, List, [], ◌∷◌, arith, ◌==◌,
  get_elem?, set, Option-cases, inl, inr, if_cases, drop, not,
}
use qmux.Base.Assoc.{nat_eq, str_Eq, lookup}
use qmux.Pool.State.{Error, Result, Conn, TcpLease, LeaseState, active, released, Pool, update}
use qmux.Pool.Retirement.{signal_tcp_drained, finalize_retirement, done, mark}
use qmux.Pool.Balancer.{Select}
use qmux.Pool.Traffic.{
  take_udp, reserve_udp, release_udp, begin_tcp_admission, TcpAdmission, Verdict, skip,
  connection_full, setup_full, take, verdict, take_setup, walk, balance, next_from, next,
  commit_lease, release_lease, release_state, settle_release, record_stream,
}
use qmux.Pool.Registry.{SameRegistry, identity_of}

pub SameRegistry-refl : (p : Pool) → SameRegistry p p
SameRegistry-refl p = record {
  clients_eq = refl;
  reservations_eq = refl;
  objects_eq = refl;
  pending_eq = refl;
  limits_eq = refl;
  identity_eq = λ c. refl;
}

pub SameRegistry-trans : (p q r : Pool) → SameRegistry p q → SameRegistry q r → SameRegistry p r
SameRegistry-trans p q r s t = record {
  clients_eq = t.clients_eq ∙ s.clients_eq;
  reservations_eq = t.reservations_eq ∙ s.reservations_eq;
  objects_eq = t.objects_eq ∙ s.objects_eq;
  pending_eq = t.pending_eq ∙ s.pending_eq;
  limits_eq = t.limits_eq ∙ s.limits_eq;
  identity_eq = λ c. t.identity_eq c ∙ s.identity_eq c;
}

pub signal-SameRegistry : (p : Pool) (rt : Option ℕ) → SameRegistry p (signal_tcp_drained p rt)
unfolding signal_tcp_drained
signal-SameRegistry p rt = record {
  clients_eq = ground arith;
  reservations_eq = ground arith;
  objects_eq = ground arith;
  pending_eq = ground arith;
  limits_eq = ground arith;
  identity_eq = λ c. ground arith;
}

pub finalize-SameRegistry : (p : Pool) (c : ℕ) → SameRegistry p (finalize_retirement p c)
unfolding finalize_retirement
finalize-SameRegistry p c = record {
  clients_eq = ground arith;
  reservations_eq = ground arith;
  objects_eq = ground arith;
  pending_eq = ground arith;
  limits_eq = ground arith;
  identity_eq = λ d. ground arith;
}

pub done-SameRegistry : (p : Pool) (rt : ℕ) → SameRegistry p (done p rt).0
unfolding done finalize_retirement
done-SameRegistry p rt = record {
  clients_eq = ground arith;
  reservations_eq = ground arith;
  objects_eq = ground arith;
  pending_eq = ground arith;
  limits_eq = ground arith;
  identity_eq = λ d. ground arith;
}

pub mark-SameRegistry :
    (health : Bool) (p : Pool) (c : Option ℕ) → SameRegistry p (mark health p c).0
unfolding mark
mark-SameRegistry health p c = record {
  clients_eq = ground arith;
  reservations_eq = ground arith;
  objects_eq = ground arith;
  pending_eq = ground arith;
  limits_eq = ground arith;
  identity_eq = λ d. ground arith;
}

pub release_udp-SameRegistry : (p : Pool) (c : Option ℕ) → SameRegistry p (release_udp p c).0
unfolding release_udp finalize_retirement
release_udp-SameRegistry p c = record {
  clients_eq = ground arith;
  reservations_eq = ground arith;
  objects_eq = ground arith;
  pending_eq = ground arith;
  limits_eq = ground arith;
  identity_eq = λ d. ground arith;
}

pub reserve_udp-SameRegistry :
    (select : Select) (p : Pool) → SameRegistry p (reserve_udp select p).0
unfolding reserve_udp take_udp
reserve_udp-SameRegistry select p = record {
  clients_eq = ground arith;
  reservations_eq = ground arith;
  objects_eq = ground arith;
  pending_eq = ground arith;
  limits_eq = ground arith;
  identity_eq = λ d. ground arith;
}

pub begin_tcp_admission-SameRegistry : (p : Pool) → SameRegistry p (begin_tcp_admission p).0
unfolding begin_tcp_admission
begin_tcp_admission-SameRegistry p = record {
  clients_eq = ground arith;
  reservations_eq = ground arith;
  objects_eq = ground arith;
  pending_eq = ground arith;
  limits_eq = ground arith;
  identity_eq = λ d. ground arith;
}

pub commit_lease-SameRegistry : (p : Pool) (l : ℕ) → SameRegistry p (commit_lease p l).0
unfolding commit_lease
commit_lease-SameRegistry p l = record {
  clients_eq = ground arith;
  reservations_eq = ground arith;
  objects_eq = ground arith;
  pending_eq = ground arith;
  limits_eq = ground arith;
  identity_eq = λ d. ground arith;
}

pub record_stream-SameRegistry : (p : Pool) (l s : ℕ) → SameRegistry p (record_stream p l s)
unfolding record_stream
record_stream-SameRegistry p l s = record {
  clients_eq = ground arith;
  reservations_eq = ground arith;
  objects_eq = ground arith;
  pending_eq = ground arith;
  limits_eq = ground arith;
  identity_eq = λ d. ground arith;
}

settle_release-SameRegistry :
    (p : Pool) (l : ℕ) (lease : TcpLease) (conn : Conn)
    → identity_of conn ≡ identity_of (p.conns lease.conn)
    → SameRegistry p (settle_release p l lease conn)
unfolding settle_release
settle_release-SameRegistry p l lease conn same =
    SameRegistry-trans p (signal_tcp_drained q (lookup lease.conn q.retiring)) _
      (SameRegistry-trans p q _ settled (signal-SameRegistry q _))
      (finalize-SameRegistry _ lease.conn)
  where
    q : Pool
    q = record p {
      conns = update p.conns lease.conn conn;
      leases = set p.leases l (record lease { state = released });
    }

    settled : SameRegistry p q
    settled = record {
      clients_eq = refl;
      reservations_eq = refl;
      objects_eq = refl;
      pending_eq = refl;
      limits_eq = refl;
      identity_eq = λ d. ground arith;
    }

release_state-SameRegistry :
    (p : Pool) (l : ℕ) (lease : TcpLease) (st : LeaseState)
    → SameRegistry p (release_state p l lease st).0
unfolding release_state
release_state-SameRegistry p l lease LeaseState.pending =
    settle_release-SameRegistry p l lease _ refl
release_state-SameRegistry p l lease active = settle_release-SameRegistry p l lease _ refl
release_state-SameRegistry p l lease released = SameRegistry-refl p

pub release_lease-SameRegistry : (p : Pool) (l : ℕ) → SameRegistry p (release_lease p l).0
unfolding release_lease
release_lease-SameRegistry p l = elim (Option-cases (get_elem? p.leases l)) [
  | inl e ↦ rw (e, release_lease) (SameRegistry-refl p)
  | inr (lease, e) ↦ rw (e, release_lease) (release_state-SameRegistry p l lease lease.state)
]

take_setup-SameRegistry : (p : Pool) (c : ℕ) → SameRegistry p (take_setup p c)
unfolding take_setup
take_setup-SameRegistry p c = record {
  clients_eq = refl;
  reservations_eq = refl;
  objects_eq = refl;
  pending_eq = refl;
  limits_eq = refl;
  identity_eq = λ d. ground arith;
}

walk-SameRegistry :
    (p : Pool) (cs : List ℕ) (n : ℕ) (at_connection at_setup : Bool)
    → SameRegistry p (walk p cs n at_connection at_setup).0
unfolding walk
walk-SameRegistry p [] n true at_setup = record {
  clients_eq = refl;
  reservations_eq = refl;
  objects_eq = refl;
  pending_eq = refl;
  limits_eq = refl;
  identity_eq = λ d. refl;
}
walk-SameRegistry p [] n false true = record {
  clients_eq = refl;
  reservations_eq = refl;
  objects_eq = refl;
  pending_eq = refl;
  limits_eq = refl;
  identity_eq = λ d. refl;
}
walk-SameRegistry p [] n false false = SameRegistry-refl p
walk-SameRegistry p (c ∷ cs) n at_connection at_setup =
    by_verdict (verdict p c) refl (λ x y. walk-SameRegistry p cs (n + 1) x y)
  where
    by_verdict :
        (w : Verdict)
        → verdict p c ≡ w
        → ((x y : Bool) → SameRegistry p (walk p cs (n + 1) x y).0)
        → SameRegistry p (walk p (c ∷ cs) n at_connection at_setup).0
    by_verdict take e rest = rw (e, walk) (take_setup-SameRegistry p c)
    by_verdict skip e rest = rw (e, walk) (rest at_connection at_setup)
    by_verdict connection_full e rest = rw (e, walk) (rest true at_setup)
    by_verdict setup_full e rest = rw (e, walk) (rest at_connection true)

balance-SameRegistry :
    (select : Select) (p : Pool) (a : TcpAdmission) → SameRegistry p (balance select p a).0
unfolding balance
balance-SameRegistry select p a = record {
  clients_eq = ground arith;
  reservations_eq = ground arith;
  objects_eq = ground arith;
  pending_eq = ground arith;
  limits_eq = ground arith;
  identity_eq = λ d. ground arith;
}

pub next-SameRegistry :
    (select : Select) (p : Pool) (a : TcpAdmission) → SameRegistry p (next select p a).0
unfolding next
next-SameRegistry select p a =
    if_cases {A = Pool × TcpAdmission × Result (Option ℕ)} (λ r. SameRegistry p r.0)
      (not (p.accounting_faults == 0)) _ _ (λ _. SameRegistry-refl p)
      (λ _. balanced (balance select p a).1.balance_err)
  where
    b : Pool × TcpAdmission
    b = balance select p a

    balanced : (e : Option Error) → SameRegistry p (next_from b.0 b.1 e).0
    balanced (some e) = balance-SameRegistry select p a
    balanced none =
        SameRegistry-trans p b.0 _ (balance-SameRegistry select p a)
          (walk-SameRegistry b.0 (drop b.1.next b.1.candidates) b.1.next false false)
