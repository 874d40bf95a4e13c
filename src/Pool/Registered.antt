-- ===== src/Pool/Registered.antt =====
-- The registry over every history of calls.
use qmux.Base.{
  ℕ, ◌≡◌, refl, sym, ◌∙◌, ap, ◌+◌, ◌-◌, ◌≤◌, ◌<◌, Bool, true, false, ◌&&◌, ◌||◌, Option, none, some,
  List, [], ◌∷◌, ◌++◌, arith, ◌==◌, if◌then◌else◌, get_elem?, Option-cases, inl, inr, ◌⊎◌, if_cases,
  length, not, str_eq_sound, str_eq, leb, count_by, set, Bool-cases,
}
use qmux.Base.Assoc.{nat_eq, str_Eq, lookup}
use qmux.Pool.State.{
  Error, Result, Conn, Limits, Pool, Reservation, is_reserved, is_pending, is_current, points_to,
  new_with_limits,
}
use qmux.Pool.Registration.{
  begin_pending, reserve_error, reserve_object, reserve, commit_error, commit_object, commit,
  abort_object, abort,
}
use qmux.Pool.Retirement.{retire_current, begin_retire}
use qmux.Pool.Balancer.{Select}
use qmux.Pool.Registry.{identity_of, IsRegistered, SameRegistry, SameRegistry-IsRegistered}
use qmux.Pool.Claims.{
  bind-IsRegistered, begin-IsRegistered, abort_reserved-IsRegistered, abort_pending-IsRegistered,
  publish-IsRegistered, retire-IsRegistered,
}
use qmux.Pool.Untouched.{
  signal-SameRegistry, done-SameRegistry, mark-SameRegistry, release_udp-SameRegistry,
  reserve_udp-SameRegistry, begin_tcp_admission-SameRegistry, commit_lease-SameRegistry,
  record_stream-SameRegistry, release_lease-SameRegistry, next-SameRegistry,
}
use qmux.Pool.Run.{
  Call, begins_pending, reserves, commits, aborts, retires, finishes, marks, reserves_udp,
  releases_udp, begins_admission, admits, commits_lease, releases_lease, records_stream, step, run,
}

pub reserve_error-none :
    (p : Pool) (o : Reservation) (c : ℕ)
    → reserve_error p o c ≡ none
    → (is_pending o.state ≡ true)
      × (lookup (p.conns c).id p.clients ≡ none)
      × (lookup (p.conns c).id p.reservations ≡ none)
unfolding reserve_error
reserve_error-none p o c e = ground arith

pub commit_error-none :
    (p : Pool) (r : ℕ) (o : Reservation) (c : ℕ)
    → o.conn ≡ some c
    → commit_error p r o ≡ none
    → (is_reserved o.state ≡ true)
      × (lookup o.id p.reservations ≡ some r)
      × ((p.conns c).id ≡ o.id)
      × (lookup o.id p.clients ≡ none)
unfolding commit_error
commit_error-none p r o c at e = ground (arith, str_eq_sound (p.conns c).id o.id)

-- Two pools that differ in counters only.
module _ (p q : Pool) where
  counters-SameRegistry :
      q.clients ≡ p.clients
      → q.reservations ≡ p.reservations
      → q.reservation_objects ≡ p.reservation_objects
      → q.server_pending ≡ p.server_pending
      → q.limits ≡ p.limits
      → q.conns ≡ p.conns
      → SameRegistry p q
  counters-SameRegistry a b c d e f = record {
    clients_eq = a;
    reservations_eq = b;
    objects_eq = c;
    pending_eq = d;
    limits_eq = e;
    identity_eq = λ x. ap (λ (conns : ℕ → Conn). identity_of (conns x)) f;
  }

  counters-IsRegistered :
      q.clients ≡ p.clients
      → q.reservations ≡ p.reservations
      → q.reservation_objects ≡ p.reservation_objects
      → q.server_pending ≡ p.server_pending
      → q.limits ≡ p.limits
      → q.conns ≡ p.conns
      → IsRegistered p
      → IsRegistered q
  counters-IsRegistered a b c d e f =
      SameRegistry-IsRegistered p q (counters-SameRegistry a b c d e f)

begin_pending-IsRegistered : (p : Pool) → IsRegistered p → IsRegistered (begin_pending p).0
unfolding begin_pending
begin_pending-IsRegistered p v =
    if_cases Registered (not (p.accounting_faults == 0)) _ _ (λ _. v)
      (λ _.
        if_cases Registered (leb p.limits.max_pending_registrations p.server_pending) _ _
          (λ _. counters-IsRegistered p _ refl refl refl refl refl refl v)
          (λ room.
            counters-IsRegistered _ _ refl refl refl refl refl refl
              (begin-IsRegistered p (ground arith) v)))
  where
    Registered : Pool × Result ℕ → Type 0
    Registered r = IsRegistered r.0

reserve_object-IsRegistered :
    (p : Pool) (r : ℕ) (o : Reservation) (c : ℕ)
    → get_elem? p.reservation_objects r ≡ some o
    → IsRegistered p
    → IsRegistered (reserve_object p r o c).0
unfolding reserve_object
reserve_object-IsRegistered p r o c at v = elim (Option-cases (reserve_error p o c)) [
  | inl e ↦
      let (st, free, unclaimed) = reserve_error-none p o c e in
      rw (e, reserve_object) (bind-IsRegistered p r c o at st free unclaimed v)
  | inr (e, is_e) ↦
      rw (is_e, reserve_object)
        (counters-IsRegistered p _ (ground arith) (ground arith) (ground arith) (ground arith)
          (ground arith) (ground arith) v)
]

reserve-IsRegistered :
    (p : Pool) (r : ℕ) (conn : Option ℕ) → IsRegistered p → IsRegistered (reserve p r conn).0
unfolding reserve
reserve-IsRegistered p r none v =
    counters-IsRegistered p _ (ground arith) (ground arith) (ground arith) (ground arith)
      (ground arith) (ground arith) v
reserve-IsRegistered p r (some c) v = elim (Option-cases (get_elem? p.reservation_objects r)) [
  | inl e ↦ rw (e, reserve) v
  | inr (o, e) ↦
      rw (e, reserve)
        (if_cases {A = Pool × Result (Unit {0})} (λ x. IsRegistered x.0) (str_eq (p.conns c).id [])
          _ _ (λ _. v) (λ _. reserve_object-IsRegistered p r o c e v))
]

commit_object-IsRegistered :
    (p : Pool) (r : ℕ) (o : Reservation)
    → get_elem? p.reservation_objects r ≡ some o
    → IsRegistered p
    → (error : Option Error) (conn : Option ℕ) → commit_error p r o ≡ error
    → o.conn ≡ conn
    → IsRegistered (commit_object p r o).0
unfolding commit_object
commit_object-IsRegistered p r o at v (some e) conn is_e is_conn = rw (is_e, commit_object) v
commit_object-IsRegistered p r o at v none none is_e is_conn = rw (is_e, is_conn, commit_object) v
commit_object-IsRegistered p r o at v none (some c) is_e is_conn =
    let (st, held, same, free) = commit_error-none p r o c is_conn is_e in
    rw (is_e, is_conn, commit_object) (publish-IsRegistered p r o at v c st held same)

commit-IsRegistered : (p : Pool) (r : ℕ) → IsRegistered p → IsRegistered (commit p r).0
unfolding commit
commit-IsRegistered p r v = elim (Option-cases (get_elem? p.reservation_objects r)) [
  | inl e ↦ rw (e, commit) v
  | inr (o, e) ↦
      rw (e, commit) (commit_object-IsRegistered p r o e v (commit_error p r o) o.conn refl refl)
]

abort_object-IsRegistered :
    (p : Pool) (r : ℕ) (o : Reservation)
    → get_elem? p.reservation_objects r ≡ some o
    → IsRegistered p
    → IsRegistered (abort_object p r o).0
unfolding abort_object
abort_object-IsRegistered p r o at v =
    if_cases Registered (is_pending o.state) _ _ (λ st. abort_pending-IsRegistered p r o at v st)
      (λ _.
        if_cases Registered (is_reserved o.state && points_to (lookup o.id p.reservations) r) _ _
          (λ held. abort_reserved-IsRegistered p r o at v (ground arith) (ground arith)) (λ _. v))
  where
    Registered : Pool × Bool → Type 0
    Registered x = IsRegistered x.0

abort-IsRegistered : (p : Pool) (r : ℕ) → IsRegistered p → IsRegistered (abort p r).0
unfolding abort
abort-IsRegistered p r v = elim (Option-cases (get_elem? p.reservation_objects r)) [
  | inl e ↦ rw (e, abort) v
  | inr (o, e) ↦ rw (e, abort) (abort_object-IsRegistered p r o e v)
]

begin_retire-IsRegistered :
    (p : Pool) (c : Option ℕ) → IsRegistered p → IsRegistered (begin_retire p c).0
unfolding begin_retire
begin_retire-IsRegistered p none v = v
begin_retire-IsRegistered p (some c) v =
    if_cases {A = Pool × Option ℕ} (λ x. IsRegistered x.0) (is_current p c) _ _
      (λ _.
        SameRegistry-IsRegistered _ _ (signal-SameRegistry (retire_current p c) _)
          (retire-IsRegistered p c v))
      (λ _. v)

pub step-IsRegistered :
    (select : Select) (p : Pool) (c : Call) → IsRegistered p → IsRegistered (step select p c)
unfolding step
step-IsRegistered select p begins_pending = begin_pending-IsRegistered p
step-IsRegistered select p (reserves r conn) = reserve-IsRegistered p r conn
step-IsRegistered select p (commits r) = commit-IsRegistered p r
step-IsRegistered select p (aborts r) = abort-IsRegistered p r
step-IsRegistered select p (retires c) = begin_retire-IsRegistered p c
step-IsRegistered select p (finishes rt) = SameRegistry-IsRegistered p _ (done-SameRegistry p rt)
step-IsRegistered select p (marks health c) =
    SameRegistry-IsRegistered p _ (mark-SameRegistry health p c)
step-IsRegistered select p reserves_udp =
    SameRegistry-IsRegistered p _ (reserve_udp-SameRegistry select p)
step-IsRegistered select p (releases_udp c) =
    SameRegistry-IsRegistered p _ (release_udp-SameRegistry p c)
step-IsRegistered select p begins_admission =
    SameRegistry-IsRegistered p _ (begin_tcp_admission-SameRegistry p)
step-IsRegistered select p (admits a) = SameRegistry-IsRegistered p _ (next-SameRegistry select p a)
step-IsRegistered select p (commits_lease l) =
    SameRegistry-IsRegistered p _ (commit_lease-SameRegistry p l)
step-IsRegistered select p (releases_lease l) =
    SameRegistry-IsRegistered p _ (release_lease-SameRegistry p l)
step-IsRegistered select p (records_stream l s) =
    SameRegistry-IsRegistered p _ (record_stream-SameRegistry p l s)

run_from-IsRegistered :
    (select : Select) (p : Pool) (cs : List Call) → IsRegistered p → IsRegistered (run select p cs)
unfolding run
run_from-IsRegistered select p [] v = v
run_from-IsRegistered select p (c ∷ cs) v =
    run_from-IsRegistered select (step select p c) cs (step-IsRegistered select p c v)

pub new-IsRegistered :
    (conns : ℕ → Conn) (limits : Limits) → IsRegistered (new_with_limits conns limits)
unfolding new_with_limits lookup qmux.Base.Lists.count_by
new-IsRegistered conns limits = record {
  client_ok = λ id c e. ground arith;
  claim_ok = λ id r e. ground arith;
  object_claimed = λ r o at st. ground arith;
  disjoint = λ id c e. refl;
  open_exact = refl;
  pending_bounded = ground arith;
  clients_uniq = tt;
  reservations_uniq = tt;
}

-- Whatever calls come in whatever order: a published client stands under its own name and was
-- consumed by a registration, a name is claimed exactly by the one reservation that holds it and
-- never claimed and published at once, and the server's pending count is the number of reservations
-- still open, never more than the limit.
pub run-IsRegistered :
    (select : Select) (conns : ℕ → Conn) (limits : Limits) (cs : List Call)
    → IsRegistered (run select (new_with_limits conns limits) cs)
run-IsRegistered select conns limits cs =
    run_from-IsRegistered select (new_with_limits conns limits) cs (new-IsRegistered conns limits)
