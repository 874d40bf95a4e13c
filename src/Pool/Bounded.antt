-- ===== src/Pool/Bounded.antt =====
-- The number of client generations over every history of calls.
use qmux.Base.{
  ℕ, ◌≡◌, ◌+◌, ◌-◌, ◌≤◌, Bool, true, false, Option, none, some, List, [], ◌∷◌, arith, get_elem?,
  set, Option-cases, inl, inr, length, drop,
}
use qmux.Base.Assoc.{nat_eq, str_Eq, lookup, length-erase, length-erase_le, length-insert_le}
use qmux.Pool.State.{
  Error, Conn, Limits, Pool, TcpLease, LeaseState, active, released, Reservation,
  client_generation_count, update, new_with_limits,
}
use qmux.Pool.Registration.{
  begin_pending, reserve_error, bind_reservation, reserve_object, reserve, publish, commit_object,
  commit, abort_object, abort,
}
use qmux.Pool.Retirement.{
  signal_tcp_drained, finalize_retirement, retire_current, begin_retire, done, mark,
}
use qmux.Pool.Balancer.{Select}
use qmux.Pool.Traffic.{
  take_udp, reserve_udp, release_udp, begin_tcp_admission, TcpAdmission, take_setup, walk, balance,
  next_from, next, commit_lease, release_lease, release_state, settle_release, record_stream,
}
use qmux.Pool.Registered.{commit_error-none}
use qmux.Pool.Run.{
  Call, begins_pending, reserves, commits, aborts, retires, finishes, marks, reserves_udp,
  releases_udp, begins_admission, admits, commits_lease, releases_lease, records_stream, step, run,
}

-- The generations of `q` are within its limit if those of `p` are within that of `p`.
abbrev pub IsBounded : Pool → Type 0
IsBounded p = client_generation_count p ≤ p.limits.max_client_generations

-- No generation joins.
abbrev Shrinks : Pool → Pool → Type 0
Shrinks p q =
    (client_generation_count q ≤ client_generation_count p)
    × (q.limits.max_client_generations ≡ p.limits.max_client_generations)

signal-Shrinks : (p : Pool) (rt : Option ℕ) → Shrinks p (signal_tcp_drained p rt)
unfolding signal_tcp_drained
signal-Shrinks p rt = ground arith

finalize-Shrinks : (p : Pool) (c : ℕ) → Shrinks p (finalize_retirement p c)
unfolding finalize_retirement
finalize-Shrinks p c = ground (arith, length-erase_le c p.retiring)

begin_pending-Shrinks : (p : Pool) → Shrinks p (begin_pending p).0
unfolding begin_pending
begin_pending-Shrinks p = ground arith

mark-Shrinks : (h : Bool) (p : Pool) (c : Option ℕ) → Shrinks p (mark h p c).0
unfolding mark
mark-Shrinks h p c = ground arith

reserve_udp-Shrinks : (select : Select) (p : Pool) → Shrinks p (reserve_udp select p).0
unfolding reserve_udp take_udp
reserve_udp-Shrinks select p = ground arith

begin_tcp_admission-Shrinks : (p : Pool) → Shrinks p (begin_tcp_admission p).0
unfolding begin_tcp_admission
begin_tcp_admission-Shrinks p = ground arith

commit_lease-Shrinks : (p : Pool) (l : ℕ) → Shrinks p (commit_lease p l).0
unfolding commit_lease
commit_lease-Shrinks p l = ground arith

record_stream-Shrinks : (p : Pool) (l s : ℕ) → Shrinks p (record_stream p l s)
unfolding record_stream
record_stream-Shrinks p l s = ground arith

release_udp-Shrinks : (p : Pool) (c : Option ℕ) → Shrinks p (release_udp p c).0
unfolding release_udp
release_udp-Shrinks p none = ground arith
release_udp-Shrinks p (some c) =
    let one_less : Pool = record p {
      conns = update p.conns c (record (p.conns c) { udp_sessions = (p.conns c).udp_sessions - 1 });
    } in
    ground (arith, finalize-Shrinks one_less c)

done-Shrinks : (p : Pool) (rt : ℕ) → Shrinks p (done p rt).0
unfolding done
done-Shrinks p rt = elim (Option-cases (get_elem? p.retirement_objects rt)) [
  | inl e ↦ ground arith
  | inr (object, e) ↦
      let q : Pool = record p {
        retirement_objects = set p.retirement_objects rt (record object { done = true });
      } in
      ground (arith, finalize-Shrinks q object.conn)
]

abort-Shrinks : (p : Pool) (r : ℕ) → Shrinks p (abort p r).0
unfolding abort abort_object
abort-Shrinks p r = elim (Option-cases (get_elem? p.reservation_objects r)) [
  | inl e ↦ ground arith
  | inr (object, e) ↦ ground (arith, length-erase_le object.id p.reservations)
]

settle_release-Shrinks :
    (p : Pool) (l : ℕ) (lease : TcpLease) (conn : Conn) → Shrinks p (settle_release p l lease conn)
unfolding settle_release
settle_release-Shrinks p l lease conn =
    let q : Pool = record p {
      conns = update p.conns lease.conn conn;
      leases = set p.leases l (record lease { state = released });
    } in
    ground (
      arith,
      signal-Shrinks q (lookup lease.conn q.retiring),
      finalize-Shrinks (signal_tcp_drained q (lookup lease.conn q.retiring)) lease.conn,
    )

release_state-Shrinks :
    (p : Pool) (l : ℕ) (lease : TcpLease) (st : LeaseState)
    → Shrinks p (release_state p l lease st).0
unfolding release_state
release_state-Shrinks p l lease LeaseState.pending = settle_release-Shrinks p l lease _
release_state-Shrinks p l lease active = settle_release-Shrinks p l lease _
release_state-Shrinks p l lease released = ground arith

release_lease-Shrinks : (p : Pool) (l : ℕ) → Shrinks p (release_lease p l).0
unfolding release_lease
release_lease-Shrinks p l = elim (Option-cases (get_elem? p.leases l)) [
  | inl e ↦ ground arith
  | inr (lease, e) ↦ ground (arith, release_state-Shrinks p l lease lease.state)
]

walk-Shrinks :
    (p : Pool) (cs : List ℕ) (n : ℕ) (at_connection at_setup : Bool)
    → Shrinks p (walk p cs n at_connection at_setup).0
unfolding walk take_setup
walk-Shrinks p [] n true at_setup = ground arith
walk-Shrinks p [] n false true = ground arith
walk-Shrinks p [] n false false = ground arith
walk-Shrinks p (c ∷ cs) n at_connection at_setup = ground (
  arith,
  walk-Shrinks p cs (n + 1) at_connection at_setup,
  walk-Shrinks p cs (n + 1) true at_setup,
  walk-Shrinks p cs (n + 1) at_connection true,
)

balance-Shrinks : (select : Select) (p : Pool) (a : TcpAdmission) → Shrinks p (balance select p a).0
unfolding balance
balance-Shrinks select p a = ground arith

next_from-Shrinks : (p : Pool) (a : TcpAdmission) (e : Option Error) → Shrinks p (next_from p a e).0
next_from-Shrinks p a (some e) = ground arith
next_from-Shrinks p a none = walk-Shrinks p (drop a.next a.candidates) a.next false false

next-Shrinks : (select : Select) (p : Pool) (a : TcpAdmission) → Shrinks p (next select p a).0
unfolding next
next-Shrinks select p a =
    let b : Pool × TcpAdmission = balance select p a in
    ground (arith, balance-Shrinks select p a, next_from-Shrinks b.0 b.1 b.1.balance_err)

Shrinks-IsBounded : (p q : Pool) → Shrinks p q → IsBounded p → IsBounded q
Shrinks-IsBounded p q s v = ground arith

reserve_object-IsBounded :
    (p : Pool) (r : ℕ) (o : Reservation) (c : ℕ)
    → IsBounded p
    → IsBounded (reserve_object p r o c).0
unfolding reserve_object reserve_error bind_reservation
reserve_object-IsBounded p r o c v =
    ground (arith, length-insert_le (p.conns c).id r p.reservations)

reserve-IsBounded :
    (p : Pool) (r : ℕ) (conn : Option ℕ) → IsBounded p → IsBounded (reserve p r conn).0
unfolding reserve
reserve-IsBounded p r none v = ground arith
reserve-IsBounded p r (some c) v = elim (Option-cases (get_elem? p.reservation_objects r)) [
  | inl e ↦ ground arith
  | inr (o, e) ↦ ground (arith, reserve_object-IsBounded p r o c v)
]

commit_object-IsBounded :
    (p : Pool) (r : ℕ) (o : Reservation) → IsBounded p → IsBounded (commit_object p r o).0
unfolding commit_object publish
commit_object-IsBounded p r o v = elim (Option-cases o.conn) [
  | inl e ↦ ground arith
  | inr (c, e) ↦ ground (
    arith,
    commit_error-none p r o c e,
    length-insert_le o.id c p.clients,
    length-erase o.id r p.reservations,
  )
]

commit-IsBounded : (p : Pool) (r : ℕ) → IsBounded p → IsBounded (commit p r).0
unfolding commit
commit-IsBounded p r v = elim (Option-cases (get_elem? p.reservation_objects r)) [
  | inl e ↦ ground arith
  | inr (o, e) ↦ ground (arith, commit_object-IsBounded p r o v)
]

begin_retire-IsBounded : (p : Pool) (c : Option ℕ) → IsBounded p → IsBounded (begin_retire p c).0
unfolding begin_retire retire_current
begin_retire-IsBounded p none v = v
begin_retire-IsBounded p (some c) v =
    let n : ℕ = length p.retirement_objects in
    ground (
      arith,
      signal-Shrinks (retire_current p c) (some n),
      length-insert_le c n p.retiring,
      length-erase (p.conns c).id c p.clients,
    )

step-IsBounded : (select : Select) (p : Pool) (c : Call) → IsBounded p → IsBounded (step select p c)
unfolding step
step-IsBounded select p begins_pending =
    Shrinks-IsBounded p (step select p begins_pending) (begin_pending-Shrinks p)
step-IsBounded select p (reserves r conn) = reserve-IsBounded p r conn
step-IsBounded select p (commits r) = commit-IsBounded p r
step-IsBounded select p (aborts r) =
    Shrinks-IsBounded p (step select p (aborts r)) (abort-Shrinks p r)
step-IsBounded select p (retires c) = begin_retire-IsBounded p c
step-IsBounded select p (finishes rt) =
    Shrinks-IsBounded p (step select p (finishes rt)) (done-Shrinks p rt)
step-IsBounded select p (marks health c) =
    Shrinks-IsBounded p (step select p (marks health c)) (mark-Shrinks health p c)
step-IsBounded select p reserves_udp =
    Shrinks-IsBounded p (step select p reserves_udp) (reserve_udp-Shrinks select p)
step-IsBounded select p (releases_udp c) =
    Shrinks-IsBounded p (step select p (releases_udp c)) (release_udp-Shrinks p c)
step-IsBounded select p begins_admission =
    Shrinks-IsBounded p (step select p begins_admission) (begin_tcp_admission-Shrinks p)
step-IsBounded select p (admits a) =
    Shrinks-IsBounded p (step select p (admits a)) (next-Shrinks select p a)
step-IsBounded select p (commits_lease l) =
    Shrinks-IsBounded p (step select p (commits_lease l)) (commit_lease-Shrinks p l)
step-IsBounded select p (releases_lease l) =
    Shrinks-IsBounded p (step select p (releases_lease l)) (release_lease-Shrinks p l)
step-IsBounded select p (records_stream l s) =
    Shrinks-IsBounded p (step select p (records_stream l s)) (record_stream-Shrinks p l s)

run_from-IsBounded :
    (select : Select) (p : Pool) (cs : List Call) → IsBounded p → IsBounded (run select p cs)
unfolding run
run_from-IsBounded select p [] v = v
run_from-IsBounded select p (c ∷ cs) v =
    run_from-IsBounded select (step select p c) cs (step-IsBounded select p c v)

-- Whatever calls come in whatever order on a new pool: the generations that are claimed, published
-- or still retiring are together never more than the limit on client generations.
pub run-IsBounded :
    (select : Select) (conns : ℕ → Conn) (limits : Limits) (cs : List Call)
    → IsBounded (run select (new_with_limits conns limits) cs)
unfolding new_with_limits
run-IsBounded select conns limits cs =
    run_from-IsBounded select (new_with_limits conns limits) cs (omega arith)
