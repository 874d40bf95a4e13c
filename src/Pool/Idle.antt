-- ===== src/Pool/Idle.antt =====
-- When a retirement of server/pool/pool.go signals: in a step that leaves its generation without TCP.
use qmux.Base.{
  ℕ, zero, suc, ◌≡◌, ◌≢◌, refl, sym, ap, ◌∙◌, ◌+◌, Bool, true, false, not, ◌||◌, Option, none, some,
  List, [], ◌∷◌, ◌++◌, arith, ◌==◌, get_elem?, get_elem?-set, set, Option-cases, inl, inr, if_cases,
  length, drop,
}
use qmux.Base.Assoc.{nat_eq, str_Eq, lookup}
use qmux.Pool.State.{
  Error, Result, Conn, Pool, TcpLease, LeaseState, active, released, Retirement, is_current,
  points_to, update,
}
use qmux.Pool.Registration.{begin_pending, reserve, commit, abort}
use qmux.Pool.Retirement.{
  signal_tcp_drained, signal_object, finalize_retirement, new_retirement, retire_current,
  begin_retire, done, mark, fence_of,
}
use qmux.Pool.Balancer.{Select}
use qmux.Pool.Traffic.{
  TcpAdmission, Verdict, skip, connection_full, setup_full, take, verdict, walk, balance, next_from,
  next, reserve_udp, take_udp, release_udp, begin_tcp_admission, take_setup, commit_lease,
  commit_state, release_lease, release_state, settle_release, record_stream,
}
use qmux.Pool.Accounting.{balance-counter}
use qmux.Pool.Drained.{tcp_load}
use qmux.Pool.Run.{
  Call, begins_pending, reserves, commits, aborts, retires, finishes, marks, reserves_udp,
  releases_udp, begins_admission, admits, commits_lease, releases_lease, records_stream, step,
}

abbrev pub has_sent : Option Retirement → Bool
has_sent none = false
has_sent (some o) = o.drain_sent

-- The retirements that have signalled in `q` and not yet in `p` are of generations that have neither
-- pending nor established TCP connections in `q`.
abbrev pub SignalsIdle : Pool → Pool → Type 0
SignalsIdle p q =
    (rt : ℕ) (o : Retirement)
    → get_elem? q.retirement_objects rt ≡ some o
    → o.drain_sent ≡ true
    → has_sent (get_elem? p.retirement_objects rt) ≡ false
    → tcp_load (q.conns o.conn) ≡ 0

abbrev SameSent : Pool → Pool → Type 0
SameSent p q =
    (rt : ℕ)
    → has_sent (get_elem? q.retirement_objects rt) ≡ has_sent (get_elem? p.retirement_objects rt)

SameSent-SignalsIdle : (p q : Pool) → SameSent p q → SignalsIdle p q
SameSent-SignalsIdle p q same rt o at sent unsent =
    absurd (clash (sym unsent ∙ sym (same rt) ∙ ap has_sent at ∙ sent))
  where
    clash : false ≢ true
    clash e = cc

same_objects : (p q : Pool) → q.retirement_objects ≡ p.retirement_objects → SignalsIdle p q
same_objects p q same = SameSent-SignalsIdle p q (λ rt. ap (λ os. has_sent (get_elem? os rt)) same)

SameSent-then : (p q r : Pool) → SameSent p q → SignalsIdle q r → SignalsIdle p r
SameSent-then p q r same v rt o at sent unsent = v rt o at sent (same rt ∙ unsent)

signal_object-SignalsIdle :
    (p : Pool) (s : ℕ) (x : Retirement)
    → get_elem? p.retirement_objects s ≡ some x
    → SignalsIdle p (signal_object p s x)
unfolding signal_object
signal_object-SignalsIdle p s x is rt o at sent unsent = ground (
  arith,
  get_elem?-set p.retirement_objects s rt x
      (record x {
        tcp_drained = x.tcp_drained ++ (fence_of (p.conns x.conn) ∷ []);
        drain_sent = true;
      })
      is,
)

signal-SignalsIdle : (p : Pool) (st : Option ℕ) → SignalsIdle p (signal_tcp_drained p st)
unfolding signal_tcp_drained
signal-SignalsIdle p none = same_objects p p refl
signal-SignalsIdle p (some s) = by_object (get_elem? p.retirement_objects s) refl
  where
    by_object :
        (x : Option Retirement)
        → get_elem? p.retirement_objects s ≡ x
        → SignalsIdle p (signal_tcp_drained p (some s))
    by_object none is = rw (is, signal_tcp_drained) (same_objects p p refl)
    by_object (some x) is = rw (is, signal_tcp_drained) (signal_object-SignalsIdle p s x is)

finalize_lem :
    (p : Pool) (c : ℕ)
    → ((finalize_retirement p c).retirement_objects ≡ p.retirement_objects)
      × ((finalize_retirement p c).conns ≡ p.conns)
unfolding finalize_retirement
finalize_lem p c = (ground arith, ground arith)

finalize-SignalsIdle :
    (p q : Pool) (c : ℕ) → SignalsIdle p q → SignalsIdle p (finalize_retirement q c)
finalize-SignalsIdle p q c v rt o at sent unsent =
    let (objects, conns) = finalize_lem q c in
    ap (λ (f : ℕ → Conn). tcp_load (f o.conn)) conns
    ∙ v rt o (ap (λ os. get_elem? os rt) (sym objects) ∙ at) sent unsent

done-SignalsIdle : (p : Pool) (rt : ℕ) → SignalsIdle p (done p rt).0
unfolding done
done-SignalsIdle p rt = elim (Option-cases (get_elem? p.retirement_objects rt)) [
  | inl e ↦ rw (e, done) (same_objects p p refl)
  | inr (object, e) ↦
      let q : Pool = record p {
        retirement_objects = set p.retirement_objects rt (record object { done = true });
      } in
      rw (e, done)
        (if_cases {A = Pool × Bool} (λ x. SignalsIdle p x.0)
          (object.done || not (points_to (lookup object.conn p.retiring) rt)) _ _
          (λ _. same_objects p p refl)
          (λ _. finalize-SignalsIdle p q object.conn (
            SameSent-SignalsIdle p q (λ s. ground (
              arith,
              get_elem?-set p.retirement_objects rt s object (record object { done = true }) e,
              e,
              ap (get_elem? p.retirement_objects) {x = rt} {y = s},
            )))))
]

begin_retire-SignalsIdle : (p : Pool) (c : Option ℕ) → SignalsIdle p (begin_retire p c).0
unfolding begin_retire retire_current
begin_retire-SignalsIdle p none = same_objects p p refl
begin_retire-SignalsIdle p (some c) =
    if_cases {A = Pool × Option ℕ} (λ x. SignalsIdle p x.0) (is_current p c) _ _
      (λ current.
        SameSent-then p (retire_current p c)
          (signal_tcp_drained (retire_current p c) (some (length p.retirement_objects)))
          (λ rt. appended p.retirement_objects rt)
          (signal-SignalsIdle (retire_current p c) (some (length p.retirement_objects))))
      (λ _. same_objects p p refl)
  where
    appended :
        (os : List Retirement) (rt : ℕ)
        → has_sent (get_elem? (os ++ (new_retirement c ∷ [])) rt) ≡ has_sent (get_elem? os rt)
    appended [] zero = refl
    appended [] (suc rt) = refl
    appended (o ∷ os) zero = refl
    appended (o ∷ os) (suc rt) = appended os rt

settle_release-SignalsIdle :
    (p : Pool) (l : ℕ) (lease : TcpLease) (conn : Conn)
    → SignalsIdle p (settle_release p l lease conn)
unfolding settle_release
settle_release-SignalsIdle p l lease conn =
    finalize-SignalsIdle p (signal_tcp_drained q (lookup lease.conn q.retiring)) lease.conn (
      SameSent-then p q (signal_tcp_drained q (lookup lease.conn q.retiring)) (λ rt. refl)
        (signal-SignalsIdle q (lookup lease.conn q.retiring)))
  where
    q : Pool
    q = record p {
      conns = update p.conns lease.conn conn;
      leases = set p.leases l (record lease { state = released });
    }

release_lease-SignalsIdle : (p : Pool) (l : ℕ) → SignalsIdle p (release_lease p l).0
unfolding release_lease release_state
release_lease-SignalsIdle p l = elim (Option-cases (get_elem? p.leases l)) [
  | inl e ↦ rw (e, release_lease) (same_objects p p refl)
  | inr (lease, e) ↦ rw (e, release_lease) (by_state lease lease.state)
]
  where
    by_state : (lease : TcpLease) (st : LeaseState) → SignalsIdle p (release_state p l lease st).0
    by_state lease LeaseState.pending = settle_release-SignalsIdle p l lease _
    by_state lease active = settle_release-SignalsIdle p l lease _
    by_state lease released = same_objects p p refl

walk-objects :
    (p : Pool) (cs : List ℕ) (n : ℕ) (at_connection at_setup : Bool)
    → (walk p cs n at_connection at_setup).0.retirement_objects ≡ p.retirement_objects
unfolding walk take_setup
walk-objects p [] n true at_setup = refl
walk-objects p [] n false true = refl
walk-objects p [] n false false = refl
walk-objects p (c ∷ cs) n at_connection at_setup =
    by_verdict (verdict p c) refl (λ x y. walk-objects p cs (n + 1) x y)
  where
    by_verdict :
        (w : Verdict)
        → verdict p c ≡ w
        → ((x y : Bool) → (walk p cs (n + 1) x y).0.retirement_objects ≡ p.retirement_objects)
        → (walk p (c ∷ cs) n at_connection at_setup).0.retirement_objects ≡ p.retirement_objects
    by_verdict take e rest = rw (e, walk) refl
    by_verdict skip e rest = rw (e, walk) (rest at_connection at_setup)
    by_verdict connection_full e rest = rw (e, walk) (rest true at_setup)
    by_verdict setup_full e rest = rw (e, walk) (rest at_connection true)

next-objects :
    (select : Select) (p : Pool) (a : TcpAdmission)
    → (next select p a).0.retirement_objects ≡ p.retirement_objects
unfolding next
next-objects select p a =
    if_cases {A = Pool × TcpAdmission × Result (Option ℕ)}
      (λ r. r.0.retirement_objects ≡ p.retirement_objects) (not (p.accounting_faults == 0)) _ _
      (λ _. refl) (λ _. balanced (balance select p a).1.balance_err)
  where
    b : Pool × TcpAdmission
    b = balance select p a

    w : b.0.retirement_objects ≡ p.retirement_objects
    w = let (n, e) = balance-counter select p a in ap (λ (q : Pool). q.retirement_objects) e

    balanced :
        (e : Option Error) → (next_from b.0 b.1 e).0.retirement_objects ≡ p.retirement_objects
    balanced (some e) = w
    balanced none = walk-objects b.0 (drop b.1.next b.1.candidates) b.1.next false false ∙ w

registration-objects :
    (p : Pool) (r : ℕ) (c : Option ℕ)
    → ((begin_pending p).0.retirement_objects ≡ p.retirement_objects)
      × ((reserve p r c).0.retirement_objects ≡ p.retirement_objects)
      × ((commit p r).0.retirement_objects ≡ p.retirement_objects)
      × ((abort p r).0.retirement_objects ≡ p.retirement_objects)
unfolding begin_pending reserve commit abort
registration-objects p r c = (ground arith, ground arith, ground arith, ground arith)

traffic-objects :
    (select : Select) (p : Pool) (l s : ℕ) (h : Bool) (c : Option ℕ)
    → ((mark h p c).0.retirement_objects ≡ p.retirement_objects)
      × ((begin_tcp_admission p).0.retirement_objects ≡ p.retirement_objects)
      × ((reserve_udp select p).0.retirement_objects ≡ p.retirement_objects)
      × ((commit_lease p l).0.retirement_objects ≡ p.retirement_objects)
      × ((record_stream p l s).retirement_objects ≡ p.retirement_objects)
unfolding mark begin_tcp_admission reserve_udp take_udp commit_lease commit_state record_stream
traffic-objects select p l s h c =
    (ground arith, ground arith, ground arith, ground arith, ground arith)

release_udp-objects :
    (p : Pool) (c : Option ℕ) → (release_udp p c).0.retirement_objects ≡ p.retirement_objects
unfolding release_udp finalize_retirement
release_udp-objects p c = ground arith

pub step-SignalsIdle : (select : Select) (p : Pool) (c : Call) → SignalsIdle p (step select p c)
unfolding step
step-SignalsIdle select p begins_pending =
    same_objects p (step select p begins_pending) (registration-objects p 0 none).0
step-SignalsIdle select p (reserves r conn) =
    same_objects p (step select p (reserves r conn)) (registration-objects p r conn).1
step-SignalsIdle select p (commits r) =
    same_objects p (step select p (commits r)) (registration-objects p r none).2
step-SignalsIdle select p (aborts r) =
    same_objects p (step select p (aborts r)) (registration-objects p r none).3
step-SignalsIdle select p (retires c) = begin_retire-SignalsIdle p c
step-SignalsIdle select p (finishes rt) = done-SignalsIdle p rt
step-SignalsIdle select p (marks health c) =
    same_objects p (step select p (marks health c)) (traffic-objects select p 0 0 health c).0
step-SignalsIdle select p reserves_udp =
    same_objects p (step select p reserves_udp) (traffic-objects select p 0 0 true none).2
step-SignalsIdle select p (releases_udp c) =
    same_objects p (step select p (releases_udp c)) (release_udp-objects p c)
step-SignalsIdle select p begins_admission =
    same_objects p (step select p begins_admission) (traffic-objects select p 0 0 true none).1
step-SignalsIdle select p (admits a) =
    same_objects p (step select p (admits a)) (next-objects select p a)
step-SignalsIdle select p (commits_lease l) =
    same_objects p (step select p (commits_lease l)) (traffic-objects select p l 0 true none).3
step-SignalsIdle select p (releases_lease l) = release_lease-SignalsIdle p l
step-SignalsIdle select p (records_stream l s) =
    same_objects p (step select p (records_stream l s)) (traffic-objects select p l s true none).4
