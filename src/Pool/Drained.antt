-- ===== src/Pool/Drained.antt =====
-- The drain signal of a retirement: sent at most once, and as soon as no TCP lease is left.
use mathlib.Core.Path.{subst}
use qmux.Base.{
  ℕ, zero, suc, ◌≡◌, refl, sym, ap, ◌∙◌, ◌+◌, ◌-◌, ◌<◌, Bool, true, ◌&&◌, ◌||◌, Option, none, some,
  List, [], ◌∷◌, ◌++◌, arith, ◌==◌, ==_refl, if◌then◌else◌, get_elem?, get_elem?-set,
  get_elem?-append, length-append, set, Option-cases, inl, inr, if_cases, length, not,
}
use qmux.Base.Assoc.{nat_eq, str_Eq, lookup, Uniq, lookup-insert, lookup-erase}
use qmux.Pool.State.{
  Conn, Pool, TcpLease, LeaseState, active, released, Retirement, is_current, points_to, update,
}
use qmux.Pool.Registration.{begin_pending, reserve, commit, abort}
use qmux.Pool.Retirement.{
  signal_tcp_drained, signal_object, finalize_retirement, new_retirement, retire_current,
  begin_retire, done, mark, fence_of,
}
use qmux.Pool.Balancer.{Select}
use qmux.Pool.Traffic.{
  take_udp, reserve_udp, release_udp, begin_tcp_admission, take_setup, commit_state, commit_lease,
  release_lease, release_state, settle_release, record_stream,
}
use qmux.Pool.Leases.{is_pending_lease, count_leases-set, IsCounted}

abbrev pub tcp_load : Conn → ℕ
tcp_load conn = conn.tcp_pending + conn.tcp_active

-- A retirement has signalled once, or not yet; while it stands in the pool without a signal its
-- generation has TCP leases.
abbrev pub is_settled : Pool → ℕ → Retirement → Bool
is_settled p rt o =
    if o.drain_sent
    then length o.tcp_drained == 1
    else (length o.tcp_drained == 0
        && (not (points_to (lookup o.conn p.retiring) rt) || not (tcp_load (p.conns o.conn) == 0)))

abbrev pub IsDrained : Pool → Type 0
IsDrained p =
    (rt : ℕ) (o : Retirement)
    → get_elem? p.retirement_objects rt ≡ some o
    → is_settled p rt o ≡ true

pub begin_pending-IsDrained : (p : Pool) → IsDrained p → IsDrained (begin_pending p).0
unfolding begin_pending
begin_pending-IsDrained p v rt o e = ground (arith, v rt o)

pub reserve-IsDrained :
    (p : Pool) (r : ℕ) (c : Option ℕ) → IsDrained p → IsDrained (reserve p r c).0
unfolding reserve
reserve-IsDrained p r c v rt o e = ground (arith, v rt o)

pub commit-IsDrained : (p : Pool) (r : ℕ) → IsDrained p → IsDrained (commit p r).0
unfolding commit
commit-IsDrained p r v rt o e = ground (arith, v rt o)

pub abort-IsDrained : (p : Pool) (r : ℕ) → IsDrained p → IsDrained (abort p r).0
unfolding abort
abort-IsDrained p r v rt o e = ground (arith, v rt o)

pub mark-IsDrained : (h : Bool) (p : Pool) (c : Option ℕ) → IsDrained p → IsDrained (mark h p c).0
unfolding mark
mark-IsDrained h p c v rt o e = ground (arith, v rt o)

pub begin_tcp_admission-IsDrained : (p : Pool) → IsDrained p → IsDrained (begin_tcp_admission p).0
unfolding begin_tcp_admission
begin_tcp_admission-IsDrained p v rt o e = ground (arith, v rt o)

pub record_stream-IsDrained : (p : Pool) (l s : ℕ) → IsDrained p → IsDrained (record_stream p l s)
unfolding record_stream
record_stream-IsDrained p l s v rt o e = ground (arith, v rt o)

pub reserve_udp-IsDrained :
    (select : Select) (p : Pool) → IsDrained p → IsDrained (reserve_udp select p).0
unfolding reserve_udp take_udp
reserve_udp-IsDrained select p v rt o e = ground (arith, v rt o)

finalize-IsDrained :
    (p : Pool) (c : ℕ) → Uniq p.retiring → IsDrained p → IsDrained (finalize_retirement p c)
unfolding finalize_retirement
finalize-IsDrained p c u v rt o e = ground (arith, v rt o, lookup-erase c o.conn p.retiring u)

-- What the pool must satisfy before a signal: every retirement is settled, but for one generation
-- whose retirement is about to be signalled.
abbrev IsDrainedBut : ℕ → Pool → Type 0
IsDrainedBut c p =
    (rt : ℕ) (o : Retirement)
    → get_elem? p.retirement_objects rt ≡ some o
    → (is_settled p rt o
        || (o.conn == c
            && points_to (lookup c p.retiring) rt
            && not o.drain_sent
            && length o.tcp_drained == 0))
      ≡ true

signal_object-IsDrained :
    (p : Pool) (c s : ℕ) (x : Retirement)
    → lookup c p.retiring ≡ some s
    → get_elem? p.retirement_objects s ≡ some x
    → IsDrainedBut c p
    → IsDrained (signal_object p s x)
unfolding signal_object
signal_object-IsDrained p c s x there is v rt o e =
    let sent : Retirement = record x {
      tcp_drained = x.tcp_drained ++ (fence_of (p.conns x.conn) ∷ []);
      drain_sent = true;
    } in
    ground (
      arith,
      v rt o,
      v s x is,
      ap (get_elem? p.retirement_objects) {x = rt} {y = s},
      get_elem?-set p.retirement_objects s rt x sent is,
      length-append x.tcp_drained (fence_of (p.conns x.conn) ∷ []),
    )

signal_at-IsDrained :
    (p : Pool) (c : ℕ) (st : Option ℕ)
    → lookup c p.retiring ≡ st
    → IsDrainedBut c p
    → IsDrained (signal_tcp_drained p st)
unfolding signal_tcp_drained signal_object
signal_at-IsDrained p c none there v rt o e = ground (arith, v rt o)
signal_at-IsDrained p c (some s) there v rt o e = by_object (get_elem? p.retirement_objects s) refl
  where
    by_object :
        (x : Option Retirement)
        → get_elem? p.retirement_objects s ≡ x
        → is_settled (signal_tcp_drained p (some s)) rt o ≡ true
    by_object none is =
        let same : signal_tcp_drained p (some s) ≡ p = rw (is, signal_tcp_drained) refl in
        let at : get_elem? p.retirement_objects rt ≡ some o =
          sym (ap (λ (q : Pool). get_elem? q.retirement_objects rt) same) ∙ e in
        subst (λ (q : Pool). is_settled q rt o ≡ true) (sym same)
          (ground (arith, v rt o at, ap (get_elem? p.retirement_objects) {x = rt} {y = s}))
    by_object (some x) is =
        let same : signal_tcp_drained p (some s) ≡ signal_object p s x =
          rw (is, signal_tcp_drained) refl in
        let at : get_elem? (signal_object p s x).retirement_objects rt ≡ some o =
          sym (ap (λ (q : Pool). get_elem? q.retirement_objects rt) same) ∙ e in
        subst (λ (q : Pool). is_settled q rt o ≡ true) (sym same)
          (signal_object-IsDrained p c s x there is v rt o at)

signal-retiring : (p : Pool) (rt : Option ℕ) → (signal_tcp_drained p rt).retiring ≡ p.retiring
unfolding signal_tcp_drained
signal-retiring p rt = ground arith

pub done-IsDrained : (p : Pool) (rt : ℕ) → Uniq p.retiring → IsDrained p → IsDrained (done p rt).0
unfolding done
done-IsDrained p rt u v = elim (Option-cases (get_elem? p.retirement_objects rt)) [
  | inl e ↦ rw (e, done) v
  | inr (object, e) ↦
      let q : Pool = record p {
        retirement_objects = set p.retirement_objects rt (record object { done = true });
      } in
      let w : IsDrained q = λ s o at. ground (
        arith,
        v s o,
        v rt object e,
        get_elem?-set p.retirement_objects rt s object (record object { done = true }) e,
      ) in
      rw (e, done)
        (if_cases {A = Pool × Bool} (λ x. IsDrained x.0)
          (object.done || not (points_to (lookup object.conn p.retiring) rt)) _ _ (λ _. v)
          (λ _. finalize-IsDrained q object.conn u w))
]

within :
    (rt : ℕ) (o : Retirement) (os : List Retirement) → get_elem? os rt ≡ some o → rt < length os
within rt o [] e = cc
within zero o (x ∷ os) e = omega arith
within (suc rt) o (x ∷ os) e = omega (arith, within rt o os e)

retire-IsDrainedBut : (p : Pool) (c : ℕ) → IsDrained p → IsDrainedBut c (retire_current p c)
unfolding retire_current
retire-IsDrainedBut p c v rt o e = ground (
  arith,
  v rt o,
  within rt o p.retirement_objects,
  get_elem?-append p.retirement_objects (new_retirement c) rt,
  lookup-insert c o.conn (length p.retirement_objects) p.retiring,
  lookup-insert c c (length p.retirement_objects) p.retiring,
)

pub begin_retire-IsDrained :
    (p : Pool) (c : Option ℕ) → IsDrained p → IsDrained (begin_retire p c).0
unfolding begin_retire retire_current
begin_retire-IsDrained p none v = v
begin_retire-IsDrained p (some c) v =
    if_cases {A = Pool × Option ℕ} (λ x. IsDrained x.0) (is_current p c) _ _
      (λ current.
        signal_at-IsDrained (retire_current p c) c (some (length p.retirement_objects))
          (ground (arith, lookup-insert c c (length p.retirement_objects) p.retiring))
          (retire-IsDrainedBut p c v))
      (λ _. v)

pub take_setup-IsDrained : (p : Pool) (c : ℕ) → IsDrained p → IsDrained (take_setup p c)
unfolding take_setup
take_setup-IsDrained p c v rt o e = ground (arith, v rt o)

pub release_udp-IsDrained :
    (p : Pool) (c : Option ℕ) → Uniq p.retiring → IsDrained p → IsDrained (release_udp p c).0
unfolding release_udp
release_udp-IsDrained p none u v = v
release_udp-IsDrained p (some c) u v =
    if_cases {A = Pool × Bool} (λ r. IsDrained r.0) ((p.conns c).udp_sessions == 0) _ _ (λ _. v)
      (λ _. finalize-IsDrained one_less c u (λ rt o e. ground (arith, v rt o)))
  where
    one_less : Pool
    one_less = record p {
      conns = update p.conns c (record (p.conns c) { udp_sessions = (p.conns c).udp_sessions - 1 });
    }

settle_release-IsDrained :
    (p : Pool) (l : ℕ) (lease : TcpLease) (conn : Conn)
    → Uniq p.retiring
    → IsDrained p
    → IsDrained (settle_release p l lease conn)
unfolding settle_release
settle_release-IsDrained p l lease conn u v =
    finalize-IsDrained (signal_tcp_drained q (lookup lease.conn q.retiring)) lease.conn
      (subst Uniq (sym (signal-retiring q (lookup lease.conn q.retiring))) u)
      (signal_at-IsDrained q lease.conn (lookup lease.conn q.retiring) refl
        (λ rt o e. ground (arith, v rt o)))
  where
    q : Pool
    q = record p {
      conns = update p.conns lease.conn conn;
      leases = set p.leases l (record lease { state = released });
    }

release_state-IsDrained :
    (p : Pool) (l : ℕ) (lease : TcpLease) (st : LeaseState)
    → Uniq p.retiring
    → IsDrained p
    → IsDrained (release_state p l lease st).0
unfolding release_state
release_state-IsDrained p l lease LeaseState.pending u v = settle_release-IsDrained p l lease _ u v
release_state-IsDrained p l lease active u v = settle_release-IsDrained p l lease _ u v
release_state-IsDrained p l lease released u v = v

pub release_lease-IsDrained :
    (p : Pool) (l : ℕ) → Uniq p.retiring → IsDrained p → IsDrained (release_lease p l).0
unfolding release_lease
release_lease-IsDrained p l u v = elim (Option-cases (get_elem? p.leases l)) [
  | inl e ↦ rw (e, release_lease) v
  | inr (lease, e) ↦ rw (e, release_lease) (release_state-IsDrained p l lease lease.state u v)
]

pub commit_lease-IsDrained :
    (p : Pool) (l : ℕ) → IsCounted p → IsDrained p → IsDrained (commit_lease p l).0
unfolding commit_lease
commit_lease-IsDrained p l counts v = elim (Option-cases (get_elem? p.leases l)) [
  | inl e ↦ rw (e, commit_lease) v
  | inr (lease, e) ↦ rw (e, commit_lease) (by_state lease e lease.state refl)
]
  where
    by_state :
        (lease : TcpLease)
        → get_elem? p.leases l ≡ some lease
        → (st : LeaseState) → lease.state ≡ st
        → IsDrained (commit_state p l lease st).0
    by_state lease e LeaseState.pending was = λ rt o at. ground (
      arith,
      v rt o,
      counts lease.conn,
      count_leases-set is_pending_lease lease.conn p.leases l lease
          (record lease { state = released }) e,
      ==_refl lease.conn,
    )
    by_state lease e active was = v
    by_state lease e released was = v
