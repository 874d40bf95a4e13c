-- ===== src/Pool/Signals.antt =====
-- The drain signals over every history of calls.
use mathlib.Core.Path.{subst}
use qmux.Base.{
  ℕ, ◌≡◌, refl, sym, ◌+◌, Bool, true, false, Option, none, some, List, [], ◌∷◌, arith, ◌==◌,
  if_cases, not, drop,
}
use qmux.Pool.State.{Error, Result, Conn, Limits, Pool, new_with_limits}
use qmux.Pool.Balancer.{Select}
use qmux.Pool.Traffic.{
  TcpAdmission, Verdict, skip, connection_full, setup_full, take, verdict, walk, balance, next_from,
  next,
}
use qmux.Pool.Leases.{IsCounted}
use qmux.Pool.Accounting.{balance-counter}
use qmux.Pool.Counted.{step-IsCounted, AreIdle, new-IsCounted}
use qmux.Pool.Registry.{IsRegistered}
use qmux.Pool.Registered.{step-IsRegistered, new-IsRegistered}
use qmux.Pool.Tracked.{IsTracked}
use qmux.Pool.Carried.{step-IsTracked, new-IsTracked}
use qmux.Pool.Drained.{
  IsDrained, begin_pending-IsDrained, reserve-IsDrained, commit-IsDrained, abort-IsDrained,
  mark-IsDrained, begin_tcp_admission-IsDrained, record_stream-IsDrained, reserve_udp-IsDrained,
  done-IsDrained, begin_retire-IsDrained, take_setup-IsDrained, release_udp-IsDrained,
  release_lease-IsDrained, commit_lease-IsDrained,
}
use qmux.Pool.Idle.{SignalsIdle, step-SignalsIdle}
use qmux.Pool.Run.{
  Call, begins_pending, reserves, commits, aborts, retires, finishes, marks, reserves_udp,
  releases_udp, begins_admission, admits, commits_lease, releases_lease, records_stream, step, run,
}

walk-IsDrained :
    (p : Pool) (cs : List ℕ) (n : ℕ) (at_connection at_setup : Bool)
    → IsDrained p
    → IsDrained (walk p cs n at_connection at_setup).0
unfolding walk
walk-IsDrained p [] n true at_setup v = v
walk-IsDrained p [] n false true v = v
walk-IsDrained p [] n false false v = v
walk-IsDrained p (c ∷ cs) n at_connection at_setup v =
    by_verdict (verdict p c) refl (λ x y. walk-IsDrained p cs (n + 1) x y v)
  where
    by_verdict :
        (w : Verdict)
        → verdict p c ≡ w
        → ((x y : Bool) → IsDrained (walk p cs (n + 1) x y).0)
        → IsDrained (walk p (c ∷ cs) n at_connection at_setup).0
    by_verdict take e rest = rw (e, walk) (take_setup-IsDrained p c v)
    by_verdict skip e rest = rw (e, walk) (rest at_connection at_setup)
    by_verdict connection_full e rest = rw (e, walk) (rest true at_setup)
    by_verdict setup_full e rest = rw (e, walk) (rest at_connection true)

next-IsDrained :
    (select : Select) (p : Pool) (a : TcpAdmission) → IsDrained p → IsDrained (next select p a).0
unfolding next
next-IsDrained select p a v =
    if_cases {A = Pool × TcpAdmission × Result (Option ℕ)} (λ r. IsDrained r.0)
      (not (p.accounting_faults == 0)) _ _ (λ _. v)
      (λ _. balanced (balance select p a).1.balance_err)
  where
    b : Pool × TcpAdmission
    b = balance select p a

    w : IsDrained b.0
    w = let (n, e) = balance-counter select p a in subst IsDrained (sym e) v

    balanced : (e : Option Error) → IsDrained (next_from b.0 b.1 e).0
    balanced (some e) = w
    balanced none = walk-IsDrained b.0 (drop b.1.next b.1.candidates) b.1.next false false w

step-IsDrained :
    (select : Select) (p : Pool) (c : Call)
    → IsCounted p
    → IsTracked p
    → IsDrained p
    → IsDrained (step select p c)
unfolding step
step-IsDrained select p begins_pending n t = begin_pending-IsDrained p
step-IsDrained select p (reserves r conn) n t = reserve-IsDrained p r conn
step-IsDrained select p (commits r) n t = commit-IsDrained p r
step-IsDrained select p (aborts r) n t = abort-IsDrained p r
step-IsDrained select p (retires c) n t = begin_retire-IsDrained p c
step-IsDrained select p (finishes rt) n t = done-IsDrained p rt t.retiring_uniq
step-IsDrained select p (marks health c) n t = mark-IsDrained health p c
step-IsDrained select p reserves_udp n t = reserve_udp-IsDrained select p
step-IsDrained select p (releases_udp c) n t = release_udp-IsDrained p c t.retiring_uniq
step-IsDrained select p begins_admission n t = begin_tcp_admission-IsDrained p
step-IsDrained select p (admits a) n t = next-IsDrained select p a
step-IsDrained select p (commits_lease l) n t = commit_lease-IsDrained p l n
step-IsDrained select p (releases_lease l) n t = release_lease-IsDrained p l t.retiring_uniq
step-IsDrained select p (records_stream l s) n t = record_stream-IsDrained p l s

run_from-IsDrained :
    (select : Select) (p : Pool) (cs : List Call)
    → IsCounted p
    → IsRegistered p
    → IsTracked p
    → IsDrained p
    → IsDrained (run select p cs)
unfolding run
run_from-IsDrained select p [] n g t v = v
run_from-IsDrained select p (c ∷ cs) n g t v =
    run_from-IsDrained select (step select p c) cs (step-IsCounted select p c n)
      (step-IsRegistered select p c g) (step-IsTracked select p c n g t)
      (step-IsDrained select p c n t v)

new-IsDrained : (conns : ℕ → Conn) (limits : Limits) → IsDrained (new_with_limits conns limits)
unfolding new_with_limits
new-IsDrained conns limits rt o e = ground arith

-- Whatever calls come in whatever order on a new pool over idle connections: no retirement signals
-- its drain more than once, one that stands in the pool and has not signalled still has pending or
-- established TCP connections, and a call that makes a retirement signal leaves its generation
-- without any, so the signal comes with the end of the last one.
pub run-IsDrained :
    (select : Select) (conns : ℕ → Conn) (limits : Limits) (cs : List Call)
    → AreIdle conns
    → IsDrained (run select (new_with_limits conns limits) cs)
      × ((c : Call)
          → SignalsIdle
              (run select (new_with_limits conns limits) cs)
              (step select (run select (new_with_limits conns limits) cs) c))
run-IsDrained select conns limits cs idle = (
  run_from-IsDrained select (new_with_limits conns limits) cs (new-IsCounted conns limits idle)
      (new-IsRegistered conns limits) (new-IsTracked conns limits idle)
      (new-IsDrained conns limits),
  λ c. step-SignalsIdle select (run select (new_with_limits conns limits) cs) c,
)
