-- ===== src/Pool/Counted.antt =====
-- The lease accounting over every history of calls.
use qmux.Base.{ℕ, ◌≡◌, List, [], ◌∷◌, arith}
use qmux.Pool.State.{Conn, Limits, Pool, new_with_limits}
use qmux.Pool.Balancer.{Select}
use qmux.Pool.Frames.{
  traffic_of, begin_pending-SameTraffic, reserve-SameTraffic, commit-SameTraffic, abort-SameTraffic,
  begin_retire-SameTraffic, done-SameTraffic, mark-SameTraffic, begin_tcp_admission-SameTraffic,
}
use qmux.Pool.Leases.{IsCounted, SameTraffic-IsCounted, count_leases}
use qmux.Pool.Accounting.{
  reserve_udp-IsCounted, release_udp-IsCounted, next-IsCounted, commit_lease-IsCounted,
  release_lease-IsCounted, record_stream-IsCounted,
}
use qmux.Pool.Run.{
  Call, begins_pending, reserves, commits, aborts, retires, finishes, marks, reserves_udp,
  releases_udp, begins_admission, admits, commits_lease, releases_lease, records_stream, step, run,
}

pub step-IsCounted :
    (select : Select) (p : Pool) (c : Call) → IsCounted p → IsCounted (step select p c)
unfolding step
step-IsCounted select p begins_pending = SameTraffic-IsCounted p _ (begin_pending-SameTraffic p)
step-IsCounted select p (reserves r conn) = SameTraffic-IsCounted p _ (reserve-SameTraffic p r conn)
step-IsCounted select p (commits r) = SameTraffic-IsCounted p _ (commit-SameTraffic p r)
step-IsCounted select p (aborts r) = SameTraffic-IsCounted p _ (abort-SameTraffic p r)
step-IsCounted select p (retires c) = SameTraffic-IsCounted p _ (begin_retire-SameTraffic p c)
step-IsCounted select p (finishes rt) = SameTraffic-IsCounted p _ (done-SameTraffic p rt)
step-IsCounted select p (marks health c) = SameTraffic-IsCounted p _ (mark-SameTraffic health p c)
step-IsCounted select p reserves_udp = reserve_udp-IsCounted select p
step-IsCounted select p (releases_udp c) = release_udp-IsCounted p c
step-IsCounted select p begins_admission =
    SameTraffic-IsCounted p _ (begin_tcp_admission-SameTraffic p)
step-IsCounted select p (admits a) = next-IsCounted select p a
step-IsCounted select p (commits_lease l) = commit_lease-IsCounted p l
step-IsCounted select p (releases_lease l) = release_lease-IsCounted p l
step-IsCounted select p (records_stream l s) = record_stream-IsCounted p l s

run_from-IsCounted :
    (select : Select) (p : Pool) (cs : List Call) → IsCounted p → IsCounted (run select p cs)
unfolding run
run_from-IsCounted select p [] v = v
run_from-IsCounted select p (c ∷ cs) v =
    run_from-IsCounted select (step select p c) cs (step-IsCounted select p c v)

-- No connection that callers pass in has carried traffic.
abbrev pub AreIdle : (ℕ → Conn) → Type 0
AreIdle conns = (c : ℕ) → traffic_of (conns c) ≡ (0, 0, 0, 0)

pub new-IsCounted :
    (conns : ℕ → Conn) (limits : Limits) → AreIdle conns → IsCounted (new_with_limits conns limits)
unfolding new_with_limits count_leases
new-IsCounted conns limits idle c = ground (arith, idle c)

-- Whatever calls come in whatever order, and whatever the balancer picks: every generation has as
-- many pending and established TCP connections as it has pending and active leases, so no release
-- ever takes a counter below 0, and never more of them, or of UDP sessions, than its limits allow.
pub run-IsCounted :
    (select : Select) (conns : ℕ → Conn) (limits : Limits) (cs : List Call)
    → AreIdle conns
    → IsCounted (run select (new_with_limits conns limits) cs)
run-IsCounted select conns limits cs idle =
    run_from-IsCounted select (new_with_limits conns limits) cs (new-IsCounted conns limits idle)
