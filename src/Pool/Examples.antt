-- ===== src/Pool/Examples.antt =====
-- The pool's theorems on two generations of concrete connections.
use mathlib.Core.Path.{◌≡◌, refl}
use qmux.Base.{ℕ, true, false, none, some, List, [], ◌∷◌}
use qmux.Pool.State.{Conn, Pool, default_limits, new_with_limits, tcp, udp}
use qmux.Pool.Balancer.{round_robin, least_connections}
use qmux.Pool.Traffic.{TcpAdmission, balance, next}
use qmux.Pool.Run.{
  Call, begins_pending, reserves, commits, aborts, retires, finishes, reserves_udp, releases_udp,
  admits, commits_lease, releases_lease, run, step,
}
use qmux.Pool.Leases.{IsCounted}
use qmux.Pool.Counted.{run-IsCounted}
use qmux.Pool.Registry.{IsRegistered}
use qmux.Pool.Registered.{run-IsRegistered}
use qmux.Pool.Tracked.{IsTracked}
use qmux.Pool.Carried.{run-IsTracked}
use qmux.Pool.Bounded.{IsBounded, run-IsBounded}
use qmux.Pool.Drained.{IsDrained}
use qmux.Pool.Idle.{SignalsIdle}
use qmux.Pool.Signals.{run-IsDrained}
use qmux.Pool.Selection.{round_robin_lem, least_connections_lem, rotation, LeastOutcome}
use qmux.Pool.Admission.{NextOutcome, next_outcome}

abbrev client : ℕ → Conn
client n = record {
  id = n ∷ [];
  capabilities = tcp ∷ udp ∷ [];
  healthy = true;
  added = false;
  active_conns = 0;
  total_conns = 0;
  tcp_pending = 0;
  tcp_active = 0;
  udp_sessions = 0;
  tcp_stream_id = 0;
  tcp_opened = false;
}

abbrev both : TcpAdmission
both = record { candidates = 1 ∷ 2 ∷ []; next = 0; balanced = false; balance_err = none }

-- Two clients join, one carries a TCP connection and a UDP session and is retired under them.
abbrev calls : List Call
calls =
    begins_pending
    ∷ begins_pending
    ∷ reserves 0 (some 1)
    ∷ reserves 1 (some 2)
    ∷ commits 0
    ∷ commits 1
    ∷ admits both
    ∷ commits_lease 0
    ∷ reserves_udp
    ∷ retires (some 2)
    ∷ finishes 0
    ∷ releases_lease 0
    ∷ releases_udp (some 2)
    ∷ begins_pending
    ∷ aborts 2
    ∷ []

abbrev joined : Pool
joined = run round_robin (new_with_limits client default_limits) (
    begins_pending
    ∷ begins_pending
    ∷ reserves 0 (some 1)
    ∷ reserves 1 (some 2)
    ∷ commits 0
    ∷ commits 1
    ∷ [])

run-IsCounted_example : IsCounted (run round_robin (new_with_limits client default_limits) calls)
run-IsCounted_example = run-IsCounted round_robin client default_limits calls (λ c. refl)

run-IsRegistered_example :
    IsRegistered (run round_robin (new_with_limits client default_limits) calls)
run-IsRegistered_example = run-IsRegistered round_robin client default_limits calls

round_robin_lem_example : round_robin joined (1 ∷ 2 ∷ []) ≡ rotation joined (1 ∷ 2 ∷ [])
round_robin_lem_example = round_robin_lem joined (1 ∷ 2 ∷ [])

next_outcome_example :
    NextOutcome joined (balance round_robin joined both).1 (next round_robin joined both)
next_outcome_example = next_outcome round_robin joined both

least_connections_lem_example :
    LeastOutcome joined (1 ∷ 2 ∷ []) (least_connections joined (1 ∷ 2 ∷ []))
least_connections_lem_example = least_connections_lem joined (1 ∷ 2 ∷ [])

run-IsTracked_example : IsTracked (run round_robin (new_with_limits client default_limits) calls)
run-IsTracked_example = run-IsTracked round_robin client default_limits calls (λ c. refl)

run-IsBounded_example : IsBounded (run round_robin (new_with_limits client default_limits) calls)
run-IsBounded_example = run-IsBounded round_robin client default_limits calls

run-IsDrained_example :
    IsDrained (run round_robin (new_with_limits client default_limits) calls)
    × ((c : Call)
        → SignalsIdle
            (run round_robin (new_with_limits client default_limits) calls)
            (step round_robin (run round_robin (new_with_limits client default_limits) calls) c))
run-IsDrained_example = run-IsDrained round_robin client default_limits calls (λ c. refl)
