-- ===== src/Pool/Run.antt =====
-- The calls on a pool, in any sequence: what sessions, traffic handlers and the cleanup of
-- connections do to it under its lock.
use qmux.Base.{ℕ, Bool, Option, List, [], ◌∷◌}
use qmux.Pool.State.{Pool}
use qmux.Pool.Registration.{begin_pending, reserve, commit, abort}
use qmux.Pool.Retirement.{begin_retire, done, mark}
use qmux.Pool.Balancer.{Select}
use qmux.Pool.Traffic.{
  TcpAdmission, reserve_udp, release_udp, begin_tcp_admission, next, commit_lease, release_lease,
  record_stream,
}

pub data Call : Type 0 where
  begins_pending : Call
  reserves : ℕ → Option ℕ → Call
  commits aborts : ℕ → Call
  retires : Option ℕ → Call
  finishes : ℕ → Call
  marks : Bool → Option ℕ → Call
  reserves_udp : Call
  releases_udp : Option ℕ → Call
  begins_admission : Call
  admits : TcpAdmission → Call
  commits_lease releases_lease : ℕ → Call
  records_stream : ℕ → ℕ → Call

module _ (select : Select) where
  -- The pool after a call, whatever the call returned.
  unfoldable pub step : Pool → Call → Pool
  step p begins_pending = (begin_pending p).0
  step p (reserves r conn) = (reserve p r conn).0
  step p (commits r) = (commit p r).0
  step p (aborts r) = (abort p r).0
  step p (retires c) = (begin_retire p c).0
  step p (finishes rt) = (done p rt).0
  step p (marks health c) = (mark health p c).0
  step p reserves_udp = (reserve_udp select p).0
  step p (releases_udp c) = (release_udp p c).0
  step p begins_admission = (begin_tcp_admission p).0
  step p (admits a) = (next select p a).0
  step p (commits_lease l) = (commit_lease p l).0
  step p (releases_lease l) = (release_lease p l).0
  step p (records_stream l stream_id) = record_stream p l stream_id

  unfoldable pub run : Pool → List Call → Pool
  run p [] = p
  run p (c ∷ cs) = run (step p c) cs
