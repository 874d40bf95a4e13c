-- ===== src/Pool/Frames.antt =====
-- Which operations leave the traffic of all generations alone, and which the registrations.
use qmux.Base.{ℕ, ◌≡◌, Bool, Option, arith}
use qmux.Base.Assoc.{nat_eq, str_Eq}
use qmux.Pool.State.{Conn, Pool}
use qmux.Pool.Registration.{begin_pending, reserve, commit, abort}
use qmux.Pool.Retirement.{signal_tcp_drained, finalize_retirement, begin_retire, done, mark}
use qmux.Pool.Traffic.{begin_tcp_admission}

abbrev pub traffic_of : Conn → ℕ × ℕ × ℕ × ℕ
traffic_of conn = (conn.tcp_pending, conn.tcp_active, conn.udp_sessions, conn.active_conns)

pub record SameTraffic (p q : Pool) : Type 0 where
  pub leases_eq : q.leases ≡ p.leases
  pub limits_eq : q.limits ≡ p.limits
  pub traffic_eq : (c : ℕ) → traffic_of (q.conns c) ≡ traffic_of (p.conns c)

pub begin_pending-SameTraffic : (p : Pool) → SameTraffic p (begin_pending p).0
unfolding begin_pending
begin_pending-SameTraffic p = record {
  leases_eq = ground arith;
  limits_eq = ground arith;
  traffic_eq = λ c. ground arith;
}

pub reserve-SameTraffic : (p : Pool) (r : ℕ) (conn : Option ℕ) → SameTraffic p (reserve p r conn).0
unfolding reserve
reserve-SameTraffic p r conn = record {
  leases_eq = ground arith;
  limits_eq = ground arith;
  traffic_eq = λ c. ground arith;
}

pub commit-SameTraffic : (p : Pool) (r : ℕ) → SameTraffic p (commit p r).0
unfolding commit
commit-SameTraffic p r = record {
  leases_eq = ground arith;
  limits_eq = ground arith;
  traffic_eq = λ c. ground arith;
}

pub abort-SameTraffic : (p : Pool) (r : ℕ) → SameTraffic p (abort p r).0
unfolding abort
abort-SameTraffic p r = record {
  leases_eq = ground arith;
  limits_eq = ground arith;
  traffic_eq = λ c. ground arith;
}

pub begin_retire-SameTraffic : (p : Pool) (c : Option ℕ) → SameTraffic p (begin_retire p c).0
unfolding begin_retire signal_tcp_drained
begin_retire-SameTraffic p expected = record {
  leases_eq = ground arith;
  limits_eq = ground arith;
  traffic_eq = λ c. ground arith;
}

pub done-SameTraffic : (p : Pool) (rt : ℕ) → SameTraffic p (done p rt).0
unfolding done finalize_retirement
done-SameTraffic p rt = record {
  leases_eq = ground arith;
  limits_eq = ground arith;
  traffic_eq = λ c. ground arith;
}

pub mark-SameTraffic : (health : Bool) (p : Pool) (c : Option ℕ) → SameTraffic p (mark health p c).0
unfolding mark
mark-SameTraffic health p expected = record {
  leases_eq = ground arith;
  limits_eq = ground arith;
  traffic_eq = λ c. ground arith;
}

pub begin_tcp_admission-SameTraffic : (p : Pool) → SameTraffic p (begin_tcp_admission p).0
unfolding begin_tcp_admission
begin_tcp_admission-SameTraffic p = record {
  leases_eq = ground arith;
  limits_eq = ground arith;
  traffic_eq = λ c. ground arith;
}
