-- ===== src/Pool/Leases.antt =====
-- The lease counters of every generation are exact and within the limits.
use qmux.Base.{
  ℕ, zero, suc, ◌≡◌, ap, ◌+◌, ◌≤◌, Bool, true, false, ◌&&◌, some, List, [], ◌∷◌, ◌++◌, arith, ◌==◌,
  if◌then◌else◌, get_elem?, set,
}
use qmux.Base.Assoc.{nat_eq, str_Eq}
use qmux.Pool.State.{TcpLease, LeaseState, active, Pool}
use qmux.Pool.Frames.{SameTraffic}

abbrev pub is_pending_lease : TcpLease → Bool
is_pending_lease lease = elim lease.state [ LeaseState.pending ↦ true | _ ↦ false ]

abbrev pub is_active_lease : TcpLease → Bool
is_active_lease lease = elim lease.state [ active ↦ true | _ ↦ false ]

-- The leases on the generation `c` that pass the test.
unfoldable pub count_leases : (TcpLease → Bool) → ℕ → List TcpLease → ℕ
count_leases test c [] = 0
count_leases test c (lease ∷ leases) =
    let rest = count_leases test c leases in
    if lease.conn == c && test lease then suc rest else rest

pub count_leases-append :
    (test : TcpLease → Bool) (c : ℕ) (leases : List TcpLease) (lease : TcpLease)
    → count_leases test c (leases ++ (lease ∷ []))
      ≡ count_leases test c leases + (if lease.conn == c && test lease then 1 else 0)
unfolding count_leases
count_leases-append test c [] lease = ground arith
count_leases-append test c (x ∷ leases) lease =
    ground (arith, count_leases-append test c leases lease)

pub count_leases-set :
    (test : TcpLease → Bool) (c : ℕ) (leases : List TcpLease) (l : ℕ) (old lease : TcpLease)
    → get_elem? leases l ≡ some old
    → count_leases test c (set leases l lease) + (if old.conn == c && test old then 1 else 0)
      ≡ count_leases test c leases + (if lease.conn == c && test lease then 1 else 0)
unfolding count_leases
count_leases-set test c [] l old lease e = cc
count_leases-set test c (x ∷ leases) zero old lease e = ground arith
count_leases-set test c (x ∷ leases) (suc l) old lease e =
    ground (arith, count_leases-set test c leases l old lease e)

-- What holds of one generation.
pub record IsCountedAt (p : Pool) (c : ℕ) : Type 0 where
  pub pending_exact : (p.conns c).tcp_pending ≡ count_leases is_pending_lease c p.leases
  pub active_exact : (p.conns c).tcp_active ≡ count_leases is_active_lease c p.leases
  pub conns_exact : (p.conns c).active_conns ≡ (p.conns c).tcp_active
  pub connections_bounded :
      (p.conns c).tcp_pending + (p.conns c).tcp_active ≤ p.limits.max_tcp_connections_per_generation
  pub setups_bounded : (p.conns c).tcp_pending ≤ p.limits.max_pending_tcp_setups_per_generation
  pub sessions_bounded : (p.conns c).udp_sessions ≤ p.limits.max_udp_sessions_per_generation

abbrev pub IsCounted : Pool → Type 0
IsCounted p = (c : ℕ) → IsCountedAt p c

pub SameTraffic-IsCounted : (p q : Pool) → SameTraffic p q → IsCounted p → IsCounted q
SameTraffic-IsCounted p q s v c = ground (
  arith,
  v c,
  s.traffic_eq c,
  ap (count_leases is_pending_lease c) s.leases_eq,
  ap (count_leases is_active_lease c) s.leases_eq,
)
