-- ===== src/Pool/Traffic.antt =====
-- Traffic on a generation: `ReserveUDP`, `ReleaseUDP`, TCP admission and TCP leases of
-- server/pool/pool.go. The balancer is a parameter.
use qmux.Base.{
  ℕ, suc, ◌+◌, ◌-◌, ◌%◌, ◌^◌, Bool, true, false, not, ◌&&◌, Option, none, some, List, [], ◌∷◌, ◌++◌,
  ltb, ◌==◌, if◌then◌else◌, length, get_elem?, set, drop,
}
use qmux.Base.Assoc.{nat_eq, str_Eq, lookup}
use qmux.Pool.State.{
  Error, Result, ok, err, Conn, TcpLease, LeaseState, active, released, Pool, observe, drop_one,
  update, is_current, is_eligible, tcp, udp, tcp_capacity_error, no_clients_available,
  no_eligible_clients, accounting_fault, tcp_generation_connection_capacity,
  tcp_generation_setup_capacity, udp_generation_capacity, selected_outside,
}
use qmux.Pool.Retirement.{signal_tcp_drained, finalize_retirement}
use qmux.Pool.Balancer.{Select}

unfoldable pub values : List (List ℕ × ℕ) → List ℕ
values [] = []
values ((id, c) ∷ rest) = c ∷ values rest

unfoldable pub keep : (ℕ → Bool) → List ℕ → List ℕ
keep test [] = []
keep test (c ∷ cs) = let rest = keep test cs in if test c then c ∷ rest else rest

-- `slices.Index(xs, c)`: the position, or `none` for -1.
unfoldable pub index_of : ℕ → List ℕ → Option ℕ
index_of c [] = none
index_of c (d ∷ ds) = elim (d == c) [
  | true ↦ some 0
  | false ↦ elim (index_of c ds) [ none ↦ none | some i ↦ some (suc i) ]
]

unfoldable pub take_udp : Pool → ℕ → Pool
take_udp p c =
    let n = (p.conns c).udp_sessions + 1 in
    record p {
      conns = update p.conns c (record (p.conns c) { udp_sessions = n });
      udp_sessions = observe p.udp_sessions n;
    }

-- What becomes of the balancer's choice.
abbrev pub chosen_udp : Pool → List ℕ → Result ℕ × ℕ → Pool × Result ℕ
chosen_udp p eligible (err e, counter) = (record p { balancer_counter = counter }, err e)
chosen_udp p eligible (ok c, counter) =
    let q = record p { balancer_counter = counter } in
    elim (index_of c eligible) [ none ↦ (q, err selected_outside) | some i ↦ (take_udp q c, ok c) ]

abbrev pub udp_room : Pool → ℕ → Bool
udp_room p c = ltb (p.conns c).udp_sessions p.limits.max_udp_sessions_per_generation

-- `ReserveUDP`.
unfoldable pub reserve_udp : Select → Pool → Pool × Result ℕ
unfolding values keep index_of take_udp
reserve_udp select p =
    let capable = keep (λ c. is_eligible (p.conns c) udp) (values p.clients) in
    let eligible = keep (udp_room p) capable in
    if not (p.accounting_faults == 0)
    then (p, err accounting_fault)
    else if length p.clients == 0
    then (p, err no_clients_available)
    else if length capable == 0
    then (p, err no_eligible_clients)
    else if length eligible == 0
    then (record p { udp_sessions = drop_one p.udp_sessions }, err udp_generation_capacity)
    else chosen_udp p eligible (select p eligible)

-- `ReleaseUDP`.
unfoldable pub release_udp : Pool → Option ℕ → Pool × Bool
release_udp p none = (p, false)
release_udp p (some c) =
    let conn = p.conns c in
    if conn.udp_sessions == 0
    then (record p { accounting_faults = (p.accounting_faults + 1) % 2 ^ 64 }, false)
    else (
      finalize_retirement
          (record p {
            conns = update p.conns c (record conn { udp_sessions = conn.udp_sessions - 1 });
          })
          c,
      true,
    )

pub record TcpAdmission : Type 0 where
  pub candidates : List ℕ
  pub next : ℕ
  pub balanced : Bool
  pub balance_err : Option Error

abbrev pub client_slice : Pool → List ℕ
client_slice p = elim p.cached_clients [ some cached ↦ cached | none ↦ values p.clients ]

-- `BeginTCPAdmission`, with `clientSliceLocked`.
unfoldable pub begin_tcp_admission : Pool → Pool × Result TcpAdmission
unfolding values keep
begin_tcp_admission p =
    let slice = client_slice p in
    let candidates = keep (λ c. is_eligible (p.conns c) tcp) slice in
    let q = record p { cached_clients = some slice } in
    if not (p.accounting_faults == 0)
    then (p, err accounting_fault)
    else if length p.clients == 0
    then (p, err no_clients_available)
    else if length candidates == 0
    then (q, err no_eligible_clients)
    else (
      q,
      ok (record { candidates = candidates; next = 0; balanced = false; balance_err = none }),
    )

-- What the walk of `Next` makes of a candidate.
pub data Verdict : Type 0 where
  skip connection_full setup_full take : Verdict

abbrev verdict_of : Option Error → Verdict
verdict_of none = take
verdict_of (some tcp_generation_connection_capacity) = connection_full
verdict_of (some tcp_generation_setup_capacity) = setup_full
verdict_of (some _) = skip

unfoldable pub verdict : Pool → ℕ → Verdict
verdict p c =
    if is_current p c && is_eligible (p.conns c) tcp
    then verdict_of (tcp_capacity_error p (p.conns c))
    else skip

abbrev is_take : Verdict → Bool
is_take take = true
is_take _ = false

unfoldable pub take_setup : Pool → ℕ → Pool
take_setup p c =
    let conn = p.conns c in
    let n = conn.tcp_pending + 1 in
    record p {
      conns = update p.conns c (record conn { tcp_pending = n });
      pending_tcp_setups = observe p.pending_tcp_setups n;
      tcp_connections = observe p.tcp_connections (n + conn.tcp_active);
      leases = p.leases ++ (record { conn = c; state = LeaseState.pending } ∷ []);
    }

abbrev exhausted : Pool → Bool → Bool → Pool × Result (Option ℕ)
exhausted p true at_setup = (
  record p { tcp_connections = drop_one p.tcp_connections },
  err tcp_generation_connection_capacity,
)
exhausted p false true = (
  record p { pending_tcp_setups = drop_one p.pending_tcp_setups },
  err tcp_generation_setup_capacity,
)
exhausted p false false = (p, ok none)

-- The walk of `Next` over the candidates from `next` on: the pool, the new `next`, and the lease.
unfoldable pub walk : Pool → List ℕ → ℕ → Bool → Bool → Pool × ℕ × Result (Option ℕ)
unfolding take_setup
walk p [] next at_connection at_setup =
    let (q, r) = exhausted p at_connection at_setup in (q, next, r)
walk p (c ∷ cs) next at_connection at_setup = elim (verdict p c) [
  | take ↦ (take_setup p c, next + 1, ok (some (length p.leases)))
  | skip ↦ walk p cs (next + 1) at_connection at_setup
  | connection_full ↦ walk p cs (next + 1) true at_setup
  | setup_full ↦ walk p cs (next + 1) at_connection true
]

-- `candidates[0], candidates[i] = candidates[i], candidates[0]`.
abbrev pub swap_first : List ℕ → ℕ → List ℕ
swap_first candidates i = elim (get_elem? candidates 0) [
  | none ↦ candidates
  | some first ↦ elim (get_elem? candidates i) [
    | none ↦ candidates
    | some other ↦ set (set candidates 0 other) i first
  ]
]

abbrev balance_chosen : Pool → TcpAdmission → List ℕ → Result ℕ × ℕ → Pool × TcpAdmission
balance_chosen p a eligible (err e, counter) =
    (record p { balancer_counter = counter }, record a { balance_err = some e })
balance_chosen p a eligible (ok c, counter) =
    let q = record p { balancer_counter = counter } in
    elim (index_of c eligible) [
      | none ↦ (q, record a { balance_err = some selected_outside })
      | some _ ↦ elim (index_of c a.candidates) [
        | none ↦ (q, a)
        | some i ↦ (q, record a { candidates = swap_first a.candidates i })
      ]
    ]

-- The first call's selection.
unfoldable pub balance : Select → Pool → TcpAdmission → Pool × TcpAdmission
unfolding keep index_of
balance select p a =
    let eligible = keep (λ c. is_take (verdict p c)) a.candidates in
    let b = record a { balanced = true } in
    let chosen = balance_chosen p b eligible (select p eligible) in
    if a.balanced then (p, a) else if length eligible == 0 then (p, b) else chosen

abbrev pub next_from : Pool → TcpAdmission → Option Error → Pool × TcpAdmission × Result (Option ℕ)
next_from p a (some e) = (p, a, err e)
next_from p a none =
    let (q, next, r) = walk p (drop a.next a.candidates) a.next false false in
    (q, record a { next = next }, r)

abbrev pub next_balanced : Pool × TcpAdmission → Pool × TcpAdmission × Result (Option ℕ)
next_balanced (p, a) = next_from p a a.balance_err

-- `TCPAdmission.Next`; `ok none` is the nil lease of an exhausted snapshot.
unfoldable pub next : Select → Pool → TcpAdmission → Pool × TcpAdmission × Result (Option ℕ)
unfolding balance
next select p a =
    if not (p.accounting_faults == 0)
    then (p, a, err accounting_fault)
    else next_balanced (balance select p a)

unfoldable pub commit_state : Pool → ℕ → TcpLease → LeaseState → Pool × Bool
commit_state p l lease LeaseState.pending =
    let conn = p.conns lease.conn in
    (
      record p {
        conns = update p.conns lease.conn (record conn {
          active_conns = conn.active_conns + 1;
          tcp_active = conn.tcp_active + 1;
          total_conns = (conn.total_conns + 1) % 2 ^ 64;
          tcp_pending = conn.tcp_pending - 1;
        });
        leases = set p.leases l (record lease { state = active });
      },
      true,
    )
commit_state p l lease _ = (p, false)

-- `TCPLease.Commit`. A number with no lease stands for nil.
unfoldable pub commit_lease : Pool → ℕ → Pool × Bool
unfolding commit_state
commit_lease p l = elim (get_elem? p.leases l) [
  | none ↦ (p, false)
  | some lease ↦ commit_state p l lease lease.state
]

-- The lease is released; a retirement that waits for it is signalled and finished.
unfoldable pub settle_release : Pool → ℕ → TcpLease → Conn → Pool
settle_release p l lease conn =
    let q = record p {
      conns = update p.conns lease.conn conn;
      leases = set p.leases l (record lease { state = released });
    } in
    finalize_retirement (signal_tcp_drained q (lookup lease.conn q.retiring)) lease.conn

unfoldable pub release_state : Pool → ℕ → TcpLease → LeaseState → Pool × Bool
release_state p l lease LeaseState.pending =
    let conn = p.conns lease.conn in
    (settle_release p l lease (record conn { tcp_pending = conn.tcp_pending - 1 }), true)
release_state p l lease active =
    let conn = p.conns lease.conn in
    (
      settle_release p l lease
          (record conn { active_conns = conn.active_conns - 1; tcp_active = conn.tcp_active - 1 }),
      true,
    )
release_state p l lease released = (p, false)

-- `TCPLease.Release`.
unfoldable pub release_lease : Pool → ℕ → Pool × Bool
release_lease p l = elim (get_elem? p.leases l) [
  | none ↦ (p, false)
  | some lease ↦ release_state p l lease lease.state
]

-- `TCPLease.RecordStream`, the lease's exact generation being the only writer that matters.
unfoldable pub record_stream : Pool → ℕ → ℕ → Pool
record_stream p l stream_id = elim (get_elem? p.leases l) [
  | none ↦ p
  | some lease ↦
      let conn = p.conns lease.conn in
      record p {
        conns = update p.conns lease.conn (record conn {
          tcp_stream_id =
              if ltb conn.tcp_stream_id stream_id then stream_id else conn.tcp_stream_id;
          tcp_opened = true;
        });
      }
]
