-- ===== src/Pool/Balancer.antt =====
-- The load balancers of server/pool/balancer.go. A balancer sees the pool, whose connections it
-- reads and whose `balancer_counter` is the round-robin counter, and gives the counter back.
use qmux.Base.{
  ℕ, suc, ◌+◌, ◌-◌, ◌%◌, ◌^◌, true, false, Option, none, some, List, [], ◌∷◌, ltb, ◌==◌,
  if◌then◌else◌, length, get_elem?,
}
use qmux.Pool.State.{Result, ok, err, Conn, Pool, no_clients_available, no_healthy_clients}

abbrev pub Select : Type 0
Select = Pool → List ℕ → Result ℕ × ℕ

unfoldable pub count_healthy : (ℕ → Conn) → List ℕ → ℕ
count_healthy conns [] = 0
count_healthy conns (c ∷ cs) =
    let rest = count_healthy conns cs in if (conns c).healthy then suc rest else rest

abbrev pub or_else : Option ℕ → ℕ → Option ℕ
or_else none c = some c
or_else (some d) c = some d

-- The scan for the `idx`-th healthy client, with the first healthy one as fallback.
unfoldable pub scan : (ℕ → Conn) → List ℕ → ℕ → Option ℕ → Option ℕ
scan conns [] idx fallback = fallback
scan conns (c ∷ cs) idx fallback = elim (conns c).healthy [
  | false ↦ scan conns cs idx fallback
  | true ↦ elim (idx == 0) [ true ↦ some c | false ↦ scan conns cs (idx - 1) (or_else fallback c) ]
]

abbrev pub found_or_none : Option ℕ → Result ℕ
found_or_none none = err no_healthy_clients
found_or_none (some c) = ok c

-- `RoundRobinBalancer.Select`.
unfoldable pub round_robin : Select
unfolding count_healthy scan
round_robin p clients =
    let healthy = count_healthy p.conns clients in
    let counter = (p.balancer_counter + 1) % 2 ^ 64 in
    let idx = counter % healthy in
    if length clients == 0
    then (err no_clients_available, p.balancer_counter)
    else if healthy == 0
    then (err no_healthy_clients, p.balancer_counter)
    else if healthy == length clients
    then (found_or_none (get_elem? clients idx), counter)
    else (found_or_none (scan p.conns clients idx none), counter)

abbrev pub load_of : Conn → ℕ
load_of conn = conn.tcp_pending + conn.active_conns

abbrev pub better : (ℕ → Conn) → Option ℕ → ℕ → Option ℕ
better conns none c = some c
better conns (some d) c = if ltb (load_of (conns c)) (load_of (conns d)) then some c else some d

-- The loop of `LeastConnectionsBalancer.Select`; `minConns` is the load of `selected`.
unfoldable pub least : (ℕ → Conn) → List ℕ → Option ℕ → Option ℕ
least conns [] selected = selected
least conns (c ∷ cs) selected =
    least conns cs (if (conns c).healthy then better conns selected c else selected)

-- `LeastConnectionsBalancer.Select`.
unfoldable pub least_connections : Select
unfolding least
least_connections p clients =
    if length clients == 0
    then (err no_clients_available, p.balancer_counter)
    else (found_or_none (least p.conns clients none), p.balancer_counter)
