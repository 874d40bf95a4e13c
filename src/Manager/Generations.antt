-- ===== src/Manager/Generations.antt =====
-- The accounting of generations in client/connection_manager.go.
use qmux.Base.{
  ℕ, suc, ◌+◌, ◌-◌, ◌%◌, ◌^◌, max, Bool, true, false, not, Option, none, some, List, [], ◌∷◌, ◌==◌,
  str_eq, get_elem?, set, if◌then◌else◌,
}
use qmux.Manager.State.{
  Name, Phase, generation_none, handshaking, pending, registered, retiring, generation_done,
  phase_eq, Conn, EndpointPhases, Manager,
}

abbrev pub total : EndpointPhases → ℕ
total e = e.handshaking_count + e.pending_count + e.registered_count + e.retiring_count

abbrev pub note_total : EndpointPhases → EndpointPhases
note_total e = record e { generation_high_water = max e.generation_high_water (total e) }

abbrev pub fault : EndpointPhases → EndpointPhases
fault e = record e { accounting_faults = (e.accounting_faults + 1) % 2 ^ 64 }

-- The counter of a phase, which only four of them have.
abbrev pub tally : EndpointPhases → Phase → ℕ
tally e handshaking = e.handshaking_count
tally e pending = e.pending_count
tally e registered = e.registered_count
tally e retiring = e.retiring_count
tally e generation_none = 0
tally e generation_done = 0

abbrev pub with_tally : EndpointPhases → Phase → ℕ → EndpointPhases
with_tally e handshaking n = record e { handshaking_count = n }
with_tally e pending n = record e { pending_count = n }
with_tally e registered n = record e { registered_count = n }
with_tally e retiring n = record e { retiring_count = n }
with_tally e generation_none n = e
with_tally e generation_done n = e

abbrev pub is_counted : Phase → Bool
is_counted generation_none = false
is_counted generation_done = false
is_counted _ = true

-- `addGenerationLocked` at its endpoint, by one up and by one down.
unfoldable pub count_up : Phase → EndpointPhases → EndpointPhases
count_up p e = if is_counted p then note_total (with_tally e p (tally e p + 1)) else e

unfoldable pub count_down : Phase → EndpointPhases → EndpointPhases
count_down p e =
    if not (is_counted p)
    then e
    else if tally e p == 0
    then fault e
    else note_total (with_tally e p (tally e p - 1))

-- A change of the endpoint with an index, where there is one.
abbrev pub change_found :
    (EndpointPhases → EndpointPhases) → ℕ → Option EndpointPhases → Manager → Manager
change_found f k none m = m
change_found f k (some e) m = record m { endpoints = set m.endpoints k (f e) }

abbrev pub at_endpoint : (EndpointPhases → EndpointPhases) → Option ℕ → Manager → Manager
at_endpoint f none m = m
at_endpoint f (some k) m = change_found f k (get_elem? m.endpoints k) m

abbrev pub with_conn : ℕ → Conn → Manager → Manager
with_conn i c m = record m { conns = set m.conns i c }

-- `addGenerationLocked` and `generationFaultLocked`.
unfoldable pub add_one : Conn → Phase → Manager → Manager
unfolding count_up
add_one c p m = at_endpoint (count_up p) c.capacity_endpoint m

unfoldable pub drop_one : Conn → Phase → Manager → Manager
unfolding count_down
drop_one c p m = at_endpoint (count_down p) c.capacity_endpoint m

unfoldable pub generation_fault : Conn → Manager → Manager
generation_fault c m = at_endpoint fault c.capacity_endpoint m

-- The first endpoint with an address, of `endpointLocked`.
unfoldable pub find_endpoint : Name → List EndpointPhases → Option ℕ
find_endpoint addr [] = none
find_endpoint addr (e ∷ es) =
    let rest = find_endpoint addr es in
    if str_eq e.endpoint addr then some 0 else elim rest [ none ↦ none | some k ↦ some (suc k) ]

-- A generation that leaves the phases that count for the last one.
abbrev pub finish_generation : ℕ → Conn → Manager → Manager
finish_generation i c m =
    with_conn i (record c { capacity_phase = generation_done }) (drop_one c c.capacity_phase m)

abbrev pub closed_in : Phase → ℕ → Conn → Manager → Manager
closed_in handshaking i c m = finish_generation i c m
closed_in pending i c m = finish_generation i c m
closed_in retiring i c m = finish_generation i c m
closed_in registered i c m = finish_generation i c (generation_fault c m)
closed_in generation_none i c m = m
closed_in generation_done i c m = m

-- `generationClosedLocked`.
unfoldable pub generation_closed : ℕ → Conn → Manager → Manager
unfolding drop_one generation_fault
generation_closed i c m = closed_in c.capacity_phase i c m

-- `setOnClosed`: a connection that is closed already is counted as such at once.
abbrev pub watch_close : ℕ → Conn → Manager → Manager
watch_close i c m =
    if c.closed then generation_closed i c m else with_conn i (record c { on_closed = true }) m

abbrev pub track_at : Option ℕ → Phase → ℕ → Conn → Manager → Manager
track_at none p i c m = m
track_at (some k) p i c m =
    let d : Conn = record c { capacity_endpoint = some k; capacity_phase = p } in
    watch_close i d (add_one d p (with_conn i d m))

-- `trackGenerationLocked`.
unfoldable pub track_generation : Phase → ℕ → Conn → Manager → Manager
unfolding add_one generation_fault generation_closed find_endpoint
track_generation p i c m =
    if not (phase_eq c.capacity_phase generation_none)
    then generation_fault c m
    else track_at (find_endpoint c.server_addr m.endpoints) p i c m

-- `moveGenerationLocked`.
unfoldable pub move_generation : Phase → Phase → ℕ → Conn → Manager → Manager
unfolding add_one drop_one generation_fault
move_generation p q i c m =
    if not (phase_eq c.capacity_phase p)
    then generation_fault c m
    else add_one c q (with_conn i (record c { capacity_phase = q }) (drop_one c p m))
