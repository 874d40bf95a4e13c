-- ===== src/Pool/Registration.antt =====
-- Pending registrations, reservations and their publication: `BeginPending`, `Reserve`, `Commit`,
-- `Abort` and `Add` of server/pool/pool.go.
use qmux.Base.{
  ℕ, ◌+◌, ◌-◌, Bool, true, false, not, ◌&&◌, ◌||◌, Option, none, some, [], ◌∷◌, ◌++◌, leb, ◌==◌,
  if◌then◌else◌, length, get_elem?, set, str_eq,
}
use qmux.Base.Assoc.{nat_eq, str_Eq, lookup, insert, erase}
use qmux.Pool.State.{
  Error, Result, ok, err, Conn, Reservation, ReservationState, reserved, committed, aborted, Pool,
  observe, drop_one, update, is_some, points_to, is_pending, is_reserved, client_generation_count,
  accounting_fault, pending_registration_capacity, client_generation_capacity, invalid_reservation,
  nil_connection, empty_client_id, no_longer_pending, already_exists, already_pending,
  already_added, id_changed,
}

abbrev pub new_reservation : Reservation
new_reservation = record { conn = none; id = []; state = ReservationState.pending }

-- `beginPending`.
unfoldable pub begin_pending : Pool → Pool × Result ℕ
begin_pending p =
    let n = p.server_pending + 1 in
    if not (p.accounting_faults == 0)
    then (p, err accounting_fault)
    else if leb p.limits.max_pending_registrations p.server_pending
    then (
      record p { pending_registrations = drop_one p.pending_registrations },
      err pending_registration_capacity,
    )
    else (
      record p {
        server_pending = n;
        pending_registrations = observe p.pending_registrations n;
        reservation_objects = p.reservation_objects ++ (new_reservation ∷ []);
      },
      ok (length p.reservation_objects),
    )

-- The checks of `Reservation.Reserve` under the lock, in their order.
unfoldable pub reserve_error : Pool → Reservation → ℕ → Option Error
reserve_error p r c =
    let conn = p.conns c in
    if not (is_pending r.state)
    then some no_longer_pending
    else if not (p.accounting_faults == 0)
    then some accounting_fault
    else if is_some (lookup conn.id p.clients)
    then some already_exists
    else if is_some (lookup conn.id p.reservations)
    then some already_pending
    else if conn.added
    then some already_added
    else if leb p.limits.max_client_generations (client_generation_count p)
    then some client_generation_capacity
    else none

abbrev is_capacity : Error → Bool
is_capacity client_generation_capacity = true
is_capacity _ = false

unfoldable pub bind_reservation : Pool → ℕ → ℕ → Pool
bind_reservation p r c =
    let id = (p.conns c).id in
    let bound = record p {
      reservation_objects =
          set p.reservation_objects r (record { conn = some c; id = id; state = reserved });
      reservations = insert id r p.reservations;
    } in
    record bound {
      client_generations = observe p.client_generations (client_generation_count bound);
    }

unfoldable pub reserve_object : Pool → ℕ → Reservation → ℕ → Pool × Result (Unit {0})
unfolding reserve_error bind_reservation
reserve_object p r object c = elim (reserve_error p object c) [
  | none ↦ (bind_reservation p r c, ok tt)
  | some e ↦ (
    if is_capacity e then record p { client_generations = drop_one p.client_generations } else p,
    err e,
  )
]

-- `Reservation.Reserve`. A number with no object stands for a nil reservation.
unfoldable pub reserve : Pool → ℕ → Option ℕ → Pool × Result (Unit {0})
unfolding reserve_object
reserve p r conn = elim (get_elem? p.reservation_objects r) [
  | none ↦ (p, err invalid_reservation)
  | some object ↦ elim conn [
    | none ↦ (p, err nil_connection)
    | some c ↦
        if str_eq (p.conns c).id [] then (p, err empty_client_id) else reserve_object p r object c
  ]
]

-- `reservation.conn == nil || reservation.conn.ID != reservation.id`.
abbrev has_changed : Pool → Reservation → Bool
has_changed p object = elim object.conn [
  | none ↦ true
  | some c ↦ not (str_eq (p.conns c).id object.id)
]

abbrev was_added : Pool → Option ℕ → Bool
was_added p none = false
was_added p (some c) = (p.conns c).added

-- The checks of `Commit`, in their order.
unfoldable pub commit_error : Pool → ℕ → Reservation → Option Error
commit_error p r object =
    if not (is_reserved object.state) || not (points_to (lookup object.id p.reservations) r)
    then some no_longer_pending
    else if not (p.accounting_faults == 0)
    then some accounting_fault
    else if has_changed p object
    then some id_changed
    else if is_some (lookup object.id p.clients)
    then some already_exists
    else if was_added p object.conn
    then some already_added
    else none

unfoldable pub publish : Pool → ℕ → Reservation → ℕ → Pool
publish p r object c = record p {
  conns = update p.conns c (record conn { added = true; healthy = true });
  clients = insert object.id c p.clients;
  reservations = erase object.id p.reservations;
  server_pending = p.server_pending - 1;
  reservation_objects = set p.reservation_objects r (record object { state = committed });
  cached_clients = none;
}
  where
    conn : Conn
    conn = p.conns c

unfoldable pub commit_object : Pool → ℕ → Reservation → Pool × Result (Unit {0})
unfolding commit_error publish
commit_object p r object = elim (commit_error p r object) [
  | some e ↦ (p, err e)
  | none ↦ elim object.conn [ none ↦ (p, err id_changed) | some c ↦ (publish p r object c, ok tt) ]
]

-- `Commit`.
unfoldable pub commit : Pool → ℕ → Pool × Result (Unit {0})
unfolding commit_object
commit p r = elim (get_elem? p.reservation_objects r) [
  | none ↦ (p, err invalid_reservation)
  | some object ↦ commit_object p r object
]

abbrev aborted_from : Pool → ℕ → Reservation → Pool
aborted_from p r object = record p {
  server_pending = p.server_pending - 1;
  reservation_objects = set p.reservation_objects r (record object { state = aborted });
}

unfoldable pub abort_object : Pool → ℕ → Reservation → Pool × Bool
abort_object p r object =
    if is_pending object.state
    then (aborted_from p r object, true)
    else if is_reserved object.state && points_to (lookup object.id p.reservations) r
    then (record (aborted_from p r object) { reservations = erase object.id p.reservations }, true)
    else (p, false)

-- `Abort`.
unfoldable pub abort : Pool → ℕ → Pool × Bool
unfolding abort_object
abort p r = elim (get_elem? p.reservation_objects r) [
  | none ↦ (p, false)
  | some object ↦ abort_object p r object
]

-- A failed step of `ConnectionPool.Reserve` or `Add` gives the reservation up.
abbrev or_abort {ℓ} : {A : Type ℓ} → ℕ → A → Pool × Result (Unit {0}) → Pool × Result A
or_abort r value (p, ok _) = (p, ok value)
or_abort r value (p, err e) = ((abort p r).0, err e)

abbrev reserve_begun : Option ℕ → Pool × Result ℕ → Pool × Result ℕ
reserve_begun conn (p, err e) = (p, err e)
reserve_begun conn (p, ok r) = or_abort r r (reserve p r conn)

-- `ConnectionPool.Reserve`.
unfoldable pub pool_reserve : Pool → Option ℕ → Pool × Result ℕ
pool_reserve p conn = reserve_begun conn (begin_pending p)

abbrev commit_reserved : Pool × Result ℕ → Pool × Result (Unit {0})
commit_reserved (p, err e) = (p, err e)
commit_reserved (p, ok r) = or_abort r tt (commit p r)

-- `Add`.
unfoldable pub add : Pool → Option ℕ → Pool × Result (Unit {0})
add p conn = commit_reserved (pool_reserve p conn)
