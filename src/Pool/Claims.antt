-- ===== src/Pool/Claims.antt =====
-- The steps of a registration keep the registry consistent.
use qmux.Base.{
  ℕ, zero, suc, ◌≡◌, refl, ap, ◌+◌, ◌-◌, ◌<◌, ◌⊎◌, inl, inr, true, false, none, some, List, [], ◌∷◌,
  ◌++◌, arith, length, get_elem?, get_elem?-set, get_elem?-append, set, count_by-append,
  count_by-set, Bool-cases, str_eq, str_eq_sound, str_eq_refl,
}
use qmux.Base.Assoc.{
  nat_eq, str_Eq, lookup, insert, erase, lookup-insert, lookup-erase, insert-Uniq, erase-Uniq,
}
use qmux.Pool.State.{
  Reservation, ReservationState, reserved, committed, aborted, Pool, is_pending, is_reserved,
}
use qmux.Pool.Registration.{new_reservation, bind_reservation, publish}
use qmux.Pool.Retirement.{retire_current}
use qmux.Pool.Registry.{is_open, IsRegistered}

within : (r : ℕ) (o : Reservation) (os : List Reservation) → get_elem? os r ≡ some o → r < length os
within r o [] e = cc
within zero o (x ∷ os) e = omega arith
within (suc r) o (x ∷ os) e = omega (arith, within r o os e)

-- A name is claimed for a pending reservation.
pub bind-IsRegistered :
    (p : Pool) (r c : ℕ) (o : Reservation)
    → get_elem? p.reservation_objects r ≡ some o
    → is_pending o.state ≡ true
    → lookup (p.conns c).id p.clients ≡ none
    → lookup (p.conns c).id p.reservations ≡ none
    → IsRegistered p
    → IsRegistered (bind_reservation p r c)
unfolding bind_reservation
bind-IsRegistered p r c o at st free unclaimed v = record {
  client_ok = v.client_ok;
  claim_ok = λ id r' e. claim id r' e (Bool-cases (str_eq (p.conns c).id id));
  object_claimed = λ r' o' at' st'. ground (
    arith,
    get_elem?-set p.reservation_objects r r' o bound at,
    v.object_claimed r' o',
    lookup-insert (p.conns c).id o'.id r p.reservations,
    str_eq_sound (p.conns c).id o'.id,
    str_eq_refl (p.conns c).id,
  );
  disjoint = λ id d e. ground (
    arith,
    v.disjoint id d e,
    lookup-insert (p.conns c).id id r p.reservations,
    str_eq_sound (p.conns c).id id,
  );
  open_exact = ground (arith, v, count_by-set is_open p.reservation_objects r o bound at);
  pending_bounded = v.pending_bounded;
  clients_uniq = v.clients_uniq;
  reservations_uniq = insert-Uniq (p.conns c).id r p.reservations v.reservations_uniq;
}
  where
    bound : Reservation
    bound = record { conn = some c; id = (p.conns c).id; state = reserved }

    claim :
        (id : List ℕ) (r' : ℕ)
        → lookup id (insert (p.conns c).id r p.reservations) ≡ some r'
        → (str_eq (p.conns c).id id ≡ true) ⊎ (str_eq (p.conns c).id id ≡ false)
        → (o' : Reservation) × (get_elem? (set p.reservation_objects r bound) r' ≡ some o')
          × (is_reserved o'.state ≡ true)
          × (o'.id ≡ id)
    claim id r' e (inl same) = (
      bound,
      ground (
        arith,
        get_elem?-set p.reservation_objects r r' o bound at,
        lookup-insert (p.conns c).id id r p.reservations,
      ),
      refl,
      str_eq_sound (p.conns c).id id same,
    )
    claim id r' e (inr other) =
        let old : lookup id p.reservations ≡ some r' =
          ground (arith, lookup-insert (p.conns c).id id r p.reservations) in
        let (o', at', st', named) = v.claim_ok id r' old in
        (o', ground (arith, get_elem?-set p.reservation_objects r r' o bound at), st', named)

-- A connection is accepted.
pub begin-IsRegistered :
    (p : Pool)
    → p.server_pending < p.limits.max_pending_registrations
    → IsRegistered p
    → IsRegistered (record p {
      server_pending = p.server_pending + 1;
      reservation_objects = p.reservation_objects ++ (new_reservation ∷ []);
    })
begin-IsRegistered p room v = record {
  client_ok = v.client_ok;
  claim_ok = λ id r e.
      let (o, at, st, named) = v.claim_ok id r e in
      (
        o,
        ground (
          arith,
          get_elem?-append p.reservation_objects new_reservation r,
          within r o p.reservation_objects at,
        ),
        st,
        named,
      );
  object_claimed = λ r o at st.
      ground
        (arith, get_elem?-append p.reservation_objects new_reservation r, v.object_claimed r o);
  disjoint = v.disjoint;
  open_exact = ground (arith, v, count_by-append is_open p.reservation_objects new_reservation);
  pending_bounded = omega arith;
  clients_uniq = v.clients_uniq;
  reservations_uniq = v.reservations_uniq;
}

module _ (p : Pool) (r : ℕ) (o : Reservation) (at : get_elem? p.reservation_objects r ≡ some o)
    (v : IsRegistered p) where
  -- The claimed name is given up, and the reservation with it, in the state `st`.
  abbrev unclaimed : ReservationState → Pool
  unclaimed st = record p {
    server_pending = p.server_pending - 1;
    reservations = erase o.id p.reservations;
    reservation_objects = set p.reservation_objects r (record o { state = st });
  }

  unclaim-claim_ok :
      (st : ReservationState) (id : List ℕ) (r' : ℕ)
      → lookup o.id p.reservations ≡ some r
      → lookup id (erase o.id p.reservations) ≡ some r'
      → (o' : Reservation) × (get_elem? (set p.reservation_objects r (record o { state = st })) r'
          ≡ some o')
        × (is_reserved o'.state ≡ true)
        × (o'.id ≡ id)
  unclaim-claim_ok st id r' held e =
      let old : lookup id p.reservations ≡ some r' =
        ground (arith, lookup-erase o.id id p.reservations v.reservations_uniq) in
      let (o', at', st', named) = v.claim_ok id r' old in
      (
        o',
        ground (
          arith,
          get_elem?-set p.reservation_objects r r' o (record o { state = st }) at,
          lookup-erase o.id id p.reservations v.reservations_uniq,
          str_eq_refl id,
          ap (λ (s : List ℕ). str_eq s id) named,
        ),
        st',
        named,
      )

  unclaim-object_claimed :
      (st : ReservationState) (r' : ℕ) (o' : Reservation)
      → is_reserved st ≡ false
      → lookup o.id p.reservations ≡ some r
      → get_elem? (set p.reservation_objects r (record o { state = st })) r' ≡ some o'
      → is_reserved o'.state ≡ true
      → lookup o'.id (erase o.id p.reservations) ≡ some r'
  unclaim-object_claimed st r' o' shut held at' st' = ground (
    arith,
    get_elem?-set p.reservation_objects r r' o (record o { state = st }) at,
    v.object_claimed r' o',
    lookup-erase o.id o'.id p.reservations v.reservations_uniq,
    str_eq_sound o.id o'.id,
    ap (λ (s : List ℕ). lookup s p.reservations) {x = o.id} {y = o'.id},
  )

  -- A claim is aborted.
  pub abort_reserved-IsRegistered :
      is_reserved o.state ≡ true
      → lookup o.id p.reservations ≡ some r
      → IsRegistered (unclaimed aborted)
  abort_reserved-IsRegistered st held = record {
    client_ok = v.client_ok;
    claim_ok = λ id r' e. unclaim-claim_ok aborted id r' held e;
    object_claimed = λ r' o' at' st'. unclaim-object_claimed aborted r' o' refl held at' st';
    disjoint = λ id c e.
        ground (arith, v.disjoint id c e, lookup-erase o.id id p.reservations v.reservations_uniq);
    open_exact = ground (
      arith,
      v.open_exact,
      count_by-set is_open p.reservation_objects r o (record o { state = aborted }) at,
    );
    pending_bounded = omega (arith, v.pending_bounded);
    clients_uniq = v.clients_uniq;
    reservations_uniq = erase-Uniq o.id p.reservations v.reservations_uniq;
  }

  -- A pending registration is aborted before it claimed a name.
  pub abort_pending-IsRegistered :
      is_pending o.state ≡ true
      → IsRegistered (record p {
        server_pending = p.server_pending - 1;
        reservation_objects = set p.reservation_objects r (record o { state = aborted });
      })
  abort_pending-IsRegistered st = record {
    client_ok = v.client_ok;
    claim_ok = λ id r' e.
        let (o', at', st', named) = v.claim_ok id r' e in
        (
          o',
          ground
              (arith, get_elem?-set p.reservation_objects r r' o (record o { state = aborted }) at),
          st',
          named,
        );
    object_claimed = λ r' o' at' st'. ground (
      arith,
      get_elem?-set p.reservation_objects r r' o (record o { state = aborted }) at,
      v.object_claimed r' o',
    );
    disjoint = v.disjoint;
    open_exact = ground (
      arith,
      v.open_exact,
      count_by-set is_open p.reservation_objects r o (record o { state = aborted }) at,
    );
    pending_bounded = omega (arith, v.pending_bounded);
    clients_uniq = v.clients_uniq;
    reservations_uniq = v.reservations_uniq;
  }

  -- A claim is published.
  pub publish-IsRegistered :
      (c : ℕ)
      → is_reserved o.state ≡ true
      → lookup o.id p.reservations ≡ some r
      → (p.conns c).id ≡ o.id
      → IsRegistered (publish p r o c)
  unfolding publish
  publish-IsRegistered c st held same = record {
    client_ok = λ id d e.
        ground (arith, v.client_ok id d, lookup-insert o.id id c p.clients, str_eq_sound o.id id);
    claim_ok = λ id r' e. unclaim-claim_ok committed id r' held e;
    object_claimed = λ r' o' at' st'. unclaim-object_claimed committed r' o' refl held at' st';
    disjoint = λ id d e. ground (
      arith,
      v.disjoint id d,
      lookup-erase o.id id p.reservations v.reservations_uniq,
      lookup-insert o.id id c p.clients,
    );
    open_exact = ground (
      arith,
      v.open_exact,
      count_by-set is_open p.reservation_objects r o (record o { state = committed }) at,
    );
    pending_bounded = omega (arith, v.pending_bounded);
    clients_uniq = insert-Uniq o.id c p.clients v.clients_uniq;
    reservations_uniq = erase-Uniq o.id p.reservations v.reservations_uniq;
  }

-- A generation leaves the published clients.
pub retire-IsRegistered : (p : Pool) (c : ℕ) → IsRegistered p → IsRegistered (retire_current p c)
unfolding retire_current
retire-IsRegistered p c v = record {
  client_ok = λ id d e.
      ground (arith, v.client_ok id d, lookup-erase (p.conns c).id id p.clients v.clients_uniq);
  claim_ok = v.claim_ok;
  object_claimed = v.object_claimed;
  disjoint = λ id d e.
      ground (arith, v.disjoint id d, lookup-erase (p.conns c).id id p.clients v.clients_uniq);
  open_exact = v.open_exact;
  pending_bounded = v.pending_bounded;
  clients_uniq = erase-Uniq (p.conns c).id p.clients v.clients_uniq;
  reservations_uniq = v.reservations_uniq;
}
