-- ===== src/Pool/Registry.antt =====
-- The names that registrations claim: reservations and published clients agree with the maps.
use qmux.Base.{
  ℕ, ◌≡◌, sym, ap, ◌∙◌, ◌≤◌, Bool, true, ◌||◌, none, some, List, arith, get_elem?, count_by,
}
use qmux.Base.Assoc.{nat_eq, str_Eq, lookup, Uniq}
use qmux.Pool.State.{Conn, Reservation, Pool, is_pending, is_reserved}

abbrev pub is_open : Reservation → Bool
is_open o = is_pending o.state || is_reserved o.state

abbrev pub identity_of : Conn → List ℕ × Bool
identity_of conn = (conn.id, conn.added)

pub record IsRegistered (p : Pool) : Type 0 where
  -- A published client is registered under its own name and was consumed.
  pub client_ok :
      (id : List ℕ) (c : ℕ)
      → lookup id p.clients ≡ some c
      → ((p.conns c).id ≡ id) × ((p.conns c).added ≡ true)
  -- Each claimed name belongs to a reservation that still holds it, and each such reservation has
  -- its claim.
  pub claim_ok :
      (id : List ℕ) (r : ℕ)
      → lookup id p.reservations ≡ some r
      → (o : Reservation) × (get_elem? p.reservation_objects r ≡ some o)
        × (is_reserved o.state ≡ true)
        × (o.id ≡ id)
  pub object_claimed :
      (r : ℕ) (o : Reservation)
      → get_elem? p.reservation_objects r ≡ some o
      → is_reserved o.state ≡ true
      → lookup o.id p.reservations ≡ some r
  -- No name is both claimed and published.
  pub disjoint :
      (id : List ℕ) (c : ℕ) → lookup id p.clients ≡ some c → lookup id p.reservations ≡ none
  pub open_exact : p.server_pending ≡ count_by is_open p.reservation_objects
  pub pending_bounded : p.server_pending ≤ p.limits.max_pending_registrations
  pub clients_uniq : Uniq p.clients
  pub reservations_uniq : Uniq p.reservations

pub record SameRegistry (p q : Pool) : Type 0 where
  pub clients_eq : q.clients ≡ p.clients
  pub reservations_eq : q.reservations ≡ p.reservations
  pub objects_eq : q.reservation_objects ≡ p.reservation_objects
  pub pending_eq : q.server_pending ≡ p.server_pending
  pub limits_eq : q.limits ≡ p.limits
  pub identity_eq : (c : ℕ) → identity_of (q.conns c) ≡ identity_of (p.conns c)

pub SameRegistry-IsRegistered : (p q : Pool) → SameRegistry p q → IsRegistered p → IsRegistered q
SameRegistry-IsRegistered p q s v = record {
  client_ok =
      λ id c e. ground (arith, v.client_ok id c, s.identity_eq c, ap (lookup id) s.clients_eq);
  claim_ok = λ id r e.
      let (o, at, st, named) = v.claim_ok id r (sym (ap (lookup id) s.reservations_eq) ∙ e) in
      (o, ap (λ (xs : List Reservation). get_elem? xs r) s.objects_eq ∙ at, st, named);
  object_claimed = λ r o e st.
      ap (lookup o.id) s.reservations_eq
      ∙ v.object_claimed r o (sym (ap (λ (xs : List Reservation). get_elem? xs r) s.objects_eq) ∙ e)
          st;
  disjoint = λ id c e.
      ap (lookup id) s.reservations_eq ∙ v.disjoint id c (sym (ap (lookup id) s.clients_eq) ∙ e);
  open_exact = s.pending_eq ∙ v.open_exact ∙ sym (ap (count_by is_open) s.objects_eq);
  pending_bounded = ground (arith, v, s);
  clients_uniq = rw (s.clients_eq) v.clients_uniq;
  reservations_uniq = rw (s.reservations_eq) v.reservations_uniq;
}
