-- ===== src/MeshRegistry/Joins.antt =====
-- A generation that joins the registry of mesh/registry.go is counted, below a limit.
use qmux.Base.{
  ℕ, ◌≡◌, refl, ap, ◌∙◌, ◌+◌, ◌≤◌, ◌<◌, Bool, true, false, Option, none, some, [], arith,
}
use qmux.Base.Assoc.{nat_eq, str_Eq, lookup, sum_by, sum_by-insert_le}
use qmux.MeshRegistry.State.{
  direction_inbound, Name, Registry, Role, role_unknown, role_client, role_peer, role_eq, one_if,
  Generation, phase_prepared, count_role, count_pending, has_role, is_pending, update_high,
}
use qmux.MeshRegistry.Groups.{put}
use qmux.MeshRegistry.Steps.{
  new_generation, update_pending_high, occupy, change_at, transfer_pending, as_peer, as_client,
}
use qmux.MeshRegistry.Shrinks.{
  counted_of, limits_of, Shrinks, counted-Shrinks, with_entries-counted,
}

pub record IsBounded (r : Registry) : Type 0 where
  pub pending : (count_pending r ≤ r.pending_high) × (r.pending_high ≤ r.max_pending)
  pub clients : (count_role role_client r ≤ r.client_high) × (r.client_high ≤ r.max_clients)
  pub peers : (count_role role_peer r ≤ r.peer_high) × (r.peer_high ≤ r.max_peers)

pub Shrinks-IsBounded : {r q : Registry} → Shrinks r q → IsBounded r → IsBounded q
Shrinks-IsBounded {r} {q} s v = record {
  pending = omega (arith, v.pending, s.pending, ap (λ l. l.0.0) s.limits, ap (λ l. l.0.1) s.limits);
  clients =
      omega (arith, v.clients, s.clients, ap (λ l. l.1.0.0) s.limits, ap (λ l. l.1.0.1) s.limits);
  peers = omega (arith, v.peers, s.peers, ap (λ l. l.1.1.0) s.limits, ap (λ l. l.1.1.1) s.limits);
}

pub counted-IsBounded : {r q : Registry} → counted_of q ≡ counted_of r → IsBounded r → IsBounded q
counted-IsBounded e v = Shrinks-IsBounded (counted-Shrinks e) v

-- One generation joins as `gen`.
pub record Adds (gen : Generation) (r q : Registry) : Type 0 where
  pub pending : count_pending q ≤ is_pending gen + count_pending r
  pub clients : count_role role_client q ≤ has_role role_client gen + count_role role_client r
  pub peers : count_role role_peer q ≤ has_role role_peer gen + count_role role_peer r
  pub limits : limits_of q ≡ limits_of r

pub put-Adds : (g : ℕ) (gen : Generation) (r : Registry) → Adds gen r (put g gen r)
put-Adds g gen r = record {
  pending = sum_by-insert_le is_pending g gen r.all;
  clients = sum_by-insert_le (has_role role_client) g gen r.all;
  peers = sum_by-insert_le (has_role role_peer) g gen r.all;
  limits = refl;
}

pub counted-Adds :
    {gen : Generation} {r q s : Registry}
    → counted_of s ≡ counted_of q
    → Adds gen r q
    → Adds gen r s
counted-Adds e v = record {
  pending = omega (arith, v.pending, ap (λ c. sum_by is_pending c.0) e);
  clients = omega (arith, v.clients, ap (λ c. sum_by (has_role role_client) c.0) e);
  peers = omega (arith, v.peers, ap (λ c. sum_by (has_role role_peer) c.0) e);
  limits = ap (λ c. c.1) e ∙ v.limits;
}

pub one_if_le : (b : Bool) → one_if b ≤ 1
one_if_le true = omega arith
one_if_le false = omega arith

-- What a generation counts for, by its role.
pub role_counts :
    (gen : Generation) (role : Role)
    → gen.role ≡ role
    → (is_pending gen ≤ one_if (role_eq role role_unknown))
      × (has_role role_client gen ≡ one_if (role_eq role role_client))
      × (has_role role_peer gen ≡ one_if (role_eq role role_peer))
role_counts gen role e = ground arith

pub limits_eqs :
    (r q : Registry)
    → limits_of q ≡ limits_of r
    → (q.max_pending ≡ r.max_pending)
      × (q.pending_high ≡ r.pending_high)
      × (q.max_clients ≡ r.max_clients)
      × (q.client_high ≡ r.client_high)
      × (q.max_peers ≡ r.max_peers)
      × (q.peer_high ≡ r.peer_high)
limits_eqs r q e = (
  ap (λ l. l.0.0) e,
  ap (λ l. l.0.1) e,
  ap (λ l. l.1.0.0) e,
  ap (λ l. l.1.0.1) e,
  ap (λ l. l.1.1.0) e,
  ap (λ l. l.1.1.1) e,
)

pub update_pending-IsBounded :
    (gen : Generation) (r q : Registry)
    → gen.role ≡ role_unknown
    → count_pending r < r.max_pending
    → Adds gen r q
    → IsBounded r
    → IsBounded (update_pending_high q)
update_pending-IsBounded gen r q e h a v = record {
  pending =
      omega
        (arith, v.pending, a.pending, h, role_counts gen role_unknown e, limits_eqs r q a.limits);
  clients =
      omega (arith, v.clients, a.clients, role_counts gen role_unknown e, limits_eqs r q a.limits);
  peers = omega (arith, v.peers, a.peers, role_counts gen role_unknown e, limits_eqs r q a.limits);
}

pub update_client-IsBounded :
    (gen : Generation) (r q : Registry)
    → gen.role ≡ role_client
    → count_role role_client r < r.max_clients
    → Adds gen r q
    → IsBounded r
    → IsBounded (update_high role_client q)
update_client-IsBounded gen r q e h a v = record {
  pending =
      omega (arith, v.pending, a.pending, role_counts gen role_client e, limits_eqs r q a.limits);
  clients =
      omega
        (arith, v.clients, a.clients, h, role_counts gen role_client e, limits_eqs r q a.limits);
  peers = omega (arith, v.peers, a.peers, role_counts gen role_client e, limits_eqs r q a.limits);
}

pub update_peer-IsBounded :
    (gen : Generation) (r q : Registry)
    → gen.role ≡ role_peer
    → count_role role_peer r < r.max_peers
    → Adds gen r q
    → IsBounded r
    → IsBounded (update_high role_peer q)
update_peer-IsBounded gen r q e h a v = record {
  pending =
      omega (arith, v.pending, a.pending, role_counts gen role_peer e, limits_eqs r q a.limits);
  clients =
      omega (arith, v.clients, a.clients, role_counts gen role_peer e, limits_eqs r q a.limits);
  peers = omega (arith, v.peers, a.peers, h, role_counts gen role_peer e, limits_eqs r q a.limits);
}

pub occupy-counted :
    (role : Role) (key group : Name) (g : ℕ) (r : Registry)
    → counted_of (occupy role key group g r) ≡ counted_of r
occupy-counted role key group g r = with_entries-counted role _ r

-- A counted place that nobody takes.
pub Adds-none : (gen : Generation) (r : Registry) → Adds gen r r
Adds-none gen r = record {
  pending = omega arith;
  clients = omega arith;
  peers = omega arith;
  limits = refl;
}

pub prepared_client-IsBounded :
    (instance_id group : Name) (g : ℕ) (o : Option Generation) (r : Registry)
    → count_role role_client r < r.max_clients
    → IsBounded r
    → IsBounded (
        update_high role_client
          (occupy role_client instance_id group g (change_at (as_client instance_id group) g o r)))
prepared_client-IsBounded instance_id group g none r h v =
    let gen : Generation = new_generation role_client direction_inbound phase_prepared [] in
    update_client-IsBounded gen r (occupy role_client instance_id group g r) refl h
      (counted-Adds {q = r} (occupy-counted role_client instance_id group g r) (Adds-none gen r)) v
prepared_client-IsBounded instance_id group g (some old) r h v =
    let gen : Generation = as_client instance_id group old in
    update_client-IsBounded gen r (occupy role_client instance_id group g (put g gen r)) refl h
      (counted-Adds {q = put g gen r} (occupy-counted role_client instance_id group g (put g gen r))
        (put-Adds g gen r))
      v

pub transferred-IsBounded :
    (peer : Name) (g : ℕ) (o : Option Generation) (r : Registry)
    → count_role role_peer r < r.max_peers
    → IsBounded r
    → IsBounded
        (update_high role_peer (occupy role_peer peer [] g (change_at (as_peer peer) g o r)))
transferred-IsBounded peer g none r h v =
    let gen : Generation = new_generation role_peer direction_inbound phase_prepared [] in
    update_peer-IsBounded gen r (occupy role_peer peer [] g r) refl h
      (counted-Adds {q = r} (occupy-counted role_peer peer [] g r) (Adds-none gen r)) v
transferred-IsBounded peer g (some old) r h v =
    let gen : Generation = as_peer peer old in
    update_peer-IsBounded gen r (occupy role_peer peer [] g (put g gen r)) refl h
      (counted-Adds {q = put g gen r} (occupy-counted role_peer peer [] g (put g gen r))
        (put-Adds g gen r))
      v

pub transfer_pending-IsBounded :
    (g : ℕ) (peer : Name) (r : Registry)
    → count_role role_peer r < r.max_peers
    → IsBounded r
    → IsBounded (transfer_pending g peer r)
unfolding transfer_pending
transfer_pending-IsBounded g peer r h v =
    counted-IsBounded refl (transferred-IsBounded peer g (lookup g r.all) r h v)
