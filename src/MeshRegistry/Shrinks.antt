-- ===== src/MeshRegistry/Shrinks.antt =====
-- The operations of mesh/registry.go that let no generation join: the counts of `countPhaseLocked`
-- and `countRoleLocked` never grow.
use qmux.Base.{ℕ, ◌≡◌, refl, ap, ◌∙◌, ◌≤◌, Option, none, some, List, arith}
use qmux.Base.Assoc.{nat_eq, str_Eq, sum_by}
use qmux.MeshRegistry.State.{
  Name, Entry, Registry, Role, role_unknown, role_client, role_peer, Generation, with_entries,
  count_role, count_pending, has_role, is_pending,
}
use qmux.MeshRegistry.Groups.{refresh_group, refresh_client}
use qmux.MeshRegistry.Removal.{
  change_found, drop_found, entry_of, unlink_entry, retiring_entry, unlink_active, add_retiring,
}

-- The limits and the high-water marks.
abbrev pub limits_of : Registry → (ℕ × ℕ) × ((ℕ × ℕ) × (ℕ × ℕ))
limits_of r =
    ((r.max_pending, r.pending_high), ((r.max_clients, r.client_high), (r.max_peers, r.peer_high)))

-- What counting reads.
abbrev pub counted_of : Registry → List (ℕ × Generation) × ((ℕ × ℕ) × ((ℕ × ℕ) × (ℕ × ℕ)))
counted_of r = (r.all, limits_of r)

-- No generation joins, and the limits and high-water marks stay.
pub record Shrinks (r q : Registry) : Type 0 where
  pub pending : count_pending q ≤ count_pending r
  pub clients : count_role role_client q ≤ count_role role_client r
  pub peers : count_role role_peer q ≤ count_role role_peer r
  pub limits : limits_of q ≡ limits_of r

pub Shrinks-trans : {r q s : Registry} → Shrinks r q → Shrinks q s → Shrinks r s
Shrinks-trans v w = record {
  pending = omega (arith, v.pending, w.pending);
  clients = omega (arith, v.clients, w.clients);
  peers = omega (arith, v.peers, w.peers);
  limits = w.limits ∙ v.limits;
}

pub counted-Shrinks : {r q : Registry} → counted_of q ≡ counted_of r → Shrinks r q
counted-Shrinks e = record {
  pending = omega (arith, ap (λ c. sum_by is_pending c.0) e);
  clients = omega (arith, ap (λ c. sum_by (has_role role_client) c.0) e);
  peers = omega (arith, ap (λ c. sum_by (has_role role_peer) c.0) e);
  limits = ap (λ c. c.1) e;
}

pub Shrinks-refl : (r : Registry) → Shrinks r r
Shrinks-refl r = counted-Shrinks refl

pub with_entries-counted :
    (role : Role) (m : List (Name × Entry)) (r : Registry)
    → counted_of (with_entries role m r) ≡ counted_of r
with_entries-counted role_unknown m r = refl
with_entries-counted role_client m r = refl
with_entries-counted role_peer m r = refl

change_found-counted :
    (f : Entry → Entry) (gen : Generation) (o : Option Entry) (r : Registry)
    → counted_of (change_found f gen o r) ≡ counted_of r
change_found-counted f gen none r = refl
change_found-counted f gen (some e) r = with_entries-counted gen.role _ r

pub drop_found-counted :
    (g : ℕ) (gen : Generation) (o : Option Entry) (r : Registry)
    → counted_of (drop_found g gen o r) ≡ counted_of r
drop_found-counted g gen none r = refl
drop_found-counted g gen (some e) r = with_entries-counted gen.role _ r

pub unlink_active-counted :
    (g : ℕ) (gen : Generation) (r : Registry) → counted_of (unlink_active g gen r) ≡ counted_of r
unfolding unlink_active
unlink_active-counted g gen r = change_found-counted (unlink_entry g) gen (entry_of gen r) r

pub add_retiring-counted :
    (g : ℕ) (gen : Generation) (r : Registry) → counted_of (add_retiring g gen r) ≡ counted_of r
unfolding add_retiring
add_retiring-counted g gen r = change_found-counted (retiring_entry g) gen (entry_of gen r) r

pub refresh_group-counted :
    (group : Name) (r : Registry) → counted_of (refresh_group group r) ≡ counted_of r
unfolding refresh_group
refresh_group-counted group r = ground arith

pub refresh_client-counted :
    (gen : Generation) (r : Registry) → counted_of (refresh_client gen r) ≡ counted_of r
refresh_client-counted gen r = ground (arith, refresh_group-counted gen.group_id r)
