-- ===== src/MeshRegistry/Moves.antt =====
-- Every operation of mesh/registry.go refines the abstract places of the identities.
use qmux.Base.{
  ℕ, ◌≡◌, refl, sym, ap, subst, Bool, false, not, Option, none, some, List, [], if_cases, arith,
}
use qmux.Base.Assoc.{nat_eq, str_Eq, lookup}
use qmux.Outbound.Endpoint.{is_empty}
use qmux.MeshRegistry.State.{
  Name, Entry, Registry, Role, role_unknown, role_client, role_peer, Generation, phase_pending,
  phase_prepared, direction_outbound, Arbitration, entries, is_exact, Error,
}
use qmux.MeshRegistry.Removal.{finish_arbitration, is_some}
use qmux.MeshRegistry.Steps.{
  Answer, new_generation, fresh_id, add_generation, entry_or, occupy, peer_entry_error,
  outbound_error, outbound_answer, client_entry_error, client_error, change_at, change, as_client,
  client_answer, as_peer, transfer_pending, contested, peer_error, peer_answer, contest,
  prepare_peer, complete_error, complete_answer, complete_of, begin_inbound,
}
use qmux.MeshRegistry.Slots.{
  Slot, vacant, holds_prepared, slot_of, slot_found, slot_in, Falls, stays, empties, Move, falls,
  prepares, IsOrderly, Table, Goes, insert-Table_after, with_entries-Goes_after, tables_of,
}
use qmux.MeshRegistry.Vacating.{
  Vacates, Vacates-refl, Vacates-trans, tables-Vacates, finish_arbitration-Vacates,
}

Table-map : {m n : List (Name × Entry)} → Table Falls m n → Table Move m n
Table-map t = record { uniq = t.uniq; slots = λ k. falls (t.slots k) }

pub Falls-Goes : {r q : Registry} → Goes Falls r q → Goes Move r q
Falls-Goes v = record { clients = Table-map v.clients; peers = Table-map v.peers }

-- What does not show in the entries does not matter.
pub retable : (r q s : Registry) → tables_of s ≡ tables_of q → Goes Move r q → Goes Move r s
retable r q s e v = record {
  clients = subst (Table Move r.clients) (sym (ap (λ t. t.0) e)) v.clients;
  peers = subst (Table Move r.peers) (sym (ap (λ t. t.1) e)) v.peers;
}

pub same_tables : (r q : Registry) → tables_of q ≡ tables_of r → IsOrderly r → Goes Falls r q
unfolding Vacates
same_tables r q e v = tables-Vacates r q e v

vacant-Falls : {s t : Slot} → Falls s t → s ≡ vacant → t ≡ vacant
vacant-Falls (stays s) h = h
vacant-Falls (empties s) h = refl

vacant_places : (p c : Option ℕ) → slot_of p c ≡ vacant → c ≡ none
vacant_places none none h = refl
vacant_places (some g) none h = refl
vacant_places none (some g) h = cc
vacant_places (some g) (some k) h = cc

vacant_current :
    (group : Name) (o : Option Entry) → slot_found o ≡ vacant → (entry_or group o).current ≡ none
vacant_current group none h = refl
vacant_current group (some e) h = vacant_places e.prepared e.current h

free_places :
    (p c : Option ℕ) → not (is_empty c) ≡ false → not (is_empty p) ≡ false → slot_of p c ≡ vacant
free_places none none h k = refl
free_places (some g) c h k = cc
free_places none (some g) h k = cc

entry_free : (o : Option Entry) → peer_entry_error o ≡ none → slot_found o ≡ vacant
entry_free none h = refl
entry_free (some e) h = free_places e.prepared e.current (ground arith) (ground arith)

client_free :
    (o : Option Entry) (group : Name) → client_entry_error o group ≡ none → slot_found o ≡ vacant
client_free none group h = refl
client_free (some e) group h = free_places e.prepared e.current (ground arith) (ground arith)

Goes-at :
    (role : Role) (r q : Registry) → Goes Falls r q → Table Falls (entries role r) (entries role q)
unfolding lookup
Goes-at role_unknown r q v = record { uniq = tt; slots = λ k. stays vacant }
Goes-at role_client r q v = v.clients
Goes-at role_peer r q v = v.peers

-- A vacant place is taken, also after other places fell.
occupy-Goes :
    (role : Role) (key group : Name) (g : ℕ) (r q : Registry)
    → Goes Falls r q
    → slot_in (entries role r) key ≡ vacant
    → Goes Move r (occupy role key group g q)
occupy-Goes role key group g r q v h =
    let t : Table Falls (entries role r) (entries role q) = Goes-at role r q v in
    let still : slot_in (entries role q) key ≡ vacant = vacant-Falls (t.slots key) h in
    let free : (entry_or group (lookup key (entries role q))).current ≡ none =
      vacant_current group (lookup key (entries role q)) still in
    with_entries-Goes_after Move role _ r q (Falls-Goes v) (
      insert-Table_after Move key _ (entries role r) (entries role q) (Table-map t) (
        subst (λ c. Move (slot_in (entries role r) key) (slot_of (some g) c)) (sym free)
          (subst (λ s. Move s (holds_prepared g)) (sym h) (prepares g))))

pub begin_inbound-Goes : (r : Registry) → IsOrderly r → Goes Move r (begin_inbound r).0
unfolding begin_inbound
begin_inbound-Goes r v = Falls-Goes (same_tables r _ (ground arith) v)

pub outbound_answer-Goes :
    (r : Registry) (peer : Name) (o : Option Error)
    → outbound_error r peer ≡ o
    → IsOrderly r
    → Goes Move r (outbound_answer r peer o).0
outbound_answer-Goes r peer (some e) h v = Falls-Goes (same_tables r r refl v)
outbound_answer-Goes r peer none h v =
    let gen : Generation = new_generation role_peer direction_outbound phase_prepared peer in
    let q : Registry = add_generation gen r in
    retable r (occupy role_peer peer [] (fresh_id r) q) _ refl (
      occupy-Goes role_peer peer [] (fresh_id r) r q (same_tables r q refl v)
        (entry_free (lookup peer r.peers) (ground arith)))

change-tables :
    (f : Generation → Generation) (g : ℕ) (o : Option Generation) (r : Registry)
    → tables_of (change_at f g o r) ≡ tables_of r
change-tables f g none r = refl
change-tables f g (some gen) r = refl

pub client_answer-Goes :
    (r : Registry) (g : ℕ) (instance_id group : Name) (o : Option Error)
    → client_error r g instance_id group ≡ o
    → IsOrderly r
    → Goes Move r (client_answer r g instance_id group o).0
client_answer-Goes r g instance_id group (some e) h v = Falls-Goes (same_tables r r refl v)
client_answer-Goes r g instance_id group none h v =
    let q : Registry = change (as_client instance_id group) g r in
    retable r (occupy role_client instance_id group g q) _ refl (
      occupy-Goes role_client instance_id group g r q
        (same_tables r q (change-tables (as_client instance_id group) g (lookup g r.all) r) v)
        (client_free (lookup instance_id r.clients) group (ground arith)))

-- The transfer of a pending generation, also after other places fell.
transfer_pending-Goes :
    (g : ℕ) (peer : Name) (r q : Registry)
    → Vacates r q
    → IsOrderly r
    → slot_in r.peers peer ≡ vacant
    → Goes Move r (transfer_pending g peer q)
unfolding transfer_pending Vacates
transfer_pending-Goes g peer r q f v h =
    let s : Registry = change (as_peer peer) g q in
    retable r (occupy role_peer peer [] g s) _ refl (
      occupy-Goes role_peer peer [] g r s
        (Vacates-trans r q s f
          (tables-Vacates q s (change-tables (as_peer peer) g (lookup g q.all) q)) v)
        h)

peer_answer-Goes :
    (r : Registry) (g : ℕ) (peer : Name) (o : Option Error)
    → peer_error r peer ≡ o
    → IsOrderly r
    → Goes Move r (peer_answer r g peer o).0
peer_answer-Goes r g peer (some e) h v = Falls-Goes (same_tables r r refl v)
peer_answer-Goes r g peer none h v =
    transfer_pending-Goes g peer r r (Vacates-refl r) v
      (entry_free (lookup peer r.peers) (ground arith))

contest-Goes :
    (r : Registry) (g : ℕ) (peer : Name) (o : Option ℕ)
    → IsOrderly r
    → Goes Move r (contest r g peer o).0
contest-Goes r g peer (some h) v = Falls-Goes (same_tables r _ refl v)
contest-Goes r g peer none v = peer_answer-Goes r g peer (peer_error r peer) refl v

complete_answer-Goes :
    (r : Registry) (a : Arbitration) (o : Option Error)
    → complete_error r a ≡ o
    → IsOrderly r
    → Goes Move r (complete_answer r a o).0
unfolding Vacates
complete_answer-Goes r a (some e) h v = Falls-Goes (finish_arbitration-Vacates a r v)
complete_answer-Goes r a none h v =
    transfer_pending-Goes a.inbound a.arbitration_peer r (finish_arbitration a r)
      (finish_arbitration-Vacates a r) v
      (entry_free (lookup a.arbitration_peer r.peers) (ground arith))

pub complete_of-Goes :
    (r : Registry) (o : Option Arbitration) → IsOrderly r → Goes Move r (complete_of r o).0
complete_of-Goes r none v = Falls-Goes (same_tables r r refl v)
complete_of-Goes r (some a) v = complete_answer-Goes r a (complete_error r a) refl v

pub prepare_peer-Goes :
    (r : Registry) (g : ℕ) (peer : Name) (preferred : Bool)
    → IsOrderly r
    → Goes Move r (prepare_peer r g peer preferred).0
unfolding prepare_peer
prepare_peer-Goes r g peer preferred v =
    if_cases (λ (z : Registry × Answer). Goes Move r z.0) r.closed _ _
      (λ p. Falls-Goes (same_tables r r refl v))
      (λ p.
        if_cases (λ (z : Registry × Answer). Goes Move r z.0)
          (not (is_exact r g role_unknown phase_pending)) _ _
          (λ q. Falls-Goes (same_tables r r refl v))
          (λ q.
            if_cases (λ (z : Registry × Answer). Goes Move r z.0)
              (is_some (lookup peer r.arbitrations)) _ _ (λ s. Falls-Goes (same_tables r r refl v))
              (λ s. contest-Goes r g peer (contested r peer preferred) v)))
