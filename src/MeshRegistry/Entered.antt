-- ===== src/MeshRegistry/Entered.antt =====
-- The handlers of mesh/registry.go that let a generation join keep within the limits.
use qmux.Base.{
  ℕ, ◌≡◌, refl, ap, ◌≢◌, ◌≤◌, Bool, true, false, not, Option, none, some, [], if_cases, arith, leb,
  Option-cases, inl, inr,
}
use qmux.Base.Assoc.{nat_eq, str_Eq, lookup}
use qmux.MeshRegistry.State.{
  direction_inbound, direction_outbound, Name, Registry, Role, role_unknown, role_peer, role_eq,
  one_if, Generation, Phase, phase_pending, phase_prepared, phase_retiring, Arbitration, count_role,
  count_pending, has_role, is_exact, Error,
}
use qmux.MeshRegistry.Groups.{put}
use qmux.MeshRegistry.Removal.{is_some, finish_arbitration, find_arbitration}
use qmux.MeshRegistry.Steps.{
  Answer, client_error, client_answer, peer_error, peer_answer, contest, contested, complete_error,
  complete_answer, complete_of, new_generation, outbound_error, outbound_answer, add_generation,
  fresh_id, begin_inbound, begin_outbound_peer, prepare_client, prepare_peer, complete_arbitration,
  occupy,
}
use qmux.MeshRegistry.Shrinks.{Shrinks}
use qmux.MeshRegistry.Drops.{finish_arbitration-counts, finish_arbitration-Shrinks}
use qmux.MeshRegistry.Joins.{
  IsBounded, Shrinks-IsBounded, counted-IsBounded, put-Adds, counted-Adds, update_pending-IsBounded,
  update_peer-IsBounded, occupy-counted, prepared_client-IsBounded, transfer_pending-IsBounded,
}

pub begin_inbound-IsBounded : (r : Registry) → IsBounded r → IsBounded (begin_inbound r).0
unfolding begin_inbound
begin_inbound-IsBounded r v =
    if_cases (λ (z : Registry × Answer). IsBounded z.0) r.closed _ _ (λ p. v)
      (λ p.
        if_cases (λ (z : Registry × Answer). IsBounded z.0) (leb r.max_pending (count_pending r)) _
          _ (λ q. v)
          (λ q.
            let gen : Generation = new_generation role_unknown direction_inbound phase_pending [] in
            counted-IsBounded refl (
              update_pending-IsBounded gen r (add_generation gen r) refl (ground arith)
                (counted-Adds refl (put-Adds (fresh_id r) gen r)) v)))

pub outbound_answer-IsBounded :
    (r : Registry) (peer : Name) (o : Option Error)
    → outbound_error r peer ≡ o
    → IsBounded r
    → IsBounded (outbound_answer r peer o).0
outbound_answer-IsBounded r peer (some e) h v = v
outbound_answer-IsBounded r peer none h v =
    let gen : Generation = new_generation role_peer direction_outbound phase_prepared peer in
    counted-IsBounded refl (
      update_peer-IsBounded gen r (occupy role_peer peer [] (fresh_id r) (add_generation gen r))
        refl (ground arith)
        (counted-Adds {q = add_generation gen r}
          (occupy-counted role_peer peer [] (fresh_id r) (add_generation gen r))
          (counted-Adds {q = put (fresh_id r) gen r} refl (put-Adds (fresh_id r) gen r)))
        v)

pub begin_outbound-IsBounded :
    (r : Registry) (peer : Name) → IsBounded r → IsBounded (begin_outbound_peer r peer).0
unfolding begin_outbound_peer
begin_outbound-IsBounded r peer v = outbound_answer-IsBounded r peer (outbound_error r peer) refl v

pub client_answer-IsBounded :
    (r : Registry) (g : ℕ) (instance_id group : Name) (o : Option Error)
    → client_error r g instance_id group ≡ o
    → IsBounded r
    → IsBounded (client_answer r g instance_id group o).0
client_answer-IsBounded r g instance_id group (some e) h v = v
client_answer-IsBounded r g instance_id group none h v =
    counted-IsBounded refl
      (prepared_client-IsBounded instance_id group g (lookup g r.all) r (ground arith) v)

pub peer_answer-IsBounded :
    (r : Registry) (g : ℕ) (peer : Name) (o : Option Error)
    → peer_error r peer ≡ o
    → IsBounded r
    → IsBounded (peer_answer r g peer o).0
peer_answer-IsBounded r g peer (some e) h v = v
peer_answer-IsBounded r g peer none h v = transfer_pending-IsBounded g peer r (ground arith) v

pub contest-IsBounded :
    (r : Registry) (g : ℕ) (peer : Name) (o : Option ℕ)
    → IsBounded r
    → IsBounded (contest r g peer o).0
contest-IsBounded r g peer (some h) v = counted-IsBounded refl v
contest-IsBounded r g peer none v = peer_answer-IsBounded r g peer (peer_error r peer) refl v

pub prepare_peer-IsBounded :
    (r : Registry) (g : ℕ) (peer : Name) (preferred : Bool)
    → IsBounded r
    → IsBounded (prepare_peer r g peer preferred).0
unfolding prepare_peer
prepare_peer-IsBounded r g peer preferred v =
    if_cases (λ (z : Registry × Answer). IsBounded z.0) r.closed _ _ (λ p. v)
      (λ p.
        if_cases (λ (z : Registry × Answer). IsBounded z.0)
          (not (is_exact r g role_unknown phase_pending)) _ _ (λ q. v)
          (λ q.
            if_cases (λ (z : Registry × Answer). IsBounded z.0)
              (is_some (lookup peer r.arbitrations)) _ _ (λ s. v)
              (λ s. contest-IsBounded r g peer (contested r peer preferred) v)))

-- What the checks of `CompleteArbitration` leave.
pub completes_lem :
    (r : Registry) (a : Arbitration)
    → complete_error r a ≡ none
    → (count_role role_peer r ≤ r.max_peers)
      × (a.loser_released ≡ true)
      × (is_exact r a.loser role_peer phase_retiring ≡ true)
completes_lem r a h = ground arith

false≢true : true ≢ false
false≢true e = cc

pub is_exact_lem :
    (r : Registry) (g : ℕ) (role : Role) (phase : Phase)
    → is_exact r g role phase ≡ true
    → (gen : Generation) × (lookup g r.all ≡ some gen) × (role_eq gen.role role ≡ true)
unfolding is_exact
is_exact_lem r g role phase h = elim (Option-cases (lookup g r.all)) [
  | inl gone ↦ absurd (false≢true (ground arith))
  | inr (gen, there) ↦ (gen, there, ground arith)
]

pub complete_answer-IsBounded :
    (r : Registry) (a : Arbitration) (o : Option Error)
    → complete_error r a ≡ o
    → IsBounded r
    → IsBounded (complete_answer r a o).0
complete_answer-IsBounded r a (some e) h v = Shrinks-IsBounded (finish_arbitration-Shrinks a r) v
complete_answer-IsBounded r a none h v =
    let (within, released, exact) = completes_lem r a h in
    let (gen, there, peer) = is_exact_lem r a.loser role_peer phase_retiring exact in
    transfer_pending-IsBounded a.inbound a.arbitration_peer (finish_arbitration a r)
      (omega (
        arith,
        finish_arbitration-counts (has_role role_peer) a gen r released there,
        ap {B = ℕ} (λ b. one_if b) peer,
        within,
        ap (λ l. l.1.1.0) (Shrinks.limits (finish_arbitration-Shrinks a r)),
      ))
      (Shrinks-IsBounded (finish_arbitration-Shrinks a r) v)

pub complete_of-IsBounded :
    (r : Registry) (o : Option Arbitration) → IsBounded r → IsBounded (complete_of r o).0
complete_of-IsBounded r none v = v
complete_of-IsBounded r (some a) v = complete_answer-IsBounded r a (complete_error r a) refl v

pub prepare_client-IsBounded :
    (r : Registry) (g : ℕ) (instance_id group : Name)
    → IsBounded r
    → IsBounded (prepare_client r g instance_id group).0
unfolding prepare_client
prepare_client-IsBounded r g instance_id group v =
    client_answer-IsBounded r g instance_id group (client_error r g instance_id group) refl v

pub complete_arbitration-IsBounded :
    (r : Registry) (peer : Name) (id : ℕ)
    → IsBounded r
    → IsBounded (complete_arbitration r peer id).0
unfolding complete_arbitration
complete_arbitration-IsBounded r peer id v = complete_of-IsBounded r (find_arbitration r peer id) v
