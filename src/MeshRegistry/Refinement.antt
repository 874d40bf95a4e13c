-- ===== src/MeshRegistry/Refinement.antt =====
-- A history of the registry of mesh/registry.go is, at each identity, a history of its abstract place.
use qmux.Base.{
  ℕ, ◌≡◌, refl, sym, subst, ==_iff, Bool, true, not, ◌&&◌, ◌||◌, Option, none, some, List, [], ◌∷◌,
  if_cases, arith,
}
use qmux.Base.Assoc.{nat_eq, str_Eq, lookup, insert}
use qmux.Outbound.Endpoint.{is, is_empty, publish}
use qmux.MeshRegistry.State.{
  Entry, Registry, role_peer, Generation, phase_prepared, entries, with_entries, key_of, is_exact,
  new_registry,
}
use qmux.MeshRegistry.Removal.{entry_of, find_arbitration}
use qmux.MeshRegistry.Steps.{
  outbound_error, begin_outbound_peer, client_error, prepare_client, complete_arbitration,
  publishable, published_entry, commit_of, commit, commit_receiver_found, commit_receiver,
  is_loser_of, commit_outbound_found, commit_outbound_peer,
}
use qmux.MeshRegistry.Slots.{
  slot_of, slot_found, stays, Move, falls, publishes, Move-IsClear, IsOrderly, Goes, insert-Table,
  with_entries-Goes, entries-IsTidy, Table-IsTidy,
}
use qmux.MeshRegistry.Vacating.{Vacates}
use qmux.MeshRegistry.Retiring.{
  begin_retire-Vacates, release-Vacates, cancel_arbitration-Vacates, stop_begin-Vacates,
  stop_end-Vacates, publish_forwarding-Vacates, publish_l4_healthy-Vacates,
  publish_l7_health-Vacates,
}
use qmux.MeshRegistry.Moves.{
  Falls-Goes, retable, same_tables, begin_inbound-Goes, outbound_answer-Goes, client_answer-Goes,
  prepare_peer-Goes, complete_of-Goes,
}
use qmux.MeshRegistry.Run.{
  Call, begins_inbound, begins_outbound, prepares_client, prepares_peer, completes, cancels,
  commits, commits_outbound, retires, releases, publishes_forwarding, publishes_l4, publishes_l7,
  begins_stop, ends_stop, step, run,
}

-- A prepared place that is published.
publish_places :
    (g : ℕ) (p c : Option ℕ)
    → (is p (some g) && is_empty c) ≡ true
    → Move (slot_of p c) (slot_of none (publish c (some g)).0)
unfolding is publish
publish_places g none c h = cc
publish_places g (some k) (some j) h = absurd (ground arith)
publish_places g (some k) none h =
    subst (λ x. Move (slot_of (some x) none) (slot_of none (some g)))
      (sym ((==_iff k g).0 (ground arith))) (publishes g)

commit_of-Goes :
    (r : Registry) (g : ℕ) (gen : Generation) (o : Option Entry)
    → entry_of gen r ≡ o
    → IsOrderly r
    → Goes Move r (commit_of r g gen (publishable o g)).0
commit_of-Goes r g gen none h v = Falls-Goes (same_tables r r refl v)
commit_of-Goes r g gen (some e) h v =
    if_cases (λ x. Goes Move r (commit_of r g gen x).0)
      (is e.prepared (some g) && is_empty e.current) (some e) none
      (λ p.
        retable r
          (with_entries gen.role (insert (key_of gen) (published_entry g e) (entries gen.role r)) r)
          _ refl
          (with_entries-Goes Move (λ s. falls (stays s)) gen.role _ r v
            (insert-Table Move (λ s. falls (stays s)) (key_of gen) (published_entry g e)
              (entries gen.role r) (entries-IsTidy gen.role r v)
              (subst (λ x. Move (slot_found x) (slot_of none (publish e.current (some g)).0))
                (sym h) (publish_places g e.prepared e.current p)))))
      (λ p. Falls-Goes (same_tables r r refl v))

commit-Goes :
    (r : Registry) (g : ℕ) (gen : Generation) → IsOrderly r → Goes Move r (commit r g gen).0
unfolding commit
commit-Goes r g gen v = commit_of-Goes r g gen (entry_of gen r) refl v

commit_receiver_found-Goes :
    (r : Registry) (g : ℕ) (o : Option Generation)
    → IsOrderly r
    → Goes Move r (commit_receiver_found r g o).0
commit_receiver_found-Goes r g none v = Falls-Goes (same_tables r r refl v)
commit_receiver_found-Goes r g (some gen) v =
    if_cases (λ (z : Registry × (Bool × Bool)). Goes Move r z.0)
      (is_exact r g gen.role phase_prepared) _ _ (λ p. commit-Goes r g gen v)
      (λ p. Falls-Goes (same_tables r r refl v))

commit_outbound_found-Goes :
    (r : Registry) (g : ℕ) (o : Option Generation)
    → IsOrderly r
    → Goes Move r (commit_outbound_found r g o).0
commit_outbound_found-Goes r g none v = Falls-Goes (same_tables r r refl v)
commit_outbound_found-Goes r g (some gen) v =
    if_cases (λ (z : Registry × Bool). Goes Move r z.0)
      (r.closed || not (is_exact r g role_peer phase_prepared)) _ _
      (λ p. Falls-Goes (same_tables r r refl v))
      (λ p.
        if_cases (λ (z : Registry × Bool). Goes Move r z.0)
          (is_loser_of (lookup gen.peer_id r.arbitrations) g) _ _
          (λ q. Falls-Goes (same_tables r r refl v)) (λ q. commit-Goes r g gen v))

step-Goes : (r : Registry) (c : Call) → IsOrderly r → Goes Move r (step r c)
unfolding step begin_outbound_peer prepare_client complete_arbitration commit_receiver
    commit_outbound_peer Vacates
step-Goes r begins_inbound v = begin_inbound-Goes r v
step-Goes r (begins_outbound peer) v = outbound_answer-Goes r peer (outbound_error r peer) refl v
step-Goes r (prepares_client g instance_id group) v =
    client_answer-Goes r g instance_id group (client_error r g instance_id group) refl v
step-Goes r (prepares_peer g peer preferred) v = prepare_peer-Goes r g peer preferred v
step-Goes r (completes peer id) v = complete_of-Goes r (find_arbitration r peer id) v
step-Goes r (cancels peer id abort_inbound) v =
    Falls-Goes (cancel_arbitration-Vacates r peer id abort_inbound v)
step-Goes r (commits g) v = commit_receiver_found-Goes r g (lookup g r.all) v
step-Goes r (commits_outbound g) v = commit_outbound_found-Goes r g (lookup g r.all) v
step-Goes r (retires g) v = Falls-Goes (begin_retire-Vacates r g v)
step-Goes r (releases g) v = Falls-Goes (release-Vacates r g v)
step-Goes r (publishes_forwarding g eligibility) v =
    Falls-Goes (publish_forwarding-Vacates r g eligibility v)
step-Goes r (publishes_l4 g) v = Falls-Goes (publish_l4_healthy-Vacates r g v)
step-Goes r (publishes_l7 g health) v = Falls-Goes (publish_l7_health-Vacates r g health v)
step-Goes r begins_stop v = Falls-Goes (stop_begin-Vacates r v)
step-Goes r (ends_stop gs) v = Falls-Goes (stop_end-Vacates r gs v)

step-IsOrderly : (r : Registry) (c : Call) → IsOrderly r → IsOrderly (step r c)
step-IsOrderly r c v = record {
  tidy_clients = Table-IsTidy (λ s t. Move-IsClear) (Goes.clients (step-Goes r c v)) v.tidy_clients;
  tidy_peers = Table-IsTidy (λ s t. Move-IsClear) (Goes.peers (step-Goes r c v)) v.tidy_peers;
}

run-IsOrderly : (r : Registry) (cs : List Call) → IsOrderly r → IsOrderly (run r cs)
unfolding run
run-IsOrderly r [] v = v
run-IsOrderly r (c ∷ cs) v = run-IsOrderly (step r c) cs (step-IsOrderly r c v)

new-IsOrderly :
    (max_pending max_clients max_peers : ℕ)
    → IsOrderly (new_registry max_pending max_clients max_peers)
unfolding new_registry lookup
new-IsOrderly max_pending max_clients max_peers = record {
  tidy_clients = record { uniq = tt; clear = λ k. tt };
  tidy_peers = record { uniq = tt; clear = λ k. tt };
}

-- The entries refine one abstract place per identity: after any history of a new registry, any
-- further call leaves the place of each client instance and of each peer as it is, empties it, fills
-- a vacant place with a prepared generation, or turns exactly the prepared generation into the
-- current one. So a generation is never published over another, nor prepared beside one that is
-- prepared or current, also not by an arbitration.
pub registry_refines :
    (max_pending max_clients max_peers : ℕ) (cs : List Call) (c : Call)
    → Goes Move
        (run (new_registry max_pending max_clients max_peers) cs)
        (step (run (new_registry max_pending max_clients max_peers) cs) c)
registry_refines max_pending max_clients max_peers cs c =
    let r : Registry = run (new_registry max_pending max_clients max_peers) cs in
    step-Goes r c (
      run-IsOrderly (new_registry max_pending max_clients max_peers) cs
        (new-IsOrderly max_pending max_clients max_peers))
