-- ===== src/MeshRegistry/Bounded.antt =====
-- The limits of a mesh registry over every history: how many generations wait, serve as clients and
-- serve as peers.
use qmux.Base.{ℕ, List, [], ◌∷◌, arith}
use qmux.Base.Assoc.{nat_eq, str_Eq, sum_by}
use qmux.MeshRegistry.State.{Registry, new_registry}
use qmux.MeshRegistry.Leaves.{
  cancel_arbitration-Shrinks, commit_receiver-Shrinks, commit_outbound_peer-Shrinks,
  begin_retire-Shrinks, release-Shrinks, publish_forwarding-Shrinks, publish_l4_healthy-Shrinks,
  publish_l7_health-Shrinks, stop_begin-Shrinks, stop_end-Shrinks,
}
use qmux.MeshRegistry.Run.{
  Call, begins_inbound, begins_outbound, prepares_client, prepares_peer, completes, cancels,
  commits, commits_outbound, retires, releases, publishes_forwarding, publishes_l4, publishes_l7,
  begins_stop, ends_stop, step, run,
}
use qmux.MeshRegistry.Joins.{IsBounded, Shrinks-IsBounded}
use qmux.MeshRegistry.Entered.{
  begin_inbound-IsBounded, begin_outbound-IsBounded, prepare_peer-IsBounded,
  prepare_client-IsBounded, complete_arbitration-IsBounded,
}

step-IsBounded : (r : Registry) (c : Call) → IsBounded r → IsBounded (step r c)
unfolding step
step-IsBounded r begins_inbound v = begin_inbound-IsBounded r v
step-IsBounded r (begins_outbound peer) v = begin_outbound-IsBounded r peer v
step-IsBounded r (prepares_client g instance_id group) v =
    prepare_client-IsBounded r g instance_id group v
step-IsBounded r (prepares_peer g peer preferred) v = prepare_peer-IsBounded r g peer preferred v
step-IsBounded r (completes peer id) v = complete_arbitration-IsBounded r peer id v
step-IsBounded r (cancels peer id abort_inbound) v =
    Shrinks-IsBounded (cancel_arbitration-Shrinks r peer id abort_inbound) v
step-IsBounded r (commits g) v = Shrinks-IsBounded (commit_receiver-Shrinks r g) v
step-IsBounded r (commits_outbound g) v = Shrinks-IsBounded (commit_outbound_peer-Shrinks r g) v
step-IsBounded r (retires g) v = Shrinks-IsBounded (begin_retire-Shrinks r g) v
step-IsBounded r (releases g) v = Shrinks-IsBounded (release-Shrinks r g) v
step-IsBounded r (publishes_forwarding g eligibility) v =
    Shrinks-IsBounded (publish_forwarding-Shrinks r g eligibility) v
step-IsBounded r (publishes_l4 g) v = Shrinks-IsBounded (publish_l4_healthy-Shrinks r g) v
step-IsBounded r (publishes_l7 g health) v =
    Shrinks-IsBounded (publish_l7_health-Shrinks r g health) v
step-IsBounded r begins_stop v = Shrinks-IsBounded (stop_begin-Shrinks r) v
step-IsBounded r (ends_stop gs) v = Shrinks-IsBounded (stop_end-Shrinks r gs) v

run-IsBounded_from : (r : Registry) (cs : List Call) → IsBounded r → IsBounded (run r cs)
unfolding run
run-IsBounded_from r [] v = v
run-IsBounded_from r (c ∷ cs) v = run-IsBounded_from (step r c) cs (step-IsBounded r c v)

-- After any history of a new registry, no more generations are pending, registered as clients and
-- registered as peers than the high-water mark of each kind says, and no mark is above its limit.
pub registry-IsBounded :
    (max_pending max_clients max_peers : ℕ) (cs : List Call)
    → IsBounded (run (new_registry max_pending max_clients max_peers) cs)
unfolding new_registry sum_by
registry-IsBounded max_pending max_clients max_peers cs =
    run-IsBounded_from (new_registry max_pending max_clients max_peers) cs
      (record { pending = omega arith; clients = omega arith; peers = omega arith })
