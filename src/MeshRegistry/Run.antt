-- ===== src/MeshRegistry/Run.antt =====
-- Histories of a mesh registry: any sequence of its operations.
use qmux.Base.{ℕ, Bool, List, [], ◌∷◌}
use qmux.MeshRegistry.State.{Name, Registry, ForwardingEligibility, InstanceL7Health}
use qmux.MeshRegistry.Groups.{publish_forwarding, publish_l4_healthy, publish_l7_health}
use qmux.MeshRegistry.Removal.{cancel_arbitration, begin_retire, release, stop_begin, stop_end}
use qmux.MeshRegistry.Steps.{
  begin_inbound, begin_outbound_peer, prepare_client, prepare_peer, complete_arbitration,
  commit_receiver, commit_outbound_peer,
}

pub data Call : Type 0 where
  begins_inbound : Call
  begins_outbound : Name → Call
  prepares_client : ℕ → Name → Name → Call
  prepares_peer : ℕ → Name → Bool → Call
  completes : Name → ℕ → Call
  cancels : Name → ℕ → Bool → Call
  commits commits_outbound retires releases : ℕ → Call
  publishes_forwarding : ℕ → ForwardingEligibility → Call
  publishes_l4 : ℕ → Call
  publishes_l7 : ℕ → InstanceL7Health → Call
  begins_stop : Call
  ends_stop : List ℕ → Call

unfoldable pub step : Registry → Call → Registry
unfolding begin_inbound begin_outbound_peer prepare_client prepare_peer complete_arbitration
    cancel_arbitration commit_receiver commit_outbound_peer begin_retire release publish_forwarding
    publish_l4_healthy publish_l7_health stop_begin stop_end
step r begins_inbound = (begin_inbound r).0
step r (begins_outbound peer) = (begin_outbound_peer r peer).0
step r (prepares_client g instance_id group) = (prepare_client r g instance_id group).0
step r (prepares_peer g peer preferred) = (prepare_peer r g peer preferred).0
step r (completes peer id) = (complete_arbitration r peer id).0
step r (cancels peer id abort_inbound) = (cancel_arbitration r peer id abort_inbound).0
step r (commits g) = (commit_receiver r g).0
step r (commits_outbound g) = (commit_outbound_peer r g).0
step r (retires g) = (begin_retire r g).0
step r (releases g) = (release r g).0
step r (publishes_forwarding g eligibility) = (publish_forwarding r g eligibility).0
step r (publishes_l4 g) = (publish_l4_healthy r g).0
step r (publishes_l7 g health) = (publish_l7_health r g health).0
step r begins_stop = (stop_begin r).0
step r (ends_stop gs) = stop_end r gs

unfoldable pub run : Registry → List Call → Registry
unfolding step
run r [] = r
run r (c ∷ cs) = run (step r c) cs
