-- ===== src/Manager/Accounting.antt =====
-- The counters of a connection manager over its whole life, client/connection_manager.go.
use qmux.Base.{ℕ, zero, suc, ◌≡◌, ◌≤◌, subst, some, List, [], ◌∷◌, get_elem?, map, arith}
use qmux.Base.Lists.{count_by}
use qmux.Manager.State.{Name, Phase, EndpointPhases}
use qmux.Manager.Generations.{total, tally}
use qmux.Manager.Run.{Call, run, new_endpoint, new_manager}
use qmux.Manager.Tallied.{IsTallied}
use qmux.Manager.Counted.{run-IsTallied}

-- An endpoint of a new manager has not counted anything.
new_endpoint_found :
    (addrs : List Name) (k : ℕ) (e : EndpointPhases)
    → get_elem? (map new_endpoint addrs) k ≡ some e
    → ((p : Phase) → tally e p ≡ 0) × (total e ≤ e.generation_high_water)
new_endpoint_found [] k e h = cc
new_endpoint_found (a ∷ addrs) zero e h =
    subst (λ x. ((p : Phase) → tally x p ≡ 0) × (total x ≤ x.generation_high_water)) same
      ((λ p. nothing p), omega arith)
  where
    same : new_endpoint a ≡ e
    same = cc

    nothing : (p : Phase) → tally (new_endpoint a) p ≡ 0
    nothing p = ground arith
new_endpoint_found (a ∷ addrs) (suc k) e h = new_endpoint_found addrs k e h

-- Whatever operations run on a new connection manager, in whatever order, each counter of an endpoint
-- (handshaking, pending, registered, retiring) is the number of connections in that phase with that
-- endpoint as their capacity endpoint, and the sum of the four is at most the high-water mark.
pub manager-IsTallied :
    (addrs : List Name) (cs : List Call) → IsTallied (run (new_manager addrs) cs)
unfolding new_manager count_by
manager-IsTallied addrs cs = run-IsTallied (new_manager addrs) cs (record {
  tallies = λ k e p h q. (new_endpoint_found addrs k e h).0 p;
  high = λ k e h. (new_endpoint_found addrs k e h).1;
})
