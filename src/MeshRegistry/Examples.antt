-- ===== src/MeshRegistry/Examples.antt =====
-- Runs of the mesh registry.
use qmux.Base.{◌≡◌, refl, arith, true, List, [], ◌∷◌}
use qmux.Base.Bytes.{codes}
use qmux.MeshRegistry.State.{Name, new_registry}
use qmux.Base.Tests.{str_eq}
use qmux.Base.Assoc.{lookup, insert, erase, sum_by}
use qmux.MeshRegistry.Removal.{unlink_entry, remove_on, remove}
use qmux.MeshRegistry.Run.{
  Call, begins_inbound, begins_outbound, prepares_client, prepares_peer, completes, commits,
  retires, releases, step, run,
}
use qmux.MeshRegistry.Joins.{IsBounded}
use qmux.MeshRegistry.Bounded.{registry-IsBounded}
use qmux.MeshRegistry.Slots.{Move, Goes, slot_in, holds_prepared, holds_current}
use qmux.MeshRegistry.Refinement.{registry_refines}
use qmux.MeshRegistry.Termination.{remove_terminates}

abbrev peer : Name
peer = codes "b"

-- A dialled peer that loses the arbitration with its inbound connection.
abbrev contested : List Call
contested = begins_outbound peer ∷ begins_inbound ∷ prepares_peer 2 peer true ∷ []

abbrev calls : List Call
calls =
    begins_outbound peer
    ∷ begins_inbound
    ∷ prepares_peer 2 peer true
    ∷ releases 1
    ∷ completes peer 1
    ∷ commits 2
    ∷ begins_inbound
    ∷ prepares_client 3 (codes "c") (codes "g")
    ∷ commits 3
    ∷ []

run-peer : slot_in (run (new_registry 2 2 1) calls).peers peer ≡ holds_current 2
unfolding run new_registry lookup insert erase sum_by str_eq unlink_entry
run-peer = refl

run_client : slot_in (run (new_registry 2 2 1) calls).clients (codes "c") ≡ holds_current 3
unfolding run new_registry lookup insert erase sum_by str_eq unlink_entry
run_client = refl

contested-peer : slot_in (run (new_registry 2 2 1) contested).peers peer ≡ holds_prepared 1
unfolding run new_registry lookup insert erase sum_by str_eq unlink_entry
contested-peer = refl

registry-IsBounded_example : IsBounded (run (new_registry 2 2 1) calls)
registry-IsBounded_example = registry-IsBounded 2 2 1 calls

registry_refines_example :
    Goes Move (run (new_registry 2 2 1) calls) (step (run (new_registry 2 2 1) calls) (retires 2))
registry_refines_example = registry_refines 2 2 1 calls (retires 2)

remove_terminates_example :
    remove_on 4 2 (run (new_registry 2 2 1) contested)
    ≡ remove 2 (run (new_registry 2 2 1) contested)
unfolding run new_registry lookup insert erase sum_by str_eq unlink_entry
remove_terminates_example =
    remove_terminates 2 3 (run (new_registry 2 2 1) contested) (refl, tt) (omega arith)
