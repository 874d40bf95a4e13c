-- ===== src/Manager/Examples.antt =====
-- Runs of a connection manager.
use qmux.Base.{ℕ, ◌≡◌, refl, false, Option, none, some, List, [], ◌∷◌, get_elem?}
use qmux.Base.Tests.{str_eq}
use qmux.Manager.State.{Name, EndpointPhases}
use qmux.Manager.Run.{Call, begins, connects, publishes, closes, reports, run, new_manager}
use qmux.Manager.Tallied.{IsTallied}
use qmux.Manager.Published.{IsPublishedBut}
use qmux.Manager.Histories.{manager-IsPublished}
use qmux.Manager.Accounting.{manager-IsTallied}

abbrev left : Name
left = 1 ∷ []

abbrev right : Name
right = 2 ∷ []

-- Two generations of one endpoint, of which the second replaces the first before that closes, and one
-- of the other endpoint.
abbrev calls : List Call
calls =
    begins left
    ∷ connects 0
    ∷ publishes false 0
    ∷ begins left
    ∷ begins right
    ∷ connects 1
    ∷ connects 2
    ∷ publishes false 1
    ∷ publishes false 2
    ∷ closes 0
    ∷ reports 0
    ∷ []

manager-IsTallied_example : IsTallied (run (new_manager (left ∷ right ∷ [])) calls)
manager-IsTallied_example = manager-IsTallied (left ∷ right ∷ []) calls

manager-IsPublished_example : IsPublishedBut none (run (new_manager (left ∷ right ∷ [])) calls)
manager-IsPublished_example = manager-IsPublished (left ∷ right ∷ []) calls

abbrev counts : Option EndpointPhases → List ℕ
counts none = []
counts (some e) =
    e.handshaking_count ∷ e.pending_count ∷ e.registered_count ∷ e.retiring_count
    ∷ e.generation_high_water ∷ e.accounting_faults ∷ []

after : List Call → List ℕ
unfolding run new_manager
after cs = counts (get_elem? (run (new_manager (left ∷ right ∷ [])) cs).endpoints 0)

after-calls : after calls ≡ 0 ∷ 0 ∷ 1 ∷ 0 ∷ 2 ∷ 0 ∷ []
unfolding after run new_manager str_eq
after-calls = refl
