-- ===== src/ClientUdp/Examples.antt =====
-- Runs of a client's UDP handler.
use qmux.Base.{ℕ, ◌≡◌, refl, true, false, List, [], ◌∷◌}
use qmux.Base.Assoc.{lookup, insert, erase}
use qmux.ClientUdp.Budget.{new_budget}
use qmux.ClientUdp.State.{Packet}
use qmux.ClientUdp.Handler.{new_handler}
use qmux.ClientUdp.Run.{Call, dispatches, attaches, seals, publishes, releases, run}
use qmux.ClientUdp.Counted.{IsCounted}
use qmux.ClientUdp.Histories.{client-IsCounted}

abbrev packet : ℕ → Packet
packet n = record { payload = n ∷ []; retained = 100 }

-- Two sessions under a limit of one: the second is dropped, the first is published and then closed by
-- a failed write, after which the ID can be used again.
abbrev calls : List Call
calls =
    dispatches 7 (packet 1) true true false
    ∷ dispatches 7 (packet 2) true true false
    ∷ dispatches 8 (packet 3) true true false
    ∷ attaches 0 40
    ∷ seals 0
    ∷ publishes 0 40
    ∷ dispatches 7 (packet 4) true false false
    ∷ releases 0
    ∷ releases 0
    ∷ dispatches 7 (packet 5) true true false
    ∷ []

client-IsCounted_example : IsCounted (run (new_handler 1) calls)
client-IsCounted_example = client-IsCounted 1 calls

run-conns_closed : (run (new_handler 1) calls).conns_closed ≡ 40 ∷ []
unfolding run lookup insert erase new_budget
run-conns_closed = refl

run-drops : (run (new_handler 1) calls).budget.limit_drops ≡ 1
unfolding run lookup insert erase new_budget
run-drops = refl
