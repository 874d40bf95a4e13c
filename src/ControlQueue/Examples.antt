-- ===== src/ControlQueue/Examples.antt =====
-- The order of a queue with room for two frames.
use qmux.Base.{true, false, List, [], ◌∷◌}
use qmux.ControlQueue.{QueuedControlFrame}
use qmux.ControlQueue.Order.{Event, pushes, takes_done, clears}

abbrev first : QueuedControlFrame
first = record { sequence = 1; last = false; buffer = 7; capacity = 10 }

abbrev second : QueuedControlFrame
second = record { sequence = 1; last = true; buffer = 8; capacity = 20 }

abbrev session : List Event
session =
    pushes (first ∷ second ∷ [])
    ∷ takes_done
    ∷ pushes (first ∷ [])
    ∷ takes_done
    ∷ pushes (first ∷ first ∷ [])
    ∷ clears
    ∷ []
