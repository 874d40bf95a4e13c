-- ===== src/Tickets/Examples.antt =====
-- The theorems on ticket keys for a manager that keeps one old key.
use qmux.Base.{◌≡◌, ◌≤◌, refl, false, none, some, List, [], ◌∷◌, take, length}
use qmux.Tickets.{Manager, new_rotate_manager, Event, ticks, starts, run}
use qmux.Tickets.Keys.{made, latest_first, run_keys}

abbrev fresh : Manager
fresh = record {
  keys = (1 ∷ []) ∷ [];
  overlap = 1;
  started = false;
  stopped = false;
  running = false;
}

abbrev day : List Event
day = starts ∷ ticks (some (2 ∷ [])) ∷ ticks none ∷ ticks (some (3 ∷ [])) ∷ []

fresh_made : new_rotate_manager 10 1 (some (1 ∷ [])) ≡ some fresh
unfolding new_rotate_manager
fresh_made = refl

run_keys_example :
    ((run fresh day).keys ≡ take 2 (latest_first (made fresh day) ((1 ∷ []) ∷ [])))
    × (length (run fresh day).keys ≤ 2)
run_keys_example = run_keys 10 1 (1 ∷ []) fresh day fresh_made
