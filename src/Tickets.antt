-- ===== src/Tickets.antt =====
-- The session ticket keys of server/tls/stek/rotate.go: `NewRotateManager`, `rotate`, `Start`,
-- `Stop` and the background loop. Each key that `crypto/rand` makes, or its failure, comes with the
-- event that asks for it; the ticker and the goroutine are the events' order.
use qmux.Base.{
  ℕ, suc, zero, ◌≡◌, refl, sym, ap, ◌∙◌, ◌+◌, ◌-◌, ◌≤◌, ◌<◌, Bool, true, false, not, ◌&&◌, ◌||◌,
  Option, none, some, List, [], ◌∷◌, ◌++◌, ltb, leb, ◌==◌, if◌then◌else◌, length, take, min,
  length-take, arith,
}
pub mod Keys
mod Examples

pub record Manager : Type 0 where
  pub keys : List (List ℕ)
  pub overlap : ℕ
  pub started : Bool
  pub stopped : Bool
  -- Whether the background goroutine runs.
  pub running : Bool

-- `NewRotateManager`; an interval of 0 stands for one that is not positive.
unfoldable pub new_rotate_manager : ℕ → ℕ → Option (List ℕ) → Option Manager
new_rotate_manager interval overlap none = none
new_rotate_manager interval overlap (some key) =
    if interval == 0
    then none
    else some (record {
      keys = key ∷ [];
      overlap = overlap;
      started = false;
      stopped = false;
      running = false;
    })

-- `rotate`, with the result of `generateKey`.
unfoldable pub rotate : Manager → Option (List ℕ) → Manager
rotate m none = m
rotate m (some new_key) =
    let old_keys_to_keep = min (length m.keys) m.overlap in
    record m { keys = new_key ∷ take old_keys_to_keep m.keys }

-- `Start`.
unfoldable pub start : Manager → Manager
start m = if m.started || m.stopped then m else record m { started = true; running = true }

-- `Stop`, which returns once the goroutine has left.
unfoldable pub stop : Manager → Manager
stop m = if m.stopped then m else record m { stopped = true; running = false }

pub data Event : Type 0 where
  ticks : Option (List ℕ) → Event
  starts stops cancels : Event

-- One event; a tick reaches `run` only while the goroutine runs.
unfoldable pub handle : Manager → Event → Manager
unfolding rotate start stop
handle m (ticks key) = if m.running then rotate m key else m
handle m starts = start m
handle m stops = stop m
handle m cancels = record m { running = false }

unfoldable pub run : Manager → List Event → Manager
unfolding handle
run m [] = m
run m (e ∷ es) = run (handle m e) es
