-- ===== src/ControlQueue/Order.antt =====
-- The queue hands its frames out in the order of their acceptance, each until it is done, and stays
-- within its bounds.
use qmux.Base.{ℕ, ◌≡◌, ◌≤◌, Bool, true, false, not, ◌||◌, List, [], ◌∷◌, ◌++◌, ◌==◌, length}
use qmux.ControlQueue.{
  QueuedControlFrame, ControlQueue, new_control_queue, size_of, push, Taken, taken, take, done,
  clear,
}

-- What callers do: push frames, take one and say that it is done, and clear the queue at the end.
pub data Event : Type 0 where
  pushes : List QueuedControlFrame → Event
  takes_done : Event
  clears : Event

-- A queue with the frames that it accepted, and those that were taken and done, each in order.
pub record Log : Type 0 where
  pub queue : ControlQueue
  pub accepted : List QueuedControlFrame
  pub finished : List QueuedControlFrame
  pub cleared : Bool

abbrev pushed : Log → List QueuedControlFrame → ControlQueue × Bool → Log
pushed g frames (q, true) = record g { queue = q; accepted = g.accepted ++ frames }
pushed g frames (q, false) = record g { queue = q }

abbrev finished_with : Log → Taken → Log
finished_with g (taken frame) = record g {
  queue = done g.queue frame;
  finished = g.finished ++ (frame ∷ []);
}
finished_with g _ = g

unfoldable pub handle : Log → Event → Log
unfolding push take done clear
handle g (pushes frames) = pushed g frames (push g.queue frames)
handle g takes_done = finished_with g (take g.queue)
handle g clears = record g { queue = clear g.queue; cleared = true }

unfoldable pub handle_all : Log → List Event → Log
unfolding handle
handle_all g [] = g
handle_all g (e ∷ es) = handle_all (handle g e) es

abbrev pub new_log : ℕ → ℕ → Log
new_log max_messages max_bytes = record {
  queue = new_control_queue max_messages max_bytes;
  accepted = [];
  finished = [];
  cleared = false;
}

pub record IsOrdered (g : Log) : Type 0 where
  -- What was accepted is what is finished, in its order, and then what is queued or was cleared.
  pub in_order :
      (later : List QueuedControlFrame) × (g.accepted ≡ g.finished ++ (g.queue.frames ++ later))
      × ((g.cleared || length later == 0) ≡ true)
  pub bytes_exact : g.queue.bytes ≡ size_of g.queue.frames
  pub messages_bounded : length g.queue.frames ≤ g.queue.max_messages
  pub bytes_bounded : g.queue.bytes ≤ g.queue.max_bytes
  -- A cleared queue has failed.
  pub cleared_failed : (not g.cleared || g.queue.failed) ≡ true
