-- ===== src/ControlQueue.antt =====
-- The bounded queue of encoded frames towards one mesh peer, `controlQueue` of mesh/control_state.go.
-- The wake-up channel is not modelled: a waiting `take` is a `take` at a later state. The capacities
-- are Go ints that stay far below 2^63.
use qmux.Base.{
  ℕ, ◌+◌, ◌-◌, Bool, true, false, not, ◌&&◌, ◌||◌, Option, none, some, List, [], ◌∷◌, ◌++◌, ltb,
  ◌==◌, if◌then◌else◌, length,
}
pub mod Order
mod Examples

-- `buffer` is the identity of the frame's bytes, `&data[0]`, and `capacity` is `cap(data)`.
pub record QueuedControlFrame : Type 0 where
  pub sequence : ℕ
  pub last : Bool
  pub buffer : ℕ
  pub capacity : ℕ

pub record ControlQueue : Type 0 where
  pub frames : List QueuedControlFrame
  pub bytes : ℕ
  pub max_messages : ℕ
  pub max_bytes : ℕ
  pub failed : Bool

-- `newControlQueue`.
unfoldable pub new_control_queue : ℕ → ℕ → ControlQueue
new_control_queue max_messages max_bytes = record {
  frames = [];
  bytes = 0;
  max_messages = max_messages;
  max_bytes = max_bytes;
  failed = false;
}

-- The sum of the capacities.
unfoldable pub size_of : List QueuedControlFrame → ℕ
size_of [] = 0
size_of (f ∷ fs) = f.capacity + size_of fs

-- `push`; the result says whether it returned nil.
unfoldable pub push : ControlQueue → List QueuedControlFrame → ControlQueue × Bool
unfolding size_of
push q frames =
    if q.failed
    then (q, false)
    else if ltb q.max_messages (length frames + length q.frames)
        || ltb q.max_bytes (size_of frames + q.bytes)
    then (record q { failed = true }, false)
    else (record q { frames = q.frames ++ frames; bytes = q.bytes + size_of frames }, true)

pub data Taken : Type 0 where
  queue_full waits : Taken
  taken : QueuedControlFrame → Taken

-- One round of `take`.
unfoldable pub take : ControlQueue → Taken
take q = if q.failed then queue_full else elim q.frames [ [] ↦ waits | frame ∷ rest ↦ taken frame ]

abbrev pub is_same : QueuedControlFrame → QueuedControlFrame → Bool
is_same f g = f.sequence == g.sequence && f.buffer == g.buffer

-- `done`.
unfoldable pub done : ControlQueue → QueuedControlFrame → ControlQueue
done q frame = elim q.frames [
  | [] ↦ q
  | head ∷ rest ↦
      if is_same head frame then record q { frames = rest; bytes = q.bytes - frame.capacity } else q
]

-- `clear`.
unfoldable pub clear : ControlQueue → ControlQueue
clear q = record q { frames = []; bytes = 0; failed = true }
