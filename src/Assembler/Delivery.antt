-- ===== src/Assembler/Delivery.antt =====
-- All fragments of one packet, in any order and with repetitions, with cleanup ticks between them.
use qmux.Base.{
  ℕ, zero, suc, ◌≡◌, ◌≢◌, refl, ◌+◌, ◌≤◌, ◌<◌, ◌⊎◌, inl, inr, Option, none, some, List, [], ◌∷◌,
  length, get_or, get_elem?, set, concat, arith, length-set, All,
}
use qmux.Datagram.{Result, ok, err, max_frag_payload}
use qmux.Assembler.{key_Eq, FragmentKey, Assembler, add_fragment, cleanup, fragment_timeout}
use qmux.Assembler.Ticks.{cleanup-Ready}
use qmux.Assembler.Slots.{length-Partial, filled_all, get_or-set_filled, get_or-set_keeps}
use qmux.Assembler.Reassembly.{Ready, add-Advances}

-- What happens while the fragments of one packet arrive: a fragment comes at a time, or the cleanup
-- loop ticks at one.
pub data Event : Type 0 where
  arrives : ℕ → ℕ → Event
  ticks : ℕ → Event

-- The fragments that arrive.
abbrev pub indices : List Event → List ℕ
indices [] = []
indices (arrives now i ∷ events) = i ∷ indices events
indices (ticks now ∷ events) = indices events

module _ (hash : FragmentKey → ℕ) (key : FragmentKey) where
  -- The events one after the other, until a fragment does not leave the packet incomplete; the
  -- outcome of that one.
  unfoldable pub deliver : Assembler → List (List ℕ) → List Event → Option (Result (List ℕ))
  deliver a pieces [] = none
  deliver a pieces (ticks now ∷ events) = deliver (cleanup now a) pieces events
  deliver a pieces (arrives now i ∷ events) =
      let (a', r) =
        add_fragment hash a now key.session_id key.frag_id i (length pieces) (get_or pieces i []) in
      let rest = deliver a' pieces events in
      elim r [ err e ↦ some (err e) | ok none ↦ rest | ok (some packet) ↦ some (ok packet) ]

abbrev pub In : ℕ → List ℕ → Type 0
In i [] = ⊥
In i (j ∷ order) = (i ≡ j) ⊎ In i order

-- Each fragment is stored already or is still to come.
abbrev pub Covers : List (Option (List ℕ)) → List ℕ → Type 0
Covers slots order = (i : ℕ) → i < length slots → (get_or slots i none ≢ none) ⊎ In i order

Covers-set :
    (slots : List (Option (List ℕ))) (i : ℕ) (p : List ℕ) (order : List ℕ)
    → Covers slots (i ∷ order)
    → Covers (set slots i (some p)) order
Covers-set slots i p order c j lt = go (c j inside)
  where
    inside : j < length slots
    inside = omega (arith, length-set slots i (some p))

    go :
        (get_or slots j none ≢ none) ⊎ ((j ≡ i) ⊎ In j order)
        → (get_or (set slots i (some p)) j none ≢ none) ⊎ In j order
    go (inl stored) = inl (get_or-set_keeps slots i j p stored)
    go (inr (inl same)) = inl (λ e. cc (get_or-set_filled slots j p inside))
    go (inr (inr later)) = inr later

get_elem?-get_or :
    (pieces : List (List ℕ)) (i : ℕ)
    → i < length pieces
    → get_elem? pieces i ≡ some (get_or pieces i [])
get_elem?-get_or [] i h = elim h [ ]
get_elem?-get_or (p ∷ pieces) zero h = refl
get_elem?-get_or (p ∷ pieces) (suc i) h = get_elem?-get_or pieces i (omega arith)

get_or-All :
    (P : List ℕ → Type 0) (pieces : List (List ℕ)) (i : ℕ)
    → i < length pieces
    → All P pieces
    → P (get_or pieces i [])
get_or-All P [] i h all = elim h [ ]
get_or-All P (p ∷ pieces) zero h all = all.0
get_or-All P (p ∷ pieces) (suc i) h all = get_or-All P pieces i (omega arith) all.1

abbrev pub Fits : List ℕ → Type 0
Fits p = length p ≤ max_frag_payload

abbrev pub Below : ℕ → ℕ → Type 0
Below n i = i < n

-- A fragment of a packet of `n` that comes from `start` on, or a tick within the timeout after that.
abbrev pub Timely : ℕ → ℕ → Event → Type 0
Timely start n (arrives now i) = (i < n) × (start ≤ now)
Timely start n (ticks now) = now ≤ start + fragment_timeout

-- Reassembly is total and independent of order: once every fragment of a packet that is under way
-- since `start` and has room has arrived, in any order and with any repetitions, with ticks of the
-- cleanup loop between them that are not later than the timeout after `start` and nothing else, the
-- packet comes out, whole and unchanged, and nothing but that packet comes out before.
pub deliver_whole :
    (hash : FragmentKey → ℕ) (key : FragmentKey) (start : ℕ) (a : Assembler)
    (pieces : List (List ℕ)) (slots : List (Option (List ℕ))) (events : List Event)
    → Ready hash key start a pieces slots
    → All Fits pieces
    → All (Timely start (length pieces)) events
    → Covers slots (indices events)
    → deliver hash key a pieces events ≡ some (ok (concat pieces))
unfolding deliver
deliver_whole hash key start a pieces slots [] v fits timely covers = absurd (
    omega (
      arith,
      v.unfinished,
      length-Partial slots pieces v.partial,
      filled_all slots (λ i lt. stored i lt (covers i lt)),
    ))
  where
    stored :
        (i : ℕ) → i < length slots → (get_or slots i none ≢ none) ⊎ ⊥ → get_or slots i none ≢ none
    stored i lt (inl h) = h
    stored i lt (inr h) = absurd h
deliver_whole hash key start a pieces slots (ticks now ∷ events) v fits timely covers =
    deliver_whole hash key start (cleanup now a) pieces slots events
      (cleanup-Ready hash key now a start pieces slots timely.0 v) fits timely.1 covers
deliver_whole hash key start a pieces slots (arrives now i ∷ events) v fits timely covers =
    elim (add-Advances hash key start a now pieces slots i p v (get_elem?-get_or pieces i inside)
      (get_or-All Fits pieces i inside fits) timely.0.1) [
        | inl whole ↦ rw (whole, deliver)
        | inr (nothing, ready) ↦
            rw (nothing, deliver)
              (deliver_whole hash key start
                (add_fragment hash a now key.session_id key.frag_id i (length pieces)
                  (get_or pieces i [])).0
                pieces (set slots i (some p)) events ready fits timely.1
                (Covers-set slots i p (indices events) covers))
      ]
  where
    p : List ℕ
    p = get_or pieces i []

    inside : i < length pieces
    inside = timely.0.0
