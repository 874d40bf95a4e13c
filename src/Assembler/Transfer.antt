-- ===== src/Assembler/Transfer.antt =====
-- From `FragmentUDPPooled` on one side to `DecodeAndAssembleUDPDatagram` on the other.
use native.Mathlib.Nat.{add-zero}
use mathlib.Core.Path.{subst, subst₂}
use qmux.Base.{
  ℕ, zero, suc, ◌≡◌, refl, sym, ap, ◌∙◌, ◌+◌, ◌*◌, ◌%◌, ◌^◌, ◌≤◌, ◌<◌, true, false, Option, none,
  some, List, [], ◌∷◌, length, get_or, replicate, concat, arith, All, inr, length-replicate,
}
use qmux.Base.Bytes.{IsU32}
use qmux.Datagram.{
  Pool, IsDatagramPool, Result, ok, err, decode, fragment_udp_pooled, fragment_identity,
  max_udp_payload, max_frag_payload,
}
use qmux.Datagram.Decode.{fragment_datagram}
use qmux.Datagram.Fragments.{Carries, fragment_large, fragment_outcome}
use qmux.Assembler.{
  key_Eq, FragmentKey, Assembler, fragment_group_limit, fragment_byte_limit, add_fragment,
  shard_index, decode_and_assemble,
}
use qmux.Assembler.Reassembly.{Ready, view}
use qmux.Assembler.Slots.{replicate-Partial, filled-replicate}
use qmux.Assembler.Delivery.{
  In, Below, Fits, Event, arrives, indices, Timely, deliver, deliver_whole,
}

module _ (hash : FragmentKey → ℕ) where
  -- The receiver's loop over the datagrams of one packet, until one does more than wait.
  pub receive : Option Assembler → ℕ → List (List ℕ) → Option (Result (ℕ × Option (List ℕ)))
  receive a now [] = none
  receive a now (d ∷ ds) =
      let (a', r) = decode_and_assemble hash d a now in
      let rest = receive a' (now + 1) ds in
      elim r [
        | err e ↦ some (err e)
        | ok (session_id, packet, true) ↦ some (ok (session_id, packet))
        | ok (session_id, packet, false) ↦ rest
      ]

-- The datagrams in the order in which they arrive.
abbrev pub arrivals : List (List ℕ) → List ℕ → List (List ℕ)
arrivals ds [] = []
arrivals ds (i ∷ order) = get_or ds i [] ∷ arrivals ds order

Carries-get_or :
    (session_id frag_id total index : ℕ) (ds pieces : List (List ℕ)) (i : ℕ)
    → Carries session_id frag_id total index ds pieces
    → i < length pieces
    → (decode (get_or ds i [])
        ≡ ok (fragment_datagram session_id frag_id (index + i) total (get_or pieces i [])))
      × (length (get_or pieces i []) ≤ max_frag_payload)
Carries-get_or session_id frag_id total index [] [] i c lt = elim lt [ ]
Carries-get_or session_id frag_id total index [] (p ∷ pieces) i c lt = absurd c
Carries-get_or session_id frag_id total index (d ∷ ds) [] i c lt = absurd c
Carries-get_or session_id frag_id total index (d ∷ ds) (p ∷ pieces) zero c lt =
    (rw add-zero c.0, c.2)
Carries-get_or session_id frag_id total index (d ∷ ds) (p ∷ pieces) (suc i) c lt =
    let (decoded, fits) =
      Carries-get_or session_id frag_id total (index + 1) ds pieces i c.3 (omega arith) in
    (
      decoded
          ∙ ap (λ (k : ℕ). ok (fragment_datagram session_id frag_id k total (get_or pieces i [])))
              (omega arith),
      fits,
    )

-- The arrivals of `receive`, one unit of time after the other.
in_turn : ℕ → List ℕ → List Event
in_turn now [] = []
in_turn now (i ∷ order) = arrives now i ∷ in_turn (now + 1) order

indices-in_turn : (now : ℕ) (order : List ℕ) → indices (in_turn now order) ≡ order
unfolding in_turn
indices-in_turn now [] = refl
indices-in_turn now (i ∷ order) = ap (λ l. i ∷ l) (indices-in_turn (now + 1) order)

in_turn-Timely :
    (start now n : ℕ) (order : List ℕ)
    → start ≤ now
    → All (Below n) order
    → All (Timely start n) (in_turn now order)
unfolding in_turn
in_turn-Timely start now n [] later below = tt
in_turn-Timely start now n (i ∷ order) later below =
    ((below.0, later), in_turn-Timely start (now + 1) n order (omega arith) below.1)

module _ (hash : FragmentKey → ℕ) (session_id frag_id : ℕ) (ds pieces : List (List ℕ))
    (carried : Carries session_id frag_id (length pieces) 0 ds pieces) where
  abbrev packet_key : FragmentKey
  packet_key = record { session_id = session_id; frag_id = frag_id }

  receive-deliver :
      (a : Assembler) (now : ℕ) (order : List ℕ) (packet : List ℕ)
      → All (Below (length pieces)) order
      → deliver hash packet_key a pieces (in_turn now order) ≡ some (ok packet)
      → receive hash (some a) now (arrivals ds order) ≡ some (ok (session_id, some packet))
  unfolding deliver receive decode_and_assemble in_turn
  receive-deliver a now [] packet below e = cc
  receive-deliver a now (i ∷ order) packet below e =
      let r = add_fragment hash a now session_id frag_id i (length pieces) (get_or pieces i []) in
      ground (
        arith,
        (Carries-get_or session_id frag_id (length pieces) 0 ds pieces i carried below.0).0,
        receive-deliver r.0 (now + 1) order packet below.1,
      )

-- The receiver can take a packet under this key: it knows nothing of it yet, and it has room for
-- one more group and for 255 more buffers.
pub record HasRoom (hash : FragmentKey → ℕ) (a : Assembler) (key : FragmentKey) : Type 0 where
  pub live : a.closed ≡ false
  pub sharded : shard_index hash a key < length a.shards
  pub unseen : view hash key a ≡ none
  pub group_room : a.counters.retained_groups < fragment_group_limit a.max_groups
  pub byte_room :
      a.counters.retained_bytes + 255 * max_frag_payload ≤ fragment_byte_limit a.max_bytes

abbrev pub CoversAll : ℕ → List ℕ → Type 0
CoversAll n order = (i : ℕ) → i < n → In i order

pub room-Ready :
    (hash : FragmentKey → ℕ) (start : ℕ) (a : Assembler) (key : FragmentKey)
    (pieces : List (List ℕ))
    → HasRoom hash a key
    → 2 ≤ length pieces
    → length pieces ≤ 255
    → Ready hash key start a pieces (replicate (length pieces) none)
room-Ready hash start a key pieces v h2 h255 = record {
  live = v.live;
  index_ok = v.sharded;
  several = h2;
  few = h255;
  partial = replicate-Partial pieces;
  unfinished = omega (arith, filled-replicate (length pieces));
  content = rw (v.unseen) refl;
  group_room = λ _. v.group_room;
  byte_room = ground (arith, v, filled-replicate (length pieces));
  created = λ g at. cc (v.unseen);
}

Carries-Fits :
    (session_id frag_id total index : ℕ) (ds pieces : List (List ℕ))
    → Carries session_id frag_id total index ds pieces
    → All Fits pieces × (length ds ≡ length pieces)
Carries-Fits session_id frag_id total index [] [] c = (tt, refl)
Carries-Fits session_id frag_id total index [] (p ∷ pieces) c = absurd c
Carries-Fits session_id frag_id total index (d ∷ ds) [] c = absurd c
Carries-Fits session_id frag_id total index (d ∷ ds) (p ∷ pieces) c =
    let (fits, same) = Carries-Fits session_id frag_id total (index + 1) ds pieces c.3 in
    ((c.2, fits), ap suc same)

-- Whatever order the network brings the datagrams of a fragmented packet in, and however often it
-- repeats them: once each has arrived at a receiver with room, the receiver has handed out exactly
-- the session and the payload that went in, and nothing else before.
pub transfer :
    (pool : Pool) (hash : FragmentKey → ℕ) (session_id epoch sequence sequence' now : ℕ)
    (payload : List ℕ) (ds : List (List ℕ)) (a : Assembler) (order : List ℕ)
    → IsDatagramPool pool
    → IsU32 session_id
    → max_udp_payload < length payload
    → fragment_udp_pooled pool session_id epoch payload sequence true ≡ (ok ds, sequence')
    → HasRoom hash a
        (record { session_id = session_id; frag_id = fragment_identity epoch sequence' })
    → All (Below (length ds)) order
    → CoversAll (length ds) order
    → receive hash (some a) now (arrivals ds order) ≡ some (ok (session_id, some payload))
transfer pool hash session_id epoch sequence sequence' now payload ds a order hp hs large sent room
      below covers =
    let (ds', pieces, sent', carried, whole, h2, h255) =
      fragment_large pool session_id epoch sequence payload hp hs large (accepted sent) in
    let same : ds' ≡ ds = cc in
    let later : (sequence + 1) % 2 ^ 32 ≡ sequence' = cc in
    finish pieces
      (subst₂
        (λ sent_ds s.
          Carries session_id (fragment_identity epoch s) (length pieces) 0 sent_ds pieces)
        same later carried)
      whole h2 h255
  where
    accepted :
        fragment_udp_pooled pool session_id epoch payload sequence true ≡ (ok ds, sequence')
        → length payload ≤ 255 * max_frag_payload
    accepted e = ground (arith, fragment_outcome pool session_id epoch sequence payload true)

    finish :
        (pieces : List (List ℕ))
        → Carries session_id (fragment_identity epoch sequence') (length pieces) 0 ds pieces
        → concat pieces ≡ payload
        → 2 ≤ length pieces
        → length pieces ≤ 255
        → receive hash (some a) now (arrivals ds order) ≡ some (ok (session_id, some payload))
    finish pieces carried whole h2 h255 =
        let (fits, same) =
          Carries-Fits session_id (fragment_identity epoch sequence') (length pieces) 0 ds pieces
            carried in
        receive-deliver hash session_id (fragment_identity epoch sequence') ds pieces carried a now
          order payload (rw same at below)
          (deliver_whole hash _ now a pieces (replicate (length pieces) none) (in_turn now order)
              (room-Ready hash now a _ pieces room h2 h255) fits
              (in_turn-Timely now now (length pieces) order (omega arith) (rw same at below))
              (λ i lt. inr (
                subst (In i) (sym (indices-in_turn now order)) (
                  covers i (
                    omega (
                      arith,
                      same,
                      length-replicate {0} {A = Option (List ℕ)} (length pieces) none,
                    )))))
            ∙ rw whole)
