-- ===== src/Datagram/Fragments.antt =====
-- `FragmentUDPPooled`: what it returns for every payload, and what its datagrams decode to.
use qmux.Base.{
  ℕ, zero, suc, ◌≡◌, refl, ap, ◌∙◌, ◌+◌, ◌*◌, ◌%◌, ◌^◌, ◌≤◌, ◌<◌, Bool, true, List, [], ◌∷◌, ◌++◌,
  length, take, drop, concat, arith, take-append-drop, length-take, length-drop, leb, ltb,
  if◌then◌else◌, not, ◌&&◌, Option, none, some,
}
use qmux.Base.Bytes.{IsU32, IsU64}
use qmux.Datagram.{
  Pool, IsDatagramPool, Error, Result, ok, err, packet_too_large, fragmentation_disabled,
  max_udp_payload, max_frag_payload, max_datagram_size, udp_fragment_header, fragment_identity,
  normal_result, fragment_result, frag_loop, num_fragments, fragment_udp_pooled, decode,
}
use qmux.Datagram.Buffers.{normal_result-eq, fragment_result-eq}
use qmux.Datagram.Decode.{normal_datagram, fragment_datagram, decode_header, decode_fragment_header}

-- The pieces that the rounds of the loop carry.
abbrev pub chunks : ℕ → List ℕ → List (List ℕ)
chunks zero rest = []
chunks (suc rounds) rest = take max_frag_payload rest ∷ chunks rounds (drop max_frag_payload rest)

pub length-chunks : (rounds : ℕ) (rest : List ℕ) → length (chunks rounds rest) ≡ rounds
length-chunks zero rest = refl
length-chunks (suc rounds) rest = ap suc (length-chunks rounds (drop max_frag_payload rest))

pub concat-chunks :
    (rounds : ℕ) (rest : List ℕ)
    → length rest ≤ rounds * max_frag_payload
    → concat (chunks rounds rest) ≡ rest
concat-chunks zero [] h = refl
concat-chunks zero (x ∷ xs) h = absurd (omega arith)
concat-chunks (suc rounds) rest h =
    ap (◌++◌ (take max_frag_payload rest)) (
      concat-chunks rounds (drop max_frag_payload rest)
        (omega (arith, length-drop max_frag_payload rest)))
    ∙ take-append-drop max_frag_payload rest

-- The datagrams decode to the fragments `index`, `index + 1`, … of `total` with these pieces, and
-- each fits its datagram.
abbrev pub Carries : ℕ → ℕ → ℕ → ℕ → List (List ℕ) → List (List ℕ) → Type 0
Carries session_id frag_id total index [] [] = Unit
Carries session_id frag_id total index (d ∷ ds) (p ∷ ps) =
    (decode d ≡ ok (fragment_datagram session_id frag_id index total p))
    × (length d ≤ max_datagram_size)
    × (length p ≤ max_frag_payload)
    × Carries session_id frag_id total (index + 1) ds ps
Carries session_id frag_id total index _ _ = ⊥

length-fragment_header :
    (session_id frag_id index total : ℕ) (piece : List ℕ)
    → length (udp_fragment_header session_id frag_id index total ++ piece) ≡ 15 + length piece
unfolding udp_fragment_header
length-fragment_header session_id frag_id index total piece = omega arith

frag_loop-Carries :
    (pool : Pool) (session_id frag_id total rounds index : ℕ) (rest : List ℕ)
    → IsDatagramPool pool
    → IsU32 session_id
    → IsU64 frag_id
    → 2 ≤ total
    → total ≤ 255
    → index + rounds ≡ total
    → rounds * max_frag_payload < length rest + max_frag_payload
    → Carries session_id frag_id total index
        (frag_loop pool session_id frag_id total rounds index rest)
        (chunks rounds rest)
unfolding frag_loop
frag_loop-Carries pool session_id frag_id total zero index rest hp hs hf h2 h255 hi hr = tt
frag_loop-Carries pool session_id frag_id total (suc rounds) index rest hp hs hf h2 h255 hi hr = (
  ap decode shape ∙ decoded,
  bounded,
  fits.1,
  frag_loop-Carries pool session_id frag_id total rounds (index + 1) (drop max_frag_payload rest) hp
      hs hf h2 h255 (omega arith) (omega (arith, length-drop max_frag_payload rest)),
)
  where
    piece : List ℕ
    piece = take max_frag_payload rest

    fits : (0 < length piece) × (length piece ≤ max_frag_payload)
    fits = (
      omega (arith, length-take max_frag_payload rest),
      omega (arith, length-take max_frag_payload rest),
    )

    small : (index % 256 ≡ index) × (total % 256 ≡ total)
    small = (omega arith, omega arith)

    shape :
        fragment_result (pool index) session_id frag_id index total piece
        ≡ udp_fragment_header session_id frag_id index total ++ piece
    shape =
        fragment_result-eq (pool index) session_id frag_id index total piece (hp index)
          (omega (arith, fits))
        ∙ rw (small.0, small.1) refl

    decoded :
        decode (udp_fragment_header session_id frag_id index total ++ piece)
        ≡ ok (fragment_datagram session_id frag_id index total piece)
    decoded =
        decode_fragment_header session_id frag_id index total piece hs hf h2 (omega arith) fits.0
          fits.1

    bounded :
        length (fragment_result (pool index) session_id frag_id index total piece)
        ≤ max_datagram_size
    bounded =
        omega (
          arith,
          ap length shape,
          length-fragment_header session_id frag_id index total piece,
          fits,
        )

pub fragment_identity-IsU64 : (epoch sequence : ℕ) → IsU64 (fragment_identity epoch sequence)
unfolding fragment_identity
fragment_identity-IsU64 epoch sequence = omega arith

-- A payload of at most 1195 bytes goes out as one datagram that decodes to it, whatever the flag
-- says and whatever the pooled buffer held; no sequence number is spent.
pub fragment_small :
    (pool : Pool) (session_id epoch sequence : ℕ) (payload : List ℕ) (enable : Bool)
    → IsDatagramPool pool
    → IsU32 session_id
    → length payload ≤ max_udp_payload
    → (d : List ℕ) × (fragment_udp_pooled pool session_id epoch payload sequence enable
        ≡ (ok (d ∷ []), sequence))
      × (decode d ≡ ok (normal_datagram session_id payload))
unfolding fragment_udp_pooled
fragment_small pool session_id epoch sequence payload enable hp hs small = (
  normal_result (pool 0) session_id payload,
  ground arith,
  ap decode (normal_result-eq (pool 0) session_id payload (hp 0) (omega arith))
      ∙ decode_header session_id payload hs small,
)

-- With fragmentation on, a payload of 1196 up to 255 * 1185 bytes goes out as two to 255 datagrams
-- of at most 1200 bytes. They decode to the fragments 0, 1, … of one packet, under the identity of
-- the epoch and the next sequence number, and their pieces in order make up the payload.
pub fragment_large :
    (pool : Pool) (session_id epoch sequence : ℕ) (payload : List ℕ)
    → IsDatagramPool pool
    → IsU32 session_id
    → max_udp_payload < length payload
    → length payload ≤ 255 * max_frag_payload
    → (ds : List (List ℕ)) × (pieces : List (List ℕ)) × (fragment_udp_pooled pool session_id epoch
          payload sequence true
        ≡ (ok ds, (sequence + 1) % 2 ^ 32))
      × Carries session_id
          (fragment_identity epoch ((sequence + 1) % 2 ^ 32))
          (length pieces)
          0
          ds
          pieces
      × (concat pieces ≡ payload)
      × (2 ≤ length pieces)
      × (length pieces ≤ 255)
unfolding fragment_udp_pooled num_fragments
fragment_large pool session_id epoch sequence payload hp hs large fits = (
  frag_loop pool session_id frag_id n n 0 payload,
  chunks n payload,
  ground arith,
  rw (length-chunks n payload) (
      frag_loop-Carries pool session_id frag_id n n 0 payload hp hs
        (fragment_identity-IsU64 epoch ((sequence + 1) % 2 ^ 32)) (omega arith) (omega arith)
        (omega arith) (omega arith)),
  concat-chunks n payload (omega arith),
  omega (arith, length-chunks n payload),
  omega (arith, length-chunks n payload),
)
  where
    n : ℕ
    n = num_fragments (length payload)

    frag_id : ℕ
    frag_id = fragment_identity epoch ((sequence + 1) % 2 ^ 32)

abbrev pub error_of {ℓ} : {A : Type ℓ} → Result A → Option Error
error_of (ok a) = none
error_of (err e) = some e

-- When the encoder refuses, and that it spends one sequence number exactly when it fragments: a
-- payload over 1195 bytes is refused with fragmentation off, one over 255 * 1185 bytes with it on,
-- and nothing else is.
pub fragment_outcome :
    (pool : Pool) (session_id epoch sequence : ℕ) (payload : List ℕ) (enable : Bool)
    → let len = length payload in
      let (r, sequence') = fragment_udp_pooled pool session_id epoch payload sequence enable in
      (error_of r ≡ (
        if leb len max_udp_payload
        then none
        else if not enable
        then some fragmentation_disabled
        else if ltb (255 * max_frag_payload) len
        then some packet_too_large
        else none))
      × (sequence' ≡ (
          if ltb max_udp_payload len && enable && leb len (255 * max_frag_payload)
          then (sequence + 1) % 2 ^ 32
          else sequence))
unfolding fragment_udp_pooled num_fragments
fragment_outcome pool session_id epoch sequence payload enable = (ground arith, ground arith)
