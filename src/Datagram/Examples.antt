-- ===== src/Datagram/Examples.antt =====
-- The theorems on datagrams at concrete inputs, and runs of the encoder and the decoder.
use qmux.Base.{
  ℕ, ◌≡◌, refl, ◌+◌, ◌*◌, ◌%◌, ◌^◌, ◌≤◌, true, false, not, ◌&&◌, none, some, List, [], ◌∷◌, length,
  replicate, concat, arith, leb, ltb, if◌then◌else◌, length-replicate,
}
use qmux.Datagram.{
  Pool, IsDatagramPool, ok, err, decode, fragment_udp_pooled, fragment_identity, allocate_udp_epoch,
  max_udp_payload, max_frag_payload, fragmentation_disabled, packet_too_large, datagram_too_short,
  unknown_datagram_type, invalid_frag_total,
}
use qmux.Datagram.Decode.{normal_datagram}
use qmux.Datagram.Fragments.{Carries, error_of, fragment_large, fragment_outcome}
use qmux.Datagram.Strict.{encoding, IsValid, decode_canonical}
use qmux.Datagram.Epoch.{IsFreshEpoch, allocate_fresh}

abbrev stale_pool : Pool
stale_pool i = replicate 1200 (i + 9)

stale_pool-IsDatagramPool : IsDatagramPool stale_pool
stale_pool-IsDatagramPool i = length-replicate 1200 (i + 9)

abbrev hello : List ℕ
hello = 104 ∷ 105 ∷ []

abbrev long_payload : List ℕ
long_payload = replicate 1300 7

fragment_large_example :
    (ds : List (List ℕ)) × (pieces : List (List ℕ)) × (fragment_udp_pooled stale_pool 7 1
        long_payload 4 true
      ≡ (ok ds, (4 + 1) % 2 ^ 32))
    × Carries 7 (fragment_identity 1 ((4 + 1) % 2 ^ 32)) (length pieces) 0 ds pieces
    × (concat pieces ≡ long_payload)
    × (2 ≤ length pieces)
    × (length pieces ≤ 255)
fragment_large_example =
    fragment_large stale_pool 7 1 4 long_payload stale_pool-IsDatagramPool (omega arith)
      (omega arith) (omega arith)

fragment_outcome_example :
    let len = length long_payload in
    let (r, sequence') = fragment_udp_pooled stale_pool 7 1 long_payload 4 false in
    (error_of r ≡ (
      if leb len max_udp_payload
      then none
      else if not false
      then some fragmentation_disabled
      else if ltb (255 * max_frag_payload) len
      then some packet_too_large
      else none))
    × (sequence' ≡ (
        if ltb max_udp_payload len && false && leb len (255 * max_frag_payload)
        then (4 + 1) % 2 ^ 32
        else 4))
fragment_outcome_example = fragment_outcome stale_pool 7 1 4 long_payload false

abbrev hello_dgram : List ℕ
hello_dgram = 0x20 ∷ 0 ∷ 0 ∷ 1 ∷ 2 ∷ hello

decode_canonical_example :
    (hello_dgram ≡ encoding (normal_datagram 258 hello)) × IsValid (normal_datagram 258 hello)
unfolding decode
decode_canonical_example =
    decode_canonical hello_dgram (normal_datagram 258 hello) (omega arith) refl

allocate_fresh_example : IsFreshEpoch 4 (allocate_udp_epoch (6 ∷ 9 ∷ []) 5)
allocate_fresh_example = allocate_fresh 4 (6 ∷ 9 ∷ []) 5 (omega arith) (omega arith)

allocate_retries : allocate_udp_epoch (6 ∷ 9 ∷ []) 5 ≡ (some 10, 10)
unfolding allocate_udp_epoch
allocate_retries = refl

refused :
    (decode (0x20 ∷ 0 ∷ []) ≡ err datagram_too_short)
    × (decode (0x21 ∷ 0 ∷ 0 ∷ 0 ∷ 1 ∷ []) ≡ err unknown_datagram_type)
    × (decode (0x22 ∷ replicate 15 1) ≡ err invalid_frag_total)
unfolding decode
refused = (refl, refl, refl)
