-- ===== src/Datagram.antt =====
-- The UDP wire v2 datagrams of protocol/udp_fragment.go: constants, errors, the headers, the strict
-- decoder, the fragmenting encoder and the epoch allocator. A byte slice is a list of numbers.
pub mod Buffers
pub mod Decode
pub mod Fragments
pub mod Strict
pub mod Epoch
mod Examples
use qmux.Base.{
  ℕ, zero, suc, ◌≡◌, ◌+◌, ◌-◌, ◌*◌, ◌/◌, ◌%◌, ◌^◌, Bool, true, false, List, [], ◌∷◌, ◌++◌, Option,
  none, some, ltb, leb, ◌==◌, if◌then◌else◌, length, get_or, take, drop,
}
use qmux.Base.Bytes.{put_u32, get_u32, put_u64, get_u64}

abbrev pub datagram_type_normal : ℕ
datagram_type_normal = 0x20

abbrev pub datagram_type_fragment : ℕ
datagram_type_fragment = 0x22

abbrev pub header_size : ℕ
header_size = 5

abbrev pub frag_header_size : ℕ
frag_header_size = 15

abbrev pub max_datagram_size : ℕ
max_datagram_size = 1200

abbrev pub max_udp_payload : ℕ
max_udp_payload = max_datagram_size - header_size

abbrev pub max_frag_payload : ℕ
max_frag_payload = max_datagram_size - frag_header_size

pub data Error : Type 0 where
  packet_too_large invalid_frag_index fragment_total_mismatch : Error
  datagram_too_short datagram_too_large unknown_datagram_type : Error
  invalid_frag_total empty_fragment_payload fragment_assembler_nil : Error
  fragment_assembler_closed fragment_assembler_full fragmentation_disabled : Error

-- Go's (value, error) pair.
pub data Result {ℓ} (A : Type ℓ) : Type ℓ where
  ok : A → Result A
  err : Error → Result A

pub record Datagram : Type 0 where
  pub kind : ℕ
  pub session_id : ℕ
  pub is_fragmented : Bool
  pub fragment_id : ℕ
  pub fragment_index : ℕ
  pub fragment_total : ℕ
  pub payload : List ℕ

unfoldable pub udp_header : ℕ → List ℕ
udp_header session_id = datagram_type_normal ∷ put_u32 session_id

unfoldable pub udp_fragment_header : ℕ → ℕ → ℕ → ℕ → List ℕ
udp_fragment_header session_id frag_id index total =
    (datagram_type_fragment ∷ put_u32 session_id) ++ (put_u64 frag_id ++ (index ∷ total ∷ []))

-- Go's `copy(dst[off:], src)`: what fits is written, and the rest of `dst` stays.
abbrev pub copy : List ℕ → List ℕ → List ℕ
copy [] src = []
copy (d ∷ dst) [] = d ∷ dst
copy (d ∷ dst) (s ∷ src) = s ∷ copy dst src

abbrev pub copy_at : ℕ → List ℕ → List ℕ → List ℕ
copy_at off dst src = take off dst ++ copy (drop off dst) src

-- `uint64(epoch)<<32 | uint64(sequence)`: the operands are 32 bits wide, so the sum is the union.
unfoldable pub fragment_identity : ℕ → ℕ → ℕ
fragment_identity epoch sequence = (epoch * 2 ^ 32 + sequence) % 2 ^ 64

-- `validateFragmentInput`: the error, if there is one.
unfoldable pub validate_fragment_input : ℕ → ℕ → Option Error
validate_fragment_input index total =
    if ltb total 2
    then some invalid_frag_total
    else if leb total index
    then some invalid_frag_index
    else none

decode_normal : List ℕ → Datagram
decode_normal dgram = record {
  kind = datagram_type_normal;
  session_id = get_u32 (drop 1 dgram);
  is_fragmented = false;
  fragment_id = 0;
  fragment_index = 0;
  fragment_total = 0;
  payload = drop header_size dgram;
}

decode_fragment : List ℕ → Result Datagram
decode_fragment dgram =
    let total = get_or dgram 14 0 in
    let index = get_or dgram 13 0 in
    if ltb (length dgram) frag_header_size
    then err datagram_too_short
    else if length dgram == frag_header_size
    then err empty_fragment_payload
    else if ltb total 2
    then err invalid_frag_total
    else if leb total index
    then err invalid_frag_index
    else ok (record {
      kind = datagram_type_fragment;
      session_id = get_u32 (drop 1 dgram);
      is_fragmented = true;
      fragment_id = get_u64 (drop 5 dgram);
      fragment_index = index;
      fragment_total = total;
      payload = drop frag_header_size dgram;
    })

-- `DecodeUDPDatagram`.
unfoldable pub decode : List ℕ → Result Datagram
unfolding decode_normal decode_fragment
decode dgram =
    if ltb (length dgram) header_size
    then err datagram_too_short
    else if ltb max_datagram_size (length dgram)
    then err datagram_too_large
    else if get_or dgram 0 0 == datagram_type_normal
    then ok (decode_normal dgram)
    else if get_or dgram 0 0 == datagram_type_fragment
    then decode_fragment dgram
    else err unknown_datagram_type

-- `GetDatagramBuffer` hands out buffers of 1200 bytes with stale content: `pool i` is the content of
-- the buffer that the call takes as its `i`-th. A result is the slice `Data` of its buffer.
abbrev pub Pool : Type 0
Pool = ℕ → List ℕ

abbrev pub IsDatagramPool : Pool → Type 0
IsDatagramPool pool = (i : ℕ) → length (pool i) ≡ max_datagram_size

pub normal_result : List ℕ → ℕ → List ℕ → List ℕ
normal_result buf session_id payload =
    take (header_size + length payload)
      (copy_at header_size (copy_at 0 buf (udp_header session_id)) payload)

pub fragment_result : List ℕ → ℕ → ℕ → ℕ → ℕ → List ℕ → List ℕ
fragment_result buf session_id frag_id index total piece = take (frag_header_size + length piece) (
    copy_at frag_header_size
      (copy_at 0 buf (udp_fragment_header session_id frag_id (index % 256) (total % 256))) piece)

-- The loop of `FragmentUDPPooled`, with `rounds` fragments left, the next one being `index`; the
-- list is what stands behind `offset`.
pub frag_loop : Pool → ℕ → ℕ → ℕ → ℕ → ℕ → List ℕ → List (List ℕ)
unfolding fragment_result
frag_loop pool session_id frag_id total zero index rest = []
frag_loop pool session_id frag_id total (suc rounds) index rest =
    fragment_result (pool index) session_id frag_id index total (take max_frag_payload rest)
    ∷ frag_loop pool session_id frag_id total rounds (index + 1) (drop max_frag_payload rest)

unfoldable pub num_fragments : ℕ → ℕ
num_fragments len = (len + max_frag_payload - 1) / max_frag_payload

-- `FragmentUDPPooled`: the datagrams, and the value of `fragmentSequence` (a wrapping uint32) after.
unfoldable pub fragment_udp_pooled : Pool → ℕ → ℕ → List ℕ → ℕ → Bool → Result (List (List ℕ)) × ℕ
unfolding normal_result frag_loop num_fragments
fragment_udp_pooled pool session_id epoch payload sequence enable =
    let n = num_fragments (length payload) in
    let sequence' = (sequence + 1) % 2 ^ 32 in
    if leb (length payload) max_udp_payload
    then (ok (normal_result (pool 0) session_id payload ∷ []), sequence)
    else if enable
    then (if ltb 255 n then (err packet_too_large, sequence) else (
      ok (frag_loop pool session_id (fragment_identity epoch sequence') n n 0 payload),
      sequence',
    ))
    else (err fragmentation_disabled, sequence)

-- `AllocateUDPEpoch`. The list holds what other goroutines leave in the counter between each `Load`
-- and its `CompareAndSwap`; once it is used up nobody interferes. The counter is the second part.
unfoldable pub allocate_udp_epoch : List ℕ → ℕ → Option ℕ × ℕ
allocate_udp_epoch [] current =
    if current == 2 ^ 32 - 1 then (none, current) else (some (current + 1), current + 1)
allocate_udp_epoch (seen ∷ later) current =
    let retry = allocate_udp_epoch later seen in
    if current == 2 ^ 32 - 1
    then (none, current)
    else if seen == current
    then (some (current + 1), current + 1)
    else retry
