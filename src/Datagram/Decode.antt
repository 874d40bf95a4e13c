-- ===== src/Datagram/Decode.antt =====
-- The strict decoder on what the encoder writes.
use qmux.Base.{ℕ, ◌≡◌, ◌≤◌, ◌<◌, true, false, List, ◌∷◌, ◌++◌, length, arith}
use qmux.Base.Bytes.{IsU32, IsU64, put_u64, get_u32-put_u32, get_u64-put_u64}
use qmux.Datagram.{
  Datagram, ok, max_udp_payload, max_frag_payload, datagram_type_normal, datagram_type_fragment,
  udp_header, udp_fragment_header, decode,
}

abbrev pub normal_datagram : ℕ → List ℕ → Datagram
normal_datagram session_id payload = record {
  kind = datagram_type_normal;
  session_id = session_id;
  is_fragmented = false;
  fragment_id = 0;
  fragment_index = 0;
  fragment_total = 0;
  payload = payload;
}

abbrev pub fragment_datagram : ℕ → ℕ → ℕ → ℕ → List ℕ → Datagram
fragment_datagram session_id frag_id index total payload = record {
  kind = datagram_type_fragment;
  session_id = session_id;
  is_fragmented = true;
  fragment_id = frag_id;
  fragment_index = index;
  fragment_total = total;
  payload = payload;
}

pub decode_header :
    (session_id : ℕ) (payload : List ℕ)
    → IsU32 session_id
    → length payload ≤ max_udp_payload
    → decode (udp_header session_id ++ payload) ≡ ok (normal_datagram session_id payload)
unfolding decode udp_header
decode_header session_id payload h fits = ground (arith, get_u32-put_u32 session_id payload)

pub decode_fragment_header :
    (session_id frag_id index total : ℕ) (payload : List ℕ)
    → IsU32 session_id
    → IsU64 frag_id
    → 2 ≤ total
    → index < total
    → 0 < length payload
    → length payload ≤ max_frag_payload
    → decode (udp_fragment_header session_id frag_id index total ++ payload)
      ≡ ok (fragment_datagram session_id frag_id index total payload)
unfolding decode udp_fragment_header
decode_fragment_header session_id frag_id index total payload hs hf ht hi hn fits = ground (
  arith,
  get_u32-put_u32 session_id (put_u64 frag_id ++ (index ∷ total ∷ payload)),
  get_u64-put_u64 frag_id (index ∷ total ∷ payload),
)
