-- ===== src/Datagram/Strict.antt =====
-- `DecodeUDPDatagram` accepts nothing but encodings: what it accepts is written back byte for byte.
use qmux.Base.{ℕ, ◌≡◌, ◌≤◌, ◌<◌, true, false, List, ◌∷◌, ◌++◌, length, arith, All, if◌then◌else◌}
use qmux.Base.Bytes.{IsByte, IsU32, IsU64, put_u32-u32_of, u32_of_bound, put_u64-u32_of}
use qmux.Datagram.{
  Datagram, ok, max_udp_payload, max_frag_payload, datagram_type_normal, datagram_type_fragment,
  udp_header, udp_fragment_header, decode,
}

-- The datagram that the encoder writes for these fields.
abbrev pub encoding : Datagram → List ℕ
encoding g =
    if g.is_fragmented
    then udp_fragment_header g.session_id g.fragment_id g.fragment_index g.fragment_total
      ++ g.payload
    else udp_header g.session_id ++ g.payload

pub record IsValid (g : Datagram) : Type 0 where
  pub session_u32 : IsU32 g.session_id
  pub id_u64 : IsU64 g.fragment_id
  pub kind_eq : g.kind ≡ (if g.is_fragmented then datagram_type_fragment else datagram_type_normal)
  pub normal_fits : g.is_fragmented ≡ false → length g.payload ≤ max_udp_payload
  pub fragment_fits :
      g.is_fragmented ≡ true → (0 < length g.payload) × (length g.payload ≤ max_frag_payload)
  pub fragment_placed :
      g.is_fragmented ≡ true
      → (2 ≤ g.fragment_total) × (g.fragment_index < g.fragment_total) × IsByte g.fragment_total

-- Whatever the decoder accepts is a valid datagram and is exactly its encoding: no two byte strings
-- decode to the same datagram, and unknown types, bad totals, bad indices and stray lengths never
-- get through.
pub decode_canonical :
    (dgram : List ℕ) (g : Datagram)
    → All IsByte dgram
    → decode dgram ≡ ok g
    → (dgram ≡ encoding g) × IsValid g
unfolding decode udp_header udp_fragment_header
decode_canonical (t ∷ a ∷ b ∷ c ∷ d ∷ e ∷ f ∷ h ∷ i ∷ j ∷ k ∷ l ∷ m ∷ n ∷ o ∷ rest) g bytes eq =
    ground (
      arith,
      put_u32-u32_of a b c d,
      u32_of_bound a b c d,
      put_u64-u32_of e f h i j k l m,
      u32_of_bound e f h i,
      u32_of_bound j k l m,
    )
decode_canonical (t ∷ a ∷ b ∷ c ∷ d ∷ rest) g bytes eq =
    ground (arith, put_u32-u32_of a b c d, u32_of_bound a b c d)
decode_canonical _ g bytes eq = ground arith
