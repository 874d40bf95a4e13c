-- ===== src/Datagram/Buffers.antt =====
-- What the encoder leaves in a pooled buffer: the header and the payload, whatever stood there.
use qmux.Base.{ℕ, ◌≡◌, refl, ap, ◌+◌, ◌%◌, ◌≤◌, List, [], ◌∷◌, ◌++◌, length, take, arith}
use native.Mathlib.Nat.{zero-add, suc-add}
use qmux.Datagram.{
  copy, copy_at, header_size, frag_header_size, max_datagram_size, udp_header, udp_fragment_header,
  normal_result, fragment_result,
}

copy-nil : (buf : List ℕ) → copy buf [] ≡ buf
copy-nil [] = refl
copy-nil (b ∷ bs) = refl

take-copy :
    (buf piece : List ℕ) → length piece ≤ length buf → take (length piece) (copy buf piece) ≡ piece
take-copy [] [] h = refl
take-copy [] (p ∷ ps) h = absurd (omega arith)
take-copy (b ∷ bs) [] h = refl
take-copy (b ∷ bs) (p ∷ ps) h = ap (◌∷◌ p) (take-copy bs ps (omega arith))

take-copy_at :
    (buf header piece : List ℕ)
    → length header + length piece ≤ length buf
    → take (length header + length piece) (copy_at (length header) (copy buf header) piece)
      ≡ header ++ piece
take-copy_at buf [] piece h = rw (copy-nil, zero-add) (take-copy buf piece (omega arith))
take-copy_at [] (x ∷ xs) piece h = absurd (omega arith)
take-copy_at (b ∷ bs) (x ∷ xs) piece h =
    rw suc-add (ap (◌∷◌ x) (take-copy_at bs xs piece (omega arith)))

pub normal_result-eq :
    (buf : List ℕ) (session_id : ℕ) (payload : List ℕ)
    → length buf ≡ max_datagram_size
    → header_size + length payload ≤ max_datagram_size
    → normal_result buf session_id payload ≡ udp_header session_id ++ payload
unfolding normal_result udp_header
normal_result-eq buf session_id payload h fits =
    take-copy_at buf (udp_header session_id) payload (omega arith)

pub fragment_result-eq :
    (buf : List ℕ) (session_id frag_id index total : ℕ) (piece : List ℕ)
    → length buf ≡ max_datagram_size
    → frag_header_size + length piece ≤ max_datagram_size
    → fragment_result buf session_id frag_id index total piece
      ≡ udp_fragment_header session_id frag_id (index % 256) (total % 256) ++ piece
unfolding fragment_result udp_fragment_header
fragment_result-eq buf session_id frag_id index total piece h fits =
    take-copy_at buf (udp_fragment_header session_id frag_id (index % 256) (total % 256)) piece
      (omega arith)
