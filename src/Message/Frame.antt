-- ===== src/Message/Frame.antt =====
-- The framing of protocol/codec.go: one byte of type, four bytes of length, the payload. The JSON
-- codec and the writer are parameters; a reader is the bytes that are still to come.
use qmux.Base.{
  ℕ, ◌≡◌, refl, sym, ap, ◌∙◌, ◌*◌, ◌%◌, ◌^◌, ◌≤◌, not, Option, none, some, List, [], ◌∷◌, ◌++◌, ltb,
  ◌==◌, if◌then◌else◌, arith, length, take, drop, All, length-append, length-take, take-append,
  take-append-drop,
}
use qmux.Base.Bytes.{IsByte, IsU32, put_u32, get_u32, put_u32-u32_of, u32_of, u32_of_bound}

pub data Error : Type 0 where
  marshal_payload payload_too_large write_failed short_write : Error
  read_header read_payload unmarshal_payload unexpected_type : Error

pub data Result {ℓ} (A : Type ℓ) : Type ℓ where
  ok : A → Result A
  err : Error → Result A

abbrev pub max_payload_size : ℕ
max_payload_size = 10 * 1024 * 1024

abbrev pub max_registration_payload_size : ℕ
max_registration_payload_size = 4 * 1024

-- The bytes of a message as they are handed to the writer.
abbrev pub frame : ℕ → List ℕ → List ℕ
frame msg_type data' = msg_type ∷ (put_u32 (length data' % 2 ^ 32) ++ data')

-- A writer says how many bytes it took, or fails.
abbrev pub Writer : Type 0
Writer = List ℕ → Result ℕ

-- The check after `w.Write`.
abbrev pub written : List ℕ → Result ℕ → Option Error
written bytes (err e) = some write_failed
written bytes (ok n) = if n == length bytes then none else some short_write

-- `writeEncodedMessage`; nil is `none`.
unfoldable pub write_encoded_message : Writer → ℕ → List ℕ → Option Error
write_encoded_message writer msg_type data' =
    written (frame msg_type data') (writer (frame msg_type data'))

-- `io.ReadFull`: the bytes and what follows them.
unfoldable pub read_full : ℕ → List ℕ → Option (List ℕ × List ℕ)
read_full n stream = if ltb (length stream) n then none else some (take n stream, drop n stream)

abbrev read_body : ℕ → ℕ → ℕ → List ℕ → Result (ℕ × List ℕ × List ℕ)
read_body max msg_type len stream =
    if ltb max len then err payload_too_large else elim (read_full len stream) [
      | none ↦ err read_payload
      | some (payload, rest) ↦ ok (msg_type, payload, rest)
    ]

abbrev read_length : ℕ → List ℕ → List ℕ → Result (ℕ × List ℕ × List ℕ)
read_length max [] rest = err read_header
read_length max (msg_type ∷ header) rest = read_body max msg_type (get_u32 header) rest

abbrev read_rest : ℕ → Option (List ℕ × List ℕ) → Result (ℕ × List ℕ × List ℕ)
read_rest max none = err read_header
read_rest max (some (header, rest)) = read_length max header rest

-- `ReadMessageLimited`: type, payload and the bytes left in the reader.
unfoldable pub read_message_limited : ℕ → List ℕ → Result (ℕ × List ℕ × List ℕ)
unfolding read_full
read_message_limited max stream = read_rest max (read_full 5 stream)

-- `ReadMessage`.
unfoldable pub read_message : List ℕ → Result (ℕ × List ℕ × List ℕ)
read_message = read_message_limited max_payload_size

module _ {A : Type 0} (marshal : A → Option (List ℕ)) where
  -- `WriteMessage`.
  unfoldable pub write_message : Writer → ℕ → A → Option Error
  write_message writer msg_type payload = elim (marshal payload) [
    | none ↦ some marshal_payload
    | some data' ↦ write_encoded_message writer msg_type data'
  ]

  -- `writeMessageLimited`.
  unfoldable pub write_message_limited : Writer → ℕ → A → ℕ → Option Error
  write_message_limited writer msg_type payload max = elim (marshal payload) [
    | none ↦ some marshal_payload
    | some data' ↦
        if ltb max (length data')
        then some payload_too_large
        else write_encoded_message writer msg_type data'
  ]

module _ {A : Type 0} (unmarshal : List ℕ → Option A) where
  abbrev decode_typed : ℕ → Result (ℕ × List ℕ × List ℕ) → Result (A × List ℕ)
  decode_typed expected (err e) = err e
  decode_typed expected (ok (msg_type, payload, rest)) =
      if not (msg_type == expected)
      then err unexpected_type
      else elim (unmarshal payload) [ none ↦ err unmarshal_payload | some msg ↦ ok (msg, rest) ]

  -- `ReadTypedMessageLimited`, with `DecodeMessage`.
  unfoldable pub read_typed_message_limited : ℕ → ℕ → List ℕ → Result (A × List ℕ)
  unfolding read_message_limited
  read_typed_message_limited max expected stream =
      decode_typed expected (read_message_limited max stream)

drop-append {ℓ} : {A : Type ℓ} (xs ys : List A) → drop (length xs) (xs ++ ys) ≡ ys
drop-append [] ys = refl
drop-append (x ∷ xs) ys = drop-append xs ys

read_full-append : (xs ys : List ℕ) → read_full (length xs) (xs ++ ys) ≡ some (xs, ys)
unfolding read_full
read_full-append xs ys = ground (arith, length-append xs ys, take-append xs ys, drop-append xs ys)

read_body_whole :
    (max msg_type : ℕ) (data' rest : List ℕ)
    → length data' ≤ max
    → read_body max msg_type (length data') (data' ++ rest) ≡ ok (msg_type, data', rest)
read_body_whole max msg_type data' rest fits =
    let whole : read_full (length data') (data' ++ rest) ≡ some (data', rest) =
      read_full-append data' rest in
    ground arith

-- A message within the reader's limit is read back with its type, whatever follows it, and the
-- reader is left at what follows.
pub read_written :
    (max msg_type : ℕ) (data' rest : List ℕ)
    → length data' ≤ max
    → IsU32 max
    → read_message_limited max (frame msg_type data' ++ rest) ≡ ok (msg_type, data', rest)
unfolding read_message_limited
read_written max msg_type data' rest fits small =
    let n : ℕ = length data' % 2 ^ 32 in
    let exact : get_u32 (put_u32 n) ≡ length data' = omega arith in
    ap (read_rest max) (read_full-append (msg_type ∷ put_u32 n) (data' ++ rest))
    ∙ ap (λ (len : ℕ). read_body max msg_type len (data' ++ rest)) exact
    ∙ read_body_whole max msg_type data' rest fits

read_body_exact :
    (max t len : ℕ) (stream : List ℕ) (msg_type : ℕ) (payload rest : List ℕ)
    → read_body max t len stream ≡ ok (msg_type, payload, rest)
    → (t ≡ msg_type) × (len ≡ length payload) × (stream ≡ payload ++ rest) × (len ≤ max)
unfolding read_full
read_body_exact max t len stream msg_type payload rest e =
    ground (arith, length-take len stream, take-append-drop len stream)

read_header_exact :
    (max t a b c d : ℕ) (s : List ℕ)
    → read_message_limited max (t ∷ a ∷ b ∷ c ∷ d ∷ s) ≡ read_body max t (u32_of a b c d) s
unfolding read_message_limited
read_header_exact max t a b c d s = ap (read_rest max) (read_full-append (t ∷ a ∷ b ∷ c ∷ d ∷ []) s)

-- Whatever is read from a byte stream was framed there, and is within the reader's limit.
pub read_exact :
    (max : ℕ) (stream : List ℕ) (msg_type : ℕ) (payload rest : List ℕ)
    → All IsByte stream
    → read_message_limited max stream ≡ ok (msg_type, payload, rest)
    → (stream ≡ frame msg_type payload ++ rest) × (length payload ≤ max)
unfolding read_message_limited read_full
read_exact max (t ∷ a ∷ b ∷ c ∷ d ∷ s) msg_type payload rest (_, (ba, (bb, (bc, (bd, _))))) e =
    let (same, exact, split, fits) =
      read_body_exact max t (u32_of a b c d) s msg_type payload rest
        (sym (read_header_exact max t a b c d s) ∙ e) in
    let len : length payload % 2 ^ 32 ≡ u32_of a b c d =
      omega (arith, u32_of_bound a b c d ba bb bc bd) in
    let digits : put_u32 (length payload % 2 ^ 32) ≡ a ∷ b ∷ c ∷ d ∷ [] =
      ap put_u32 len ∙ put_u32-u32_of a b c d ba bb bc bd in
    (cc (same, split, digits), omega arith)
read_exact max _ msg_type payload rest bytes e = ground arith
