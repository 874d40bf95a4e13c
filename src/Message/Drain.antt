-- ===== src/Message/Drain.antt =====
-- The drain messages of protocol/codec.go, decoded strictly from the tokens of a JSON reader, and
-- the fence that they carry. The reader itself, jsontext, is not modelled: its tokens come as a
-- list whose end is io.EOF, with a token for text that is no JSON.
use mathlib.Core.Logic.{◌↔◌}
use qmux.Base.{
  ℕ, ◌≡◌, ap, ◌∙◌, ◌-◌, ◌%◌, ◌^◌, Bool, true, ◌&&◌, Option, none, some, List, [], ◌∷◌, leb, ◌==◌,
  if◌then◌else◌, arith, str_eq, str_eq_sound, str_eq_refl,
}
use qmux.Base.Bytes.{codes}

-- int64, as Go's two's complement reads: `negsuc n` is -(n + 1).
pub data ℤ : Type 0 where
  pos negsuc : ℕ → ℤ

-- `number none` is a number that `Token.Int` refuses.
pub data Token : Type 0 where
  begin_object end_object invalid : Token
  string : List ℕ → Token
  number : Option ℤ → Token
  other : Token

pub data Error : Type 0 where
  bad_start bad_member missing_fence unknown_member read_fence : Error
  not_a_number bad_integer not_closed trailing invalid_fence : Error

pub data Result {ℓ} (A : Type ℓ) : Type ℓ where
  ok : A → Result A
  err : Error → Result A

-- `quicvarint.Max`.
abbrev pub max_varint : ℕ
max_varint = 2 ^ 62 - 1

-- `ValidateDrainFence`; nil is `true`.
unfoldable pub validate_drain_fence : ℤ → Bool
validate_drain_fence (negsuc n) = n == 0
validate_drain_fence (pos n) = leb 1 n && leb n max_varint && n % 4 == 1

abbrev pub accept_fence : List ℕ
accept_fence = codes "AcceptFence"

-- `drainObjectEnd`.
unfoldable pub drain_object_end : List Token → Option Error
drain_object_end (end_object ∷ []) = none
drain_object_end (end_object ∷ t ∷ ts) = some trailing
drain_object_end _ = some not_closed

-- `DecodeDrainRequest`; nil is `none`.
unfoldable pub decode_drain_request : List Token → Option Error
unfolding drain_object_end
decode_drain_request (begin_object ∷ ts) = drain_object_end ts
decode_drain_request _ = some bad_start

-- From the fence's value on.
abbrev finish_fence : ℤ → Option Error → Result ℤ
finish_fence fence (some e) = err e
finish_fence fence none = if validate_drain_fence fence then ok fence else err invalid_fence

unfoldable pub decode_fence_value : List Token → Result ℤ
unfolding drain_object_end validate_drain_fence
decode_fence_value [] = err read_fence
decode_fence_value (invalid ∷ ts) = err read_fence
decode_fence_value (number none ∷ ts) = err bad_integer
decode_fence_value (number (some fence) ∷ ts) = finish_fence fence (drain_object_end ts)
decode_fence_value (t ∷ ts) = err not_a_number

unfoldable pub decode_member : List Token → Result ℤ
unfolding decode_fence_value
decode_member [] = err bad_member
decode_member (invalid ∷ ts) = err bad_member
decode_member (end_object ∷ ts) = err missing_fence
decode_member (string name ∷ ts) =
    if str_eq name accept_fence then decode_fence_value ts else err unknown_member
decode_member (t ∷ ts) = err unknown_member

-- `DecodeDrainComplete`.
unfoldable pub decode_drain_complete : List Token → Result ℤ
unfolding decode_member
decode_drain_complete (begin_object ∷ ts) = decode_member ts
decode_drain_complete _ = err bad_start

-- The tokens of the message that `WriteDrainComplete` writes.
abbrev pub drain_complete : ℤ → List Token
drain_complete fence = begin_object ∷ string accept_fence ∷ number (some fence) ∷ end_object ∷ []

-- A drain message with a valid fence is decoded to it.
drain_complete_decodes :
    (fence : ℤ)
    → validate_drain_fence fence ≡ true
    → decode_drain_complete (drain_complete fence) ≡ ok fence
unfolding decode_drain_complete decode_member decode_fence_value drain_object_end
drain_complete_decodes fence valid = ground (arith, str_eq_refl accept_fence)

decode_strict :
    (ts : List Token) (fence : ℤ)
    → decode_drain_complete ts ≡ ok fence
    → (ts ≡ drain_complete fence) × (validate_drain_fence fence ≡ true)
unfolding decode_drain_complete decode_member decode_fence_value drain_object_end
decode_strict (begin_object ∷ string name ∷ number (some f) ∷ end_object ∷ []) fence e =
    let named : name ≡ accept_fence = str_eq_sound name accept_fence (ground arith) in
    let same : f ≡ fence = ground arith in (cc (named, same), ground arith)
decode_strict ts fence e = ground arith

-- Exactly one sequence of tokens is decoded to a fence, the object with that member alone, and only
-- if the fence is valid.
pub decode_drain_complete_lem :
    (ts : List Token) (fence : ℤ)
    → (decode_drain_complete ts ≡ ok fence)
      ↔ ((ts ≡ drain_complete fence) × (validate_drain_fence fence ≡ true))
decode_drain_complete_lem ts fence = (
  decode_strict ts fence,
  λ both. ap decode_drain_complete both.0 ∙ drain_complete_decodes fence both.1,
)
