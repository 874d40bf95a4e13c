-- ===== src/Base/Bytes.antt =====
-- Byte strings as lists of numbers, and the big-endian integers of Go's `encoding/binary`.
use Prim.Native.Nat.{ℕ, ◌+◌, ◌*◌, ◌/◌, ◌%◌, ◌^◌, ◌<◌}
use Prim.Native.Char.{code}
use Prim.Native.String.{String}
use mathlib.Core.Path.{◌≡◌, ap, ◌∙◌}
use mathlib.Core.List.{List, [], ◌∷◌, ◌++◌}
use native.Mathlib.Omega.{arith}
use qmux.Base.Lists.{All}

-- The bytes of an ASCII text. `String` has its own `[]` and `∷`.
abbrev pub codes : String → List ℕ
codes String.[] = []
codes (String.◌∷◌ c s) = code c ∷ codes s

abbrev pub IsByte : ℕ → Type 0
IsByte b = b < 256

abbrev pub IsU32 : ℕ → Type 0
IsU32 v = v < 2 ^ 32

abbrev pub IsU64 : ℕ → Type 0
IsU64 v = v < 2 ^ 64

-- `binary.BigEndian.PutUint32` and `Uint32`.
abbrev pub put_u32 : ℕ → List ℕ
put_u32 v = (v / 2 ^ 24 % 256) ∷ (v / 2 ^ 16 % 256) ∷ (v / 2 ^ 8 % 256) ∷ (v % 256) ∷ []

abbrev pub u32_of : ℕ → ℕ → ℕ → ℕ → ℕ
u32_of a b c d = a * 2 ^ 24 + b * 2 ^ 16 + c * 2 ^ 8 + d

abbrev pub get_u32 : List ℕ → ℕ
get_u32 (a ∷ b ∷ c ∷ d ∷ rest) = u32_of a b c d
get_u32 _ = 0

-- `binary.BigEndian.PutUint64` and `Uint64`, as the two halves.
abbrev pub put_u64 : ℕ → List ℕ
put_u64 v = put_u32 (v / 2 ^ 32) ++ put_u32 (v % 2 ^ 32)

abbrev pub get_u64 : List ℕ → ℕ
get_u64 (a ∷ b ∷ c ∷ d ∷ rest) = u32_of a b c d * 2 ^ 32 + get_u32 rest
get_u64 _ = 0

pub get_u32-put_u32 : (v : ℕ) (rest : List ℕ) → IsU32 v → get_u32 (put_u32 v ++ rest) ≡ v
get_u32-put_u32 v rest h = omega arith

u32_digits :
    (a b c d : ℕ)
    → IsByte a
    → IsByte b
    → IsByte c
    → IsByte d
    → (u32_of a b c d / 2 ^ 24 % 256 ≡ a)
      × (u32_of a b c d / 2 ^ 16 % 256 ≡ b)
      × (u32_of a b c d / 2 ^ 8 % 256 ≡ c)
      × (u32_of a b c d % 256 ≡ d)
u32_digits a b c d ha hb hc hd = (omega arith, omega arith, omega arith, omega arith)

pub u32_of_bound :
    (a b c d : ℕ) → IsByte a → IsByte b → IsByte c → IsByte d → IsU32 (u32_of a b c d)
u32_of_bound a b c d ha hb hc hd = omega arith

-- Four bytes are the encoding of the number that they spell.
pub put_u32-u32_of :
    (a b c d : ℕ)
    → IsByte a
    → IsByte b
    → IsByte c
    → IsByte d
    → put_u32 (u32_of a b c d) ≡ a ∷ b ∷ c ∷ d ∷ []
put_u32-u32_of a b c d ha hb hc hd = let (p, q, r, s) = u32_digits a b c d ha hb hc hd in cc

pub put_u32_bytes : (v : ℕ) → All IsByte (put_u32 v)
put_u32_bytes v = omega arith

pub get_u64-put_u64 : (v : ℕ) (rest : List ℕ) → IsU64 v → get_u64 (put_u64 v ++ rest) ≡ v
get_u64-put_u64 v rest h = omega (
  arith,
  get_u32-put_u32 (v / 2 ^ 32) (put_u32 (v % 2 ^ 32) ++ rest),
  get_u32-put_u32 (v % 2 ^ 32) rest,
)

u64_halves : (p q : ℕ) → IsU32 q → ((p * 2 ^ 32 + q) / 2 ^ 32 ≡ p) × ((p * 2 ^ 32 + q) % 2 ^ 32 ≡ q)
u64_halves p q hq = (omega arith, omega arith)

pub put_u64-u32_of :
    (a b c d e f g h : ℕ)
    → IsByte a
    → IsByte b
    → IsByte c
    → IsByte d
    → IsByte e
    → IsByte f
    → IsByte g
    → IsByte h
    → put_u64 (u32_of a b c d * 2 ^ 32 + u32_of e f g h) ≡ a ∷ b ∷ c ∷ d ∷ e ∷ f ∷ g ∷ h ∷ []
put_u64-u32_of a b c d e f g h ha hb hc hd he hf hg hh =
    let (p, q) = u64_halves (u32_of a b c d) (u32_of e f g h) (u32_of_bound e f g h he hf hg hh) in
    rw (p, q)
      (ap (λ (xs : List ℕ). xs ++ put_u32 (u32_of e f g h)) (put_u32-u32_of a b c d ha hb hc hd)
        ∙ ap (λ xs. a ∷ b ∷ c ∷ d ∷ xs) (put_u32-u32_of e f g h he hf hg hh))
