-- ===== src/Prelude/Words.antt =====
-- Machine words as native numbers, and their little-endian bytes.
use Prim.Native.Nat.{ℕ, ◌+◌, ◌-◌, ◌*◌, ◌/◌, ◌%◌, ◌^◌, ◌<◌, bit_or}
use mathlib.Core.Path.{◌≡◌, ap}
use mathlib.Core.Bool.{Bool}
use mathlib.Core.List.{List, [], ◌∷◌}
use native.Mathlib.Omega.{arith}
use k230_lr2021_radio.Prelude.Tests.{leb}
use k230_lr2021_radio.Prelude.Bits.{bit_or_disjoint}

-- The casts to uint8_t, uint16_t and uint32_t.
abbrev pub u8 : ℕ → ℕ
u8 x = x % 256

abbrev pub u16 : ℕ → ℕ
u16 x = x % 65536

abbrev pub u32 : ℕ → ℕ
u32 x = x % 4294967296

-- uint32_t subtraction of two words.
abbrev pub sub32 : ℕ → ℕ → ℕ
sub32 a b = (a + 4294967296 - b) % 4294967296

-- `static_cast<int32_t>(a - b) < 0` and `>= 0`.
abbrev pub before32 : ℕ → ℕ → Bool
before32 a b = leb 2147483648 (sub32 a b)

-- `b0 | (b1 << 8)` and `b0 | (b1 << 8) | (b2 << 16) | (b3 << 24)`.
unfoldable pub join16 : ℕ → ℕ → ℕ
join16 b0 b1 = bit_or b0 (b1 * 2 ^ 8)

unfoldable pub join32 : ℕ → ℕ → ℕ → ℕ → ℕ
join32 b0 b1 b2 b3 = bit_or (bit_or (bit_or b0 (b1 * 2 ^ 8)) (b2 * 2 ^ 16)) (b3 * 2 ^ 24)

pub join16-sum : (b0 b1 : ℕ) → b0 < 256 → join16 b0 b1 ≡ b0 + b1 * 256
unfolding join16
join16-sum b0 b1 h = bit_or_disjoint 8 b0 b1 h

pub join32-sum :
    (b0 b1 b2 b3 : ℕ)
    → b0 < 256
    → b1 < 256
    → b2 < 256
    → join32 b0 b1 b2 b3 ≡ b0 + b1 * 256 + b2 * 65536 + b3 * 16777216
unfolding join32
join32-sum b0 b1 b2 b3 h0 h1 h2 = omega (
  arith,
  ap (λ t. bit_or (bit_or t (b2 * 2 ^ 16)) (b3 * 2 ^ 24)) (bit_or_disjoint 8 b0 b1 h0),
  ap (λ t. bit_or t (b3 * 2 ^ 24)) (bit_or_disjoint 16 (b0 + b1 * 2 ^ 8) b2 (omega arith)),
  bit_or_disjoint 24 (b0 + b1 * 2 ^ 8 + b2 * 2 ^ 16) b3 (omega arith),
)

-- The bytes of a word, lowest first: `w & 0xFF`, `(w >> 8) & 0xFF`, ...
abbrev pub le16 : ℕ → List ℕ
le16 w = w % 256 ∷ w / 256 % 256 ∷ []

abbrev pub le32 : ℕ → List ℕ
le32 w = w % 256 ∷ w / 256 % 256 ∷ w / 65536 % 256 ∷ w / 16777216 % 256 ∷ []

pub join16-bytes : (w : ℕ) → w < 65536 → join16 (w % 256) (w / 256 % 256) ≡ w
join16-bytes w h = omega (arith, join16-sum (w % 256) (w / 256 % 256) (omega arith))

pub join32-bytes :
    (w : ℕ)
    → w < 4294967296
    → join32 (w % 256) (w / 256 % 256) (w / 65536 % 256) (w / 16777216 % 256) ≡ w
join32-bytes w h = omega (
  arith,
  join32-sum (w % 256) (w / 256 % 256) (w / 65536 % 256) (w / 16777216 % 256) (omega arith)
      (omega arith) (omega arith),
)
