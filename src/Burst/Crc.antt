-- ===== src/Burst/Crc.antt =====
-- The CRC-32 of service/src/burst.hpp, which takes a byte at a time, against the register that takes
-- the message bit by bit, and what it tells apart.
use k230_lr2021_radio.Prelude.{
  ℕ, zero, suc, ◌-◌, ◌/◌, ◌%◌, ◌≡◌, false, ◌<◌, ◌⊎◌, inl, inr, refl, sym, ap, ◌∙◌, List, [], ◌∷◌,
  ◌++◌, arith, bit_xor, bit_and, sub32, ◌==◌, if◌then◌else◌, length, zero-bit_xor, bit_xor-half,
  bit_xor-parity, bit_xor_swap,
}
use k230_lr2021_radio.Burst.{crc_bit, crc_bits, crc_byte, crc_loop, crc32}

-- A message bit enters the register: it is shifted, and the polynomial is added if the bit that
-- leaves differs from the one that enters.
abbrev pub shift_in : ℕ → ℕ → ℕ
shift_in m r = if r % 2 == m then r / 2 else bit_xor (r / 2) 0xEDB88320

abbrev pub serial : ℕ → List ℕ → ℕ
serial r [] = r
serial r (m ∷ ms) = serial (shift_in m r) ms

-- The bits of a byte, the lowest first, and those of a message.
abbrev pub low_bits : ℕ → ℕ → List ℕ
low_bits zero d = []
low_bits (suc n) d = d % 2 ∷ low_bits n (d / 2)

abbrev pub message_bits : List ℕ → List ℕ
message_bits [] = []
message_bits (x ∷ xs) = low_bits 8 x ++ message_bits xs

abbrev pub AreBytes : List ℕ → Type 0
AreBytes [] = Unit {0}
AreBytes (x ∷ xs) = (x < 256) × AreBytes xs

bit_xor-zero : (a : ℕ) → bit_xor a 0 ≡ a
bit_xor-zero a = ap (λ t. bit_xor t 0) (sym (zero-bit_xor a)) ∙ bit_xor_swap 0 a 0 ∙ zero-bit_xor a

pub bit_xor_comm : (a b : ℕ) → bit_xor a b ≡ bit_xor b a
bit_xor_comm a b =
    ap (λ t. bit_xor t b) (sym (zero-bit_xor a))
    ∙ bit_xor_swap 0 a b
    ∙ ap (λ t. bit_xor t a) (zero-bit_xor b)

pub parity_cases : (x : ℕ) → (x % 2 ≡ 0) ⊎ (x % 2 ≡ 1)
parity_cases x = ground arith

pub crc_bit_even : (x : ℕ) → x % 2 ≡ 0 → crc_bit x ≡ x / 2
unfolding crc_bit
crc_bit_even x e =
    ap (λ m. bit_xor (x / 2) (bit_and 0xEDB88320 (sub32 0 m))) e ∙ bit_xor-zero (x / 2)

pub crc_bit_odd : (x : ℕ) → x % 2 ≡ 1 → crc_bit x ≡ bit_xor (x / 2) 0xEDB88320
unfolding crc_bit
crc_bit_odd x e = ap (λ m. bit_xor (x / 2) (bit_and 0xEDB88320 (sub32 0 m))) e

-- The bits of a byte that was added as a whole come out one by one.
crc_bit-bit_xor : (r d : ℕ) → crc_bit (bit_xor r d) ≡ bit_xor (shift_in (d % 2) r) (d / 2)
crc_bit-bit_xor r d = elim (parity_cases (bit_xor r d)) [
  | inl even ↦
      let same : shift_in (d % 2) r ≡ r / 2 = ground (arith, bit_xor-parity r d) in
      crc_bit_even _ even ∙ bit_xor-half r d ∙ ap (λ t. bit_xor t (d / 2)) (sym same)
  | inr odd ↦
      let other : shift_in (d % 2) r ≡ bit_xor (r / 2) 0xEDB88320 =
        ground (arith, bit_xor-parity r d) in
      crc_bit_odd _ odd
      ∙ ap (λ t. bit_xor t 0xEDB88320) (bit_xor-half r d)
      ∙ bit_xor_swap (r / 2) (d / 2) 0xEDB88320
      ∙ ap (λ t. bit_xor t (d / 2)) (sym other)
]

abbrev halved : ℕ → ℕ → ℕ
halved zero d = d
halved (suc n) d = halved n (d / 2)

crc_bits-bit_xor :
    (n r d : ℕ) → crc_bits n (bit_xor r d) ≡ bit_xor (serial r (low_bits n d)) (halved n d)
unfolding crc_bits
crc_bits-bit_xor zero r d = refl
crc_bits-bit_xor (suc n) r d =
    ap (crc_bits n) (crc_bit-bit_xor r d) ∙ crc_bits-bit_xor n (shift_in (d % 2) r) (d / 2)

crc_byte-serial : (r d : ℕ) → d < 256 → crc_byte r d ≡ serial r (low_bits 8 d)
unfolding crc_byte
crc_byte-serial r d h =
    let none_left : halved 8 d ≡ 0 = omega arith in
    crc_bits-bit_xor 8 r d ∙ ap (bit_xor (serial r (low_bits 8 d))) none_left ∙ bit_xor-zero _

serial-append : (r : ℕ) (xs ys : List ℕ) → serial r (xs ++ ys) ≡ serial (serial r xs) ys
serial-append r [] ys = refl
serial-append r (x ∷ xs) ys = serial-append (shift_in x r) xs ys

crc_loop-serial : (r : ℕ) (xs : List ℕ) → AreBytes xs → crc_loop r xs ≡ serial r (message_bits xs)
unfolding crc_loop
crc_loop-serial r [] h = refl
crc_loop-serial r (x ∷ xs) h =
    crc_loop-serial (crc_byte r x) xs h.1
    ∙ ap (λ s. serial s (message_bits xs)) (crc_byte-serial r x h.0)
    ∙ sym (serial-append r (low_bits 8 x) (message_bits xs))

-- The CRC of any bytes is the complement of the register that took their bits one by one, the
-- lowest bit of each byte first, from all ones on.
pub crc32-serial :
    (xs : List ℕ) → AreBytes xs → crc32 xs ≡ 0xFFFFFFFF - serial 0xFFFFFFFF (message_bits xs)
unfolding crc32
crc32-serial [] h = refl
crc32-serial (x ∷ xs) h =
    let some_there : (length (x ∷ xs) == 0) ≡ false = ground arith in
    rw some_there (ap (λ s. 0xFFFFFFFF - s) (crc_loop-serial 0xFFFFFFFF (x ∷ xs) h))
