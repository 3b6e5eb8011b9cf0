-- ===== src/Burst/Detection.antt =====
-- What the CRC-32 of service/src/burst.hpp tells apart.
use k230_lr2021_radio.Prelude.{
  ℕ, zero, suc, ◌-◌, ◌/◌, ◌^◌, ◌≡◌, ◌≢◌, ◌<◌, inl, inr, refl, sym, ap, ◌∙◌, List, [], ◌∷◌, ◌++◌,
  arith, bit_xor, ◌==◌, length, false, length-append, halves, bit_xor_twice, bit_xor_bound,
}
use k230_lr2021_radio.Burst.{crc_bit, crc_bits, crc_byte, crc_loop, crc32}
use k230_lr2021_radio.Burst.Crc.{AreBytes, bit_xor_comm, parity_cases, crc_bit_even, crc_bit_odd}

crc_bit_bound : (x : ℕ) → x < 2 ^ 32 → crc_bit x < 2 ^ 32
crc_bit_bound x h = elim (parity_cases x) [
  | inl even ↦ omega (arith, crc_bit_even x even)
  | inr odd ↦
      omega
        (arith, crc_bit_odd x odd, bit_xor_bound 32 (x / 2) 0xEDB88320 (omega arith) (omega arith))
]

-- The polynomial has the highest bit, so the step tells by it which bit left.
apart : (x y : ℕ) → x < 2 ^ 32 → y < 2 ^ 32 → x / 2 ≢ bit_xor (y / 2) 0xEDB88320
apart x y p q e =
    let back : 0xEDB88320 ≡ bit_xor (x / 2) (y / 2) =
      sym (bit_xor_twice 0xEDB88320 (y / 2))
      ∙ ap (λ t. bit_xor t (y / 2)) (bit_xor_comm 0xEDB88320 (y / 2) ∙ sym e) in
    absurd (omega (arith, back, bit_xor_bound 31 (x / 2) (y / 2) (omega arith) (omega arith)))

crc_bit_injective : (x y : ℕ) → x < 2 ^ 32 → y < 2 ^ 32 → crc_bit x ≡ crc_bit y → x ≡ y
crc_bit_injective x y p q e = elim (parity_cases x) [
  | inl even_x ↦ elim (parity_cases y) [
    | inl even_y ↦ omega (arith, crc_bit_even x even_x, crc_bit_even y even_y)
    | inr odd_y ↦ absurd (apart x y p q (sym (crc_bit_even x even_x) ∙ e ∙ crc_bit_odd y odd_y))
  ]
  | inr odd_x ↦ elim (parity_cases y) [
    | inl even_y ↦
        absurd (apart y x q p (sym (crc_bit_even y even_y) ∙ sym e ∙ crc_bit_odd x odd_x))
    | inr odd_y ↦
        halves x y
          (sym (bit_xor_twice (x / 2) 0xEDB88320)
            ∙ ap (λ t. bit_xor t 0xEDB88320) (sym (crc_bit_odd x odd_x) ∙ e ∙ crc_bit_odd y odd_y)
            ∙ bit_xor_twice (y / 2) 0xEDB88320)
          (odd_x ∙ sym odd_y)
  ]
]

crc_bits_bound : (n x : ℕ) → x < 2 ^ 32 → crc_bits n x < 2 ^ 32
unfolding crc_bits
crc_bits_bound zero x h = h
crc_bits_bound (suc n) x h = crc_bits_bound n (crc_bit x) (crc_bit_bound x h)

crc_bits_injective : (n x y : ℕ) → x < 2 ^ 32 → y < 2 ^ 32 → crc_bits n x ≡ crc_bits n y → x ≡ y
unfolding crc_bits
crc_bits_injective zero x y p q e = e
crc_bits_injective (suc n) x y p q e =
    crc_bit_injective x y p q
      (crc_bits_injective n (crc_bit x) (crc_bit y) (crc_bit_bound x p) (crc_bit_bound y q) e)

add_bound : (r d : ℕ) → r < 2 ^ 32 → d < 256 → bit_xor r d < 2 ^ 32
add_bound r d h k = bit_xor_bound 32 r d h (omega arith)

crc_byte_bound : (r d : ℕ) → r < 2 ^ 32 → d < 256 → crc_byte r d < 2 ^ 32
unfolding crc_byte
crc_byte_bound r d h k = crc_bits_bound 8 (bit_xor r d) (add_bound r d h k)

crc_loop_bound : (r : ℕ) (xs : List ℕ) → r < 2 ^ 32 → AreBytes xs → crc_loop r xs < 2 ^ 32
unfolding crc_loop
crc_loop_bound r [] h k = h
crc_loop_bound r (x ∷ xs) h k = crc_loop_bound (crc_byte r x) xs (crc_byte_bound r x h k.0) k.1

-- Two registers that the same bytes make the same were the same.
crc_loop_injective :
    (xs : List ℕ) (r s : ℕ)
    → AreBytes xs
    → r < 2 ^ 32
    → s < 2 ^ 32
    → crc_loop r xs ≡ crc_loop s xs
    → r ≡ s
unfolding crc_loop crc_byte
crc_loop_injective [] r s k p q e = e
crc_loop_injective (x ∷ xs) r s k p q e =
    let same : bit_xor r x ≡ bit_xor s x =
      crc_bits_injective 8 (bit_xor r x) (bit_xor s x) (add_bound r x p k.0) (add_bound s x q k.0) (
        crc_loop_injective xs (crc_byte r x) (crc_byte s x) k.1 (crc_byte_bound r x p k.0)
          (crc_byte_bound s x q k.0) e) in
    sym (bit_xor_twice r x) ∙ ap (λ t. bit_xor t x) same ∙ bit_xor_twice s x

-- A register tells the bytes apart that it takes next.
crc_byte_injective :
    (r a b : ℕ) → r < 2 ^ 32 → a < 256 → b < 256 → crc_byte r a ≡ crc_byte r b → a ≡ b
unfolding crc_byte
crc_byte_injective r a b h p q e =
    let same : bit_xor a r ≡ bit_xor b r =
      bit_xor_comm a r
      ∙ crc_bits_injective 8 (bit_xor r a) (bit_xor r b) (add_bound r a h p) (add_bound r b h q) e
      ∙ bit_xor_comm r b in
    sym (bit_xor_twice a r) ∙ ap (λ t. bit_xor t r) same ∙ bit_xor_twice b r

crc_loop-append : (r : ℕ) (xs ys : List ℕ) → crc_loop r (xs ++ ys) ≡ crc_loop (crc_loop r xs) ys
unfolding crc_loop
crc_loop-append r [] ys = refl
crc_loop-append r (x ∷ xs) ys = crc_loop-append (crc_byte r x) xs ys

crc32_whole :
    (xs ys : List ℕ) (a : ℕ)
    → crc32 (xs ++ (a ∷ ys)) ≡ 0xFFFFFFFF - crc_loop (crc_byte (crc_loop 0xFFFFFFFF xs) a) ys
unfolding crc32 crc_loop
crc32_whole xs ys a =
    let some_there : (length (xs ++ (a ∷ ys)) == 0) ≡ false =
      ground (arith, length-append xs (a ∷ ys)) in
    rw some_there (ap (λ s. 0xFFFFFFFF - s) (crc_loop-append 0xFFFFFFFF xs (a ∷ ys)))

-- Two payloads of bytes that differ in one byte, wherever it stands, have different CRCs.
pub crc32_one_byte :
    (xs ys : List ℕ) (a b : ℕ)
    → AreBytes xs
    → AreBytes ys
    → a < 256
    → b < 256
    → a ≢ b
    → crc32 (xs ++ (a ∷ ys)) ≢ crc32 (xs ++ (b ∷ ys))
crc32_one_byte xs ys a b hx hy p q ne e =
    let r = crc_loop 0xFFFFFFFF xs in
    let small : r < 2 ^ 32 = crc_loop_bound 0xFFFFFFFF xs (omega arith) hx in
    let pa = crc_byte_bound r a small p in
    let pb = crc_byte_bound r b small q in
    let la = crc_loop_bound (crc_byte r a) ys pa hy in
    let lb = crc_loop_bound (crc_byte r b) ys pb hy in
    let same : crc_loop (crc_byte r a) ys ≡ crc_loop (crc_byte r b) ys =
      omega (arith, crc32_whole xs ys a, crc32_whole xs ys b) in
    ne (
      crc_byte_injective r a b small p q
        (crc_loop_injective ys (crc_byte r a) (crc_byte r b) hy pa pb same))
