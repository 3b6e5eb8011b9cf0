-- ===== src/Prelude/Xor.antt =====
-- Laws of the exclusive or.
use Prim.Native.Nat.{
  ℕ, zero, suc, ◌+◌, ◌*◌, ◌/◌, ◌%◌, ◌^◌, ◌≤◌, ◌<◌, bit_xor, digits, differ, bit_xor-bitwise,
}
use mathlib.Core.Path.{◌≡◌, refl, ap, ap₂, sym, ◌∙◌}
use native.Mathlib.Nat.{pow-suc}
use native.Mathlib.Omega.{arith}

abbrev xor_digits : ℕ → ℕ → ℕ → ℕ
xor_digits n a b = digits (λ y. y) differ n a b

xor_digits_fuel : (n m a b : ℕ) → a ≤ n → a ≤ m → xor_digits n a b ≡ xor_digits m a b
xor_digits_fuel zero zero a b p q = refl
xor_digits_fuel zero (suc m) zero b p q = refl
xor_digits_fuel zero (suc m) (suc a) b p q = absurd (omega arith)
xor_digits_fuel (suc n) zero zero b p q = refl
xor_digits_fuel (suc n) zero (suc a) b p q = absurd (omega arith)
xor_digits_fuel (suc n) (suc m) zero b p q = refl
xor_digits_fuel (suc n) (suc m) (suc a) b p q =
    omega (arith, xor_digits_fuel n m (suc a / 2) (b / 2) (omega arith) (omega arith))

differ_digits : (x y : ℕ) → x < 2 → y < 2 → differ x y ≡ (x + y) % 2
differ_digits zero y h k = omega arith
differ_digits (suc zero) zero h k = refl
differ_digits (suc zero) (suc zero) h k = refl
differ_digits (suc zero) (suc (suc y)) h k = absurd (omega arith)
differ_digits (suc (suc x)) y h k = absurd (omega arith)

pub zero-bit_xor : (b : ℕ) → bit_xor 0 b ≡ b
zero-bit_xor b = bit_xor-bitwise 0 b

pub bit_xor_step : (a b : ℕ) → bit_xor a b ≡ bit_xor (a / 2) (b / 2) * 2 + (a % 2 + b % 2) % 2
bit_xor_step zero b = omega (arith, zero-bit_xor b, zero-bit_xor (b / 2))
bit_xor_step (suc a) b = omega (
  arith,
  bit_xor-bitwise (suc a) b,
  bit_xor-bitwise (suc a / 2) (b / 2),
  differ_digits (suc a % 2) (b % 2) (omega arith) (omega arith),
  xor_digits_fuel a (suc a / 2) (suc a / 2) (b / 2) (omega arith) (omega arith),
)

pub bit_xor-half : (a b : ℕ) → bit_xor a b / 2 ≡ bit_xor (a / 2) (b / 2)
bit_xor-half a b = omega (arith, bit_xor_step a b)

pub bit_xor-parity : (a b : ℕ) → bit_xor a b % 2 ≡ (a % 2 + b % 2) % 2
bit_xor-parity a b = omega (arith, bit_xor_step a b)

-- Two numbers with the same half and the same parity are the same.
pub halves : (a b : ℕ) → a / 2 ≡ b / 2 → a % 2 ≡ b % 2 → a ≡ b
halves a b p q = omega arith

-- By the digits, up to a bound on the numbers.
swap_below :
    (n a b c : ℕ) → a ≤ n → b ≤ n → c ≤ n → bit_xor (bit_xor a b) c ≡ bit_xor (bit_xor a c) b
swap_below zero a b c p q r =
    ap (λ t. bit_xor (bit_xor a t) c) {x = b} {y = c} (omega arith)
    ∙ ap (bit_xor (bit_xor a c)) {x = c} {y = b} (omega arith)
swap_below (suc n) a b c p q r =
    halves _ _
      (bit_xor-half (bit_xor a b) c
        ∙ ap (λ t. bit_xor t (c / 2)) (bit_xor-half a b)
        ∙ swap_below n (a / 2) (b / 2) (c / 2) (omega arith) (omega arith) (omega arith)
        ∙ ap (λ t. bit_xor t (b / 2)) (sym (bit_xor-half a c))
        ∙ sym (bit_xor-half (bit_xor a c) b))
      (omega (
        arith,
        bit_xor-parity (bit_xor a b) c,
        bit_xor-parity a b,
        bit_xor-parity (bit_xor a c) b,
        bit_xor-parity a c,
      ))

pub bit_xor_swap : (a b c : ℕ) → bit_xor (bit_xor a b) c ≡ bit_xor (bit_xor a c) b
bit_xor_swap a b c = swap_below (a + b + c) a b c (omega arith) (omega arith) (omega arith)

twice_below : (n a b : ℕ) → a ≤ n → b ≤ n → bit_xor (bit_xor a b) b ≡ a
twice_below zero a b p q =
    ap₂ (λ x y. bit_xor (bit_xor x y) y) {x = a} {y = 0} {u = b} {v = 0} (omega arith) (omega arith)
    ∙ omega arith
twice_below (suc n) a b p q =
    halves _ _
      (bit_xor-half (bit_xor a b) b
        ∙ ap (λ t. bit_xor t (b / 2)) (bit_xor-half a b)
        ∙ twice_below n (a / 2) (b / 2) (omega arith) (omega arith))
      (omega (arith, bit_xor-parity (bit_xor a b) b, bit_xor-parity a b))

pub bit_xor_twice : (a b : ℕ) → bit_xor (bit_xor a b) b ≡ a
bit_xor_twice a b = twice_below (a + b) a b (omega arith) (omega arith)

pub bit_xor_bound : (k a b : ℕ) → a < 2 ^ k → b < 2 ^ k → bit_xor a b < 2 ^ k
bit_xor_bound zero a b p q =
    let e : bit_xor a b ≡ bit_xor 0 0 =
      ap₂ bit_xor {x = a} {y = 0} {u = b} {v = 0} (omega arith) (omega arith) in
    omega arith
bit_xor_bound (suc k) a b p q = omega (
  arith,
  bit_xor_step a b,
  pow-suc 2 k,
  bit_xor_bound k (a / 2) (b / 2) (omega (arith, pow-suc 2 k)) (omega (arith, pow-suc 2 k)),
)
