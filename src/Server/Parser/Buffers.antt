-- ===== src/Server/Parser/Buffers.antt =====
-- Arrays that are filled from the front, byte by byte.
use k230_lr2021_radio.Prelude.{
  ℕ, zero, suc, ◌+◌, ◌≡◌, refl, ap, ap₂, ◌∙◌, ◌≤◌, [], ◌∷◌, ◌++◌, arith,
}
use k230_lr2021_radio.Server.Parser.{Bytes, store, slice}

pub store_self : (a : Bytes) (i b : ℕ) → store a i b i ≡ b
store_self a i b = ground arith

-- A byte stored behind a slice does not change it.
pub slice-store : (a : Bytes) (j b i n : ℕ) → i + n ≤ j → slice (store a j b) i n ≡ slice a i n
slice-store a j b i zero h = refl
slice-store a j b i (suc n) h = ap₂ ◌∷◌ (ground arith) (slice-store a j b (i + 1) n (omega arith))

slice-snoc : (a : Bytes) (i n : ℕ) → slice a i (suc n) ≡ slice a i n ++ (a (i + n) ∷ [])
slice-snoc a i zero = ap (λ k. a k ∷ []) (omega arith)
slice-snoc a i (suc n) =
    ap (◌∷◌ (a i)) (slice-snoc a (i + 1) n)
    ∙ ap (λ k. a i ∷ (slice a (i + 1) n ++ (a k ∷ []))) {x = i + 1 + n} {y = i + suc n}
        (omega arith)

-- The next byte, stored at the end of a slice, is appended to it.
pub slice-store_end :
    (a : Bytes) (n b m : ℕ) → m ≡ n + 1 → slice (store a n b) 0 m ≡ slice a 0 n ++ (b ∷ [])
slice-store_end a n b zero e = absurd (omega arith)
slice-store_end a n b (suc m) e =
    let m=n : m ≡ n = omega arith in
    rw m=n (
      slice-snoc (store a n b) 0 n
      ∙ ap₂ (λ xs c. xs ++ (c ∷ [])) (slice-store a n b 0 n (omega arith))
          (ap (store a n b) {x = 0 + n} {y = n} (omega arith) ∙ store_self a n b))
