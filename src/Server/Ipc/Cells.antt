-- ===== src/Server/Ipc/Cells.antt =====
-- Runs of a function's values, as lists.
use k230_lr2021_radio.Prelude.{
  ℕ, zero, suc, ◌+◌, ◌-◌, ◌≡◌, ◌≤◌, ◌<◌, ◌∙◌, refl, ap, ap₂, List, [], ◌∷◌, ◌++◌, arith, length,
  get_or, drop, take,
}
use k230_lr2021_radio.Server.Parser.{Bytes, slice}

-- The values at `t`, `t + 1`, ..., `n` of them.
abbrev pub run : Bytes → ℕ → ℕ → List ℕ
run g t zero = []
run g t (suc n) = g t ∷ run g (t + 1) n

pub length-run : (g : Bytes) (t n : ℕ) → length (run g t n) ≡ n
length-run g t zero = refl
length-run g t (suc n) = ap suc (length-run g (t + 1) n)

-- Functions that agree have the same runs.
pub run-ext :
    (g h : Bytes) (s t n : ℕ) → ((k : ℕ) → k < n → g (s + k) ≡ h (t + k)) → run g s n ≡ run h t n
run-ext g h s t zero e = refl
run-ext g h s t (suc n) e =
    ap₂ ◌∷◌
      (ap g {x = s} {y = s + 0} (omega arith)
        ∙ e 0 (omega arith)
        ∙ ap h {x = t + 0} {y = t} (omega arith))
      (run-ext g h (s + 1) (t + 1) n (λ k p.
        ap g {x = s + 1 + k} {y = s + (k + 1)} (omega arith)
        ∙ e (k + 1) (omega arith)
        ∙ ap h {x = t + (k + 1)} {y = t + 1 + k} (omega arith)))

pub run-get_or :
    (g : Bytes) (t : ℕ) (buf : List ℕ)
    → ((k : ℕ) → k < length buf → g (t + k) ≡ get_or buf k 0)
    → run g t (length buf) ≡ buf
run-get_or g t [] e = refl
run-get_or g t (x ∷ buf) e = ap₂ ◌∷◌ (ap g {x = t} {y = t + 0} (omega arith) ∙ e 0 (omega arith)) (
    run-get_or g (t + 1) buf
      (λ k p. ap g {x = t + 1 + k} {y = t + suc k} (omega arith) ∙ e (suc k) (omega arith)))

pub run-append : (g : Bytes) (t m n : ℕ) → run g t m ++ run g (t + m) n ≡ run g t (m + n)
run-append g t zero n =
    ap (λ s. run g s n) {x = t + 0} {y = t} (omega arith)
    ∙ ap (run g t) {x = n} {y = 0 + n} (omega arith)
run-append g t (suc m) n =
    ap (◌∷◌ (g t)) (
      ap (λ s. run g (t + 1) m ++ run g s n) {x = t + suc m} {y = t + 1 + m} (omega arith)
      ∙ run-append g (t + 1) m n)
    ∙ ap (run g t) {x = suc (m + n)} {y = suc m + n} (omega arith)

pub drop-run : (g : Bytes) (t m n : ℕ) → drop m (run g t n) ≡ run g (t + m) (n - m)
drop-run g t zero n = ap₂ (run g) (omega arith) (omega arith)
drop-run g t (suc m) zero = ap (run g (t + suc m)) {x = 0} {y = 0 - suc m} (omega arith)
drop-run g t (suc m) (suc n) = drop-run g (t + 1) m n ∙ ap₂ (run g) (omega arith) (omega arith)

pub take-run : (g : Bytes) (t m n : ℕ) → m ≤ n → take m (run g t n) ≡ run g t m
take-run g t zero n h = refl
take-run g t (suc m) zero h = absurd (omega arith)
take-run g t (suc m) (suc n) h = ap (◌∷◌ (g t)) (take-run g (t + 1) m n (omega arith))

pub slice-run : (g : Bytes) (i n : ℕ) → slice g i n ≡ run g i n
slice-run g i zero = refl
slice-run g i (suc n) = ap (◌∷◌ (g i)) (slice-run g (i + 1) n)
