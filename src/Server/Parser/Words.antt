-- ===== src/Server/Parser/Words.antt =====
-- Little-endian words in an array of bytes.
use k230_lr2021_radio.Prelude.{
  ℕ, suc, ◌+◌, ◌*◌, ◌/◌, ◌%◌, ◌≡◌, refl, ap, sym, ◌∙◌, ◌<◌, List, [], ◌∷◌, ◌++◌, arith, length,
  join32, le32, join32-bytes, ap₂,
}
use k230_lr2021_radio.Server.Parser.{slice, words, word_at}

-- Words in a row, each in little-endian order.
abbrev pub le32s : List ℕ → List ℕ
le32s [] = []
le32s (w ∷ ws) = le32 w ++ le32s ws

abbrev pub AreWords : List ℕ → Type 0
AreWords [] = Unit {0}
AreWords (w ∷ ws) = (w < 4294967296) × AreWords ws

pub length-le32s : (ws : List ℕ) → length (le32s ws) ≡ length ws * 4
length-le32s [] = refl
length-le32s (w ∷ ws) = omega (arith, length-le32s ws)

four_heads :
    (x0 x1 x2 x3 y0 y1 y2 y3 : ℕ) (xs ys : List ℕ)
    → x0 ∷ x1 ∷ x2 ∷ x3 ∷ xs ≡ y0 ∷ y1 ∷ y2 ∷ y3 ∷ ys
    → (x0 ≡ y0) × (x1 ≡ y1) × (x2 ≡ y2) × (x3 ≡ y3) × (xs ≡ ys)
four_heads x0 x1 x2 x3 y0 y1 y2 y3 xs ys e = (cc, cc, cc, cc, cc)

-- Four bytes at the front of a slice are a word of the array.
word_front :
    (a : ℕ → ℕ) (i n w : ℕ) (rest : List ℕ)
    → w < 4294967296
    → slice a i (suc (suc (suc (suc n)))) ≡ le32 w ++ rest
    → (word_at a i ≡ w) × (slice a (i + 4) n ≡ rest)
word_front a i n w rest h e =
    let e2 : i + 1 + 1 ≡ i + 2 = omega arith in
    let e3 : i + 1 + 1 + 1 ≡ i + 3 = omega arith in
    let e4 : i + 1 + 1 + 1 + 1 ≡ i + 4 = omega arith in
    let t = four_heads _ _ _ _ _ _ _ _ _ _ e in
    (
      ap₂ (λ x y. join32 x y (a (i + 2)) (a (i + 3))) t.0 t.1
          ∙ ap₂ (λ x y. join32 (w % 256) (w / 256 % 256) x y) (ap a (sym e2) ∙ t.2)
              (ap a (sym e3) ∙ t.3)
          ∙ join32-bytes w h,
      ap (λ k. slice a k n) (sym e4) ∙ t.4,
    )

read_words :
    (a : ℕ → ℕ) (i : ℕ) (ws : List ℕ)
    → AreWords ws
    → slice a i (length ws * 4) ≡ le32s ws
    → words a i (length ws) ≡ ws
read_words a i [] h e = refl
read_words a i (w ∷ ws) h e =
    let more : (suc (length ws)) * 4 ≡ suc (suc (suc (suc (length ws * 4)))) = omega arith in
    let r = word_front a i (length ws * 4) w (le32s ws) h.0 (ap (slice a i) (sym more) ∙ e) in
    ap₂ ◌∷◌ r.0 (read_words a (i + 4) ws h.1 r.1)

pub read_scan :
    (a : ℕ → ℕ) (dwell : ℕ) (ws : List ℕ)
    → dwell < 4294967296
    → AreWords ws
    → slice a 0 (4 + length ws * 4) ≡ le32 dwell ++ le32s ws
    → (word_at a 0 ≡ dwell) × (words a 4 (length ws) ≡ ws)
read_scan a dwell ws h hs e =
    let more : 4 + length ws * 4 ≡ suc (suc (suc (suc (length ws * 4)))) = omega arith in
    let r = word_front a 0 (length ws * 4) dwell (le32s ws) h (ap (slice a 0) (sym more) ∙ e) in
    (r.0, read_words a 4 ws hs r.1)
