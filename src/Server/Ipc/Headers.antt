-- ===== src/Server/Ipc/Headers.antt =====
-- What a write at a position does to the bytes and the words of a file.
use k230_lr2021_radio.Prelude.{
  ℕ, ◌+◌, ◌-◌, ◌≡◌, ◌≤◌, ◌<◌, ◌⊎◌, ◌∙◌, ap, ap₂, List, arith, get_or, join32, join32-bytes,
}
use k230_lr2021_radio.Server.Parser.{Bytes, word_at}
use k230_lr2021_radio.Server.Ipc.{write_word, write_bytes}

pub word_at-ext :
    (f g : Bytes) (i : ℕ) → ((k : ℕ) → k < 4 → f (i + k) ≡ g (i + k)) → word_at f i ≡ word_at g i
word_at-ext f g i e =
    let same : f i ≡ g i =
      ap f {x = i} {y = i + 0} (omega arith)
      ∙ e 0 (omega arith)
      ∙ ap g {x = i + 0} {y = i} (omega arith) in
    ap₂ (λ x y. join32 x y (f (i + 2)) (f (i + 3))) same (e 1 (omega arith))
    ∙ ap₂ (join32 (g i) (g (i + 1))) (e 2 (omega arith)) (e 3 (omega arith))

pub write_word_outside :
    (p w : ℕ) (f : Bytes) (j : ℕ) → (j < p) ⊎ (p + 4 ≤ j) → write_word p w f j ≡ f j
unfolding write_word
write_word_outside p w f j out = ground arith

pub word_at-write_word : (p w : ℕ) (f : Bytes) → w < 4294967296 → word_at (write_word p w f) p ≡ w
unfolding write_word
word_at-write_word p w f h = ground (arith, join32-bytes w h)

pub write_bytes_inside :
    (p : ℕ) (buf : List ℕ) (start n : ℕ) (f : Bytes) (k : ℕ)
    → k < n
    → write_bytes p buf start n f (p + k) ≡ get_or buf (start + k) 0
unfolding write_bytes
write_bytes_inside p buf start n f k h = let e : p + k - p ≡ k = omega arith in ground (arith, e)

pub write_bytes_outside :
    (p : ℕ) (buf : List ℕ) (start n : ℕ) (f : Bytes) (j : ℕ)
    → (j < p) ⊎ (p + n ≤ j)
    → write_bytes p buf start n f j ≡ f j
unfolding write_bytes
write_bytes_outside p buf start n f j out = ground arith

-- A write of a buffer from its first byte on.
pub write_bytes_front :
    (p : ℕ) (buf : List ℕ) (n : ℕ) (f : Bytes) (k : ℕ)
    → k < n
    → write_bytes p buf 0 n f (p + k) ≡ get_or buf k 0
write_bytes_front p buf n f k h =
    write_bytes_inside p buf 0 n f k h ∙ ap (λ i. get_or buf i 0) {x = 0 + k} {y = k} (omega arith)
