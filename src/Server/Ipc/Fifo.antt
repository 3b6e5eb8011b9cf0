-- ===== src/Server/Ipc/Fifo.antt =====
-- A ring as a queue of bytes: what `writeAll` and `readByte` make of it.
use k230_lr2021_radio.Prelude.{
  ltb, ◌⊎◌, ℕ, ◌+◌, ◌-◌, ◌%◌, ◌≡◌, ◌≤◌, ◌<◌, inl, inr, ◌∙◌, refl, sym, ap, ap₂, List, ◌++◌, arith,
  get_or, length, drop, if◌then◌else◌, Bool, true, false, u32, sub32,
}
use k230_lr2021_radio.Server.Parser.{Bytes, word_at}
use k230_lr2021_radio.Server.Ipc.{write_data, believed, write_word, make_room, write_ring}
use k230_lr2021_radio.Server.Ipc.Headers.{word_at-ext, write_word_outside, word_at-write_word}
use k230_lr2021_radio.Server.Ipc.Cells.{run, length-run, run-ext, run-get_or, run-append, drop-run}
use k230_lr2021_radio.Server.Ipc.Data.{write_data_new, write_data_old, write_data_outside}

-- The counts of the bytes written and of those read, and the bytes between them.
abbrev pub head_of : ℕ → Bytes → ℕ
head_of base f = word_at f base

abbrev pub tail_of : ℕ → Bytes → ℕ
tail_of base f = word_at f (base + 4)

abbrev pub cell : ℕ → Bytes → ℕ → ℕ
cell base f t = f (base + 16 + t % 65520)

abbrev pub contents : ℕ → Bytes → List ℕ
contents base f = run (cell base f) (tail_of base f) (head_of base f - tail_of base f)

-- The counts are flat: they did not wrap, and the bytes between them fit.
pub record IsFlat (base : ℕ) (f : Bytes) : Type 0 where
  pub ordered : tail_of base f ≤ head_of base f
  pub fits : head_of base f ≤ tail_of base f + 65520

-- A queue of bounded length that forgets its oldest bytes.
abbrev pub push : ℕ → List ℕ → List ℕ → List ℕ
push capacity buf q = drop (length q + length buf - capacity) q ++ buf

if-kept : (b : Bool) (g f : Bytes) (j : ℕ) → g j ≡ f j → (if b then g else f) j ≡ f j
if-kept true g f j e = e
if-kept false g f j e = refl

module _ (base h t len : ℕ) (f : Bytes) where
  make_room_tail :
      tail_of base f ≡ t
      → t ≤ h
      → h ≤ t + 65520
      → len ≤ 65520
      → h < 4294967296
      → tail_of base (make_room base h t len f) ≡ t + ((h - t) + len - 65520)
  unfolding make_room
  make_room_tail e o fits short small =
      ground (arith, word_at-write_word (base + 4) (sub32 h (sub32 65520 (u32 len))) f)

  make_room_outside : (j : ℕ) → (j < base + 4) ⊎ (base + 8 ≤ j) → make_room base h t len f j ≡ f j
  unfolding make_room
  make_room_outside j out =
      let moved = sub32 h (sub32 65520 (u32 len)) in
      if-kept (ltb 65520 (believed h t len + len)) (write_word (base + 4) moved f) f j
        (write_word_outside (base + 4) moved f j (ground arith))

module _ (base : ℕ) (buf : List ℕ) (f : Bytes) (flat : IsFlat base f) (short : length buf ≤ 65520)
    (small : head_of base f + length buf < 4294967296) where
  room : Bytes
  room = make_room base (head_of base f) (tail_of base f) (length buf) f

  filled : Bytes
  filled = write_data base (head_of base f) buf room

  lost : ℕ
  lost = (head_of base f - tail_of base f) + length buf - 65520

  pub head-write_ring : head_of base (write_ring base buf f) ≡ head_of base f + length buf
  unfolding write_ring
  head-write_ring =
      word_at-write_word base (u32 (head_of base f + length buf)) _ (omega arith) ∙ omega arith

  tail-write_ring : tail_of base (write_ring base buf f) ≡ tail_of base f + lost
  unfolding write_ring room filled lost
  tail-write_ring =
      word_at-ext (write_ring base buf f) room (base + 4) (λ k p.
        write_word_outside base _ filled _ (inr (omega arith))
        ∙ write_data_outside base (head_of base f) buf room short _ (inl (omega arith)))
      ∙ make_room_tail base (head_of base f) (tail_of base f) (length buf) f refl flat.ordered
          flat.fits short (omega arith)

  cell-write_ring_new :
      (k : ℕ)
      → k < length buf
      → cell base (write_ring base buf f) (head_of base f + k) ≡ get_or buf k 0
  unfolding write_ring room filled
  cell-write_ring_new k p =
      write_word_outside base _ filled _ (inr (omega arith))
      ∙ write_data_new base (head_of base f) buf room short k p

  cell-write_ring_old :
      (s : ℕ)
      → s < head_of base f
      → head_of base f + length buf ≤ s + 65520
      → cell base (write_ring base buf f) s ≡ cell base f s
  unfolding write_ring room filled
  cell-write_ring_old s before free =
      write_word_outside base _ filled _ (inr (omega arith))
      ∙ write_data_old base (head_of base f) buf room short s before free
      ∙ make_room_outside base (head_of base f) (tail_of base f) (length buf) f _
          (inr (omega arith))

  pub write_ring-IsFlat : IsFlat base (write_ring base buf f)
  unfolding lost
  write_ring-IsFlat =
      let o = flat.ordered in
      let i = flat.fits in
      record {
        ordered = omega (arith, o, i, head-write_ring, tail-write_ring);
        fits = omega (arith, o, i, head-write_ring, tail-write_ring);
      }

  pub contents-write_ring : contents base (write_ring base buf f) ≡ push 65520 buf (contents base f)
  unfolding lost
  contents-write_ring =
      let h = head_of base f in
      let t = tail_of base f in
      let g = cell base (write_ring base buf f) in
      let o = flat.ordered in
      let i = flat.fits in
      let room' : t + lost ≤ h = omega arith in
      ap₂ (λ x y. run g x (y - x)) tail-write_ring head-write_ring
      ∙ ap (run g (t + lost)) {x = h + length buf - (t + lost)} {y = (h - (t + lost)) + length buf}
          (omega arith)
      ∙ sym (run-append g (t + lost) (h - (t + lost)) (length buf))
      ∙ ap₂ ◌++◌
          (run-ext g (cell base f) (t + lost) (t + lost) (h - (t + lost))
              (λ k p. cell-write_ring_old (t + lost + k) (omega arith) (omega arith))
            ∙ ap (run (cell base f) (t + lost)) {x = h - (t + lost)} {y = (h - t) - lost}
                (omega arith)
            ∙ sym (drop-run (cell base f) t lost (h - t))
            ∙ ap (λ n. drop (n + length buf - 65520) (contents base f))
                (sym (length-run (cell base f) t (h - t))))
          (ap (λ s. run g s (length buf)) {x = t + lost + (h - (t + lost))} {y = h} (omega arith)
            ∙ run-get_or g h buf cell-write_ring_new)

  write_ring_outside : (j : ℕ) → (j < base) ⊎ (base + 65536 ≤ j) → write_ring base buf f j ≡ f j
  unfolding write_ring room filled
  write_ring_outside j out =
      write_word_outside base _ filled j (ground arith)
      ∙ write_data_outside base (head_of base f) buf room short j (ground arith)
      ∙ make_room_outside base (head_of base f) (tail_of base f) (length buf) f j (ground arith)

-- On a ring with flat counts, while the count of the bytes written does not wrap, a write of at most
-- 65520 bytes is a push onto a queue of 65520 bytes that forgets its oldest ones. The counts stay
-- flat, and a byte outside of the ring's 65536 bytes does not change.
pub write_ring-push :
    (base : ℕ) (buf : List ℕ) (f : Bytes) (j : ℕ)
    → IsFlat base f
    → length buf ≤ 65520
    → head_of base f + length buf < 4294967296
    → (j < base) ⊎ (base + 65536 ≤ j)
    → let f' = write_ring base buf f in
      (contents base f' ≡ push 65520 buf (contents base f)) × IsFlat base f' × (f' j ≡ f j)
write_ring-push base buf f j flat short small out = (
  contents-write_ring base buf f flat short small,
  write_ring-IsFlat base buf f flat short small,
  write_ring_outside base buf f flat short small j out,
)
