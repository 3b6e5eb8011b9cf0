-- ===== src/Server/Ipc/Wraps.antt =====
-- A ring whose count of written bytes wraps: 65520 does not divide 2^32.
use k230_lr2021_radio.Prelude.{
  ℕ, ◌+◌, ◌%◌, ◌≡◌, ◌≤◌, ◌<◌, ◌⊎◌, inl, inr, ◌∙◌, ap, ap₂, List, [], ◌∷◌, arith, get_or, length,
  some, u32, sub32,
}
use k230_lr2021_radio.Server.Parser.{Bytes}
use k230_lr2021_radio.Server.Ipc.{write_word, write_bytes, make_room, write_ring, refill}
use k230_lr2021_radio.Server.Ipc.Headers.{
  word_at-ext, write_word_outside, word_at-write_word, write_bytes_front, write_bytes_outside,
}
use k230_lr2021_radio.Server.Ipc.Cells.{run}
use k230_lr2021_radio.Server.Ipc.Data.{write_data_whole}
use k230_lr2021_radio.Server.Ipc.Fifo.{head_of, tail_of, cell}
use k230_lr2021_radio.Server.Ipc.Reads.{read_ring_lem}

-- A write for which there is room.
write_ring_plain :
    (base h t : ℕ) (buf : List ℕ) (f : Bytes)
    → head_of base f ≡ h
    → tail_of base f ≡ t
    → sub32 h t + length buf ≤ 65520
    → h % 65520 + length buf ≤ 65520
    → write_ring base buf f
      ≡ write_word base
          (u32 (h + length buf))
          (write_bytes (base + 16 + h % 65520) buf 0 (length buf) f)
unfolding write_ring make_room
write_ring_plain base h t buf f eh et room whole =
    ground (arith, eh, et, write_data_whole base h buf f (omega arith) whole)

module _ (base a b c : ℕ) (f : Bytes) (at_end : head_of base f ≡ 4294967295)
    (drained : tail_of base f ≡ 4294967295) where
  abbrev one : Bytes
  one = write_ring base (a ∷ b ∷ []) f

  abbrev two : Bytes
  two = write_ring base (c ∷ []) one

  one_plain : one ≡ write_word base 1 (write_bytes (base + 16 + 255) (a ∷ b ∷ []) 0 2 f)
  one_plain =
      write_ring_plain base 4294967295 4294967295 (a ∷ b ∷ []) f at_end drained (omega arith)
        (omega arith)

  one_head : head_of base one ≡ 1
  one_head = ap (head_of base) one_plain ∙ word_at-write_word base 1 _ (omega arith)

  one_outside :
      (j : ℕ) → (j < base) ⊎ (base + 4 ≤ j) → (j < base + 271) ⊎ (base + 273 ≤ j) → one j ≡ f j
  one_outside j header piece =
      ap (λ g. g j) one_plain
      ∙ write_word_outside base 1 (write_bytes (base + 16 + 255) (a ∷ b ∷ []) 0 2 f) j header
      ∙ write_bytes_outside (base + 16 + 255) (a ∷ b ∷ []) 0 2 f j (ground arith)

  one_tail : tail_of base one ≡ 4294967295
  one_tail =
      word_at-ext one f (base + 4)
        (λ k p. one_outside (base + 4 + k) (inr (omega arith)) (inl (omega arith)))
      ∙ drained

  two_plain : two ≡ write_word base 2 (write_bytes (base + 16 + 1) (c ∷ []) 0 1 one)
  two_plain =
      write_ring_plain base 1 4294967295 (c ∷ []) one one_head one_tail (omega arith) (omega arith)

  two_head : head_of base two ≡ 2
  two_head = ap (head_of base) two_plain ∙ word_at-write_word base 2 _ (omega arith)

  two_outside :
      (j : ℕ) → (j < base) ⊎ (base + 4 ≤ j) → (j < base + 17) ⊎ (base + 18 ≤ j) → two j ≡ one j
  two_outside j header piece =
      ap (λ g. g j) two_plain
      ∙ write_word_outside base 2 (write_bytes (base + 16 + 1) (c ∷ []) 0 1 one) j header
      ∙ write_bytes_outside (base + 16 + 1) (c ∷ []) 0 1 one j (ground arith)

  two_tail : tail_of base two ≡ 4294967295
  two_tail =
      word_at-ext two one (base + 4)
        (λ k p. two_outside (base + 4 + k) (inr (omega arith)) (inl (omega arith)))
      ∙ one_tail

  two_piece : (k : ℕ) → k < 2 → two (base + 16 + 255 + k) ≡ get_or (a ∷ b ∷ []) k 0
  two_piece k p =
      two_outside (base + 16 + 255 + k) (inr (omega arith)) (inr (omega arith))
      ∙ ap (λ g. g (base + 16 + 255 + k)) one_plain
      ∙ write_word_outside base 1 (write_bytes (base + 16 + 255) (a ∷ b ∷ []) 0 2 f)
          (base + 16 + 255 + k) (inr (omega arith))
      ∙ write_bytes_front (base + 16 + 255) (a ∷ b ∷ []) 2 f k p

  two_stale : two (base + 16 + 257) ≡ f (base + 16 + 257)
  two_stale =
      two_outside (base + 16 + 257) (inr (omega arith)) (inr (omega arith))
      ∙ one_outside (base + 16 + 257) (inr (omega arith)) (inr (omega arith))

  cells : run (cell base two) 4294967295 3 ≡ a ∷ b ∷ f (base + 16 + 257) ∷ []
  cells =
      ap₂ ◌∷◌
        (ap two {x = base + 16 + 255} {y = base + 16 + 255 + 0} (omega arith)
          ∙ two_piece 0 (omega arith))
        (ap₂ ◌∷◌
          (ap two {x = base + 16 + 256} {y = base + 16 + 255 + 1} (omega arith)
            ∙ two_piece 1 (omega arith))
          (ap (λ x. x ∷ []) two_stale))

  -- The count of an empty ring stands at 2^32 - 1. The bytes `a` and `b` are written, then `c`, and
  -- the three are read: the third one read is not `c`, but what stood at offset 257 of the data.
  pub refill_wrapped :
      (refill base (write_ring base (c ∷ []) (write_ring base (a ∷ b ∷ []) f))).0
      ≡ some (a ∷ b ∷ f (base + 16 + 257) ∷ [])
  unfolding refill
  refill_wrapped =
      ground (arith, two_head, two_tail, read_ring_lem base 4294967295 3 two (omega arith), cells)
