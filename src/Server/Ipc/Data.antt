-- ===== src/Server/Ipc/Data.antt =====
-- Where the data of a write goes: the byte of count `t` stands in the cell `t` modulo the capacity.
use k230_lr2021_radio.Prelude.{
  ℕ, ◌+◌, ◌-◌, ◌%◌, ◌≡◌, ◌≤◌, ◌<◌, ◌⊎◌, inl, inr, ◌∙◌, ap, List, arith, get_or, length,
}
use k230_lr2021_radio.Server.Parser.{Bytes}
use k230_lr2021_radio.Server.Ipc.{write_bytes, write_data}
use k230_lr2021_radio.Server.Ipc.Headers.{
  write_bytes_inside, write_bytes_front, write_bytes_outside,
}

module _ (base head : ℕ) (buf : List ℕ) (f : Bytes) (short : length buf ≤ 65520) where
  pub write_data_whole :
      head % 65520 + length buf ≤ 65520
      → write_data base head buf f ≡ write_bytes (base + 16 + head % 65520) buf 0 (length buf) f
  unfolding write_data
  write_data_whole fits = ground arith

  write_data_split :
      65520 < head % 65520 + length buf
      → write_data base head buf f
        ≡ write_bytes
            (base + 16)
            buf
            (65520 - head % 65520)
            (length buf - (65520 - head % 65520))
            (write_bytes (base + 16 + head % 65520) buf 0 (65520 - head % 65520) f)
  unfolding write_data
  write_data_split over = ground arith

  fits_or_over : (head % 65520 + length buf ≤ 65520) ⊎ (65520 < head % 65520 + length buf)
  fits_or_over = ground arith

  -- The bytes go to the cells from count `head` on.
  pub write_data_new :
      (k : ℕ)
      → k < length buf
      → write_data base head buf f (base + 16 + (head + k) % 65520) ≡ get_or buf k 0
  write_data_new k h = elim fits_or_over [
    | inl fits ↦
        ap (λ g. g (base + 16 + (head + k) % 65520)) (write_data_whole fits)
        ∙ ap (write_bytes (base + 16 + head % 65520) buf 0 (length buf) f)
            {x = base + 16 + (head + k) % 65520} {y = base + 16 + head % 65520 + k} (omega arith)
        ∙ write_bytes_front (base + 16 + head % 65520) buf (length buf) f k h
    | inr over ↦
        ap (λ g. g (base + 16 + (head + k) % 65520)) (write_data_split over) ∙ elim (lower k) [
          | inl before ↦
              write_bytes_outside (base + 16) buf (65520 - head % 65520) _ _ _ (inr (omega arith))
              ∙ ap (write_bytes (base + 16 + head % 65520) buf 0 (65520 - head % 65520) f)
                  {x = base + 16 + (head + k) % 65520} {y = base + 16 + head % 65520 + k}
                  (omega arith)
              ∙ write_bytes_front (base + 16 + head % 65520) buf _ f k before
          | inr behind ↦
              ap
                (write_bytes (base + 16) buf (65520 - head % 65520)
                  (length buf - (65520 - head % 65520))
                  (write_bytes (base + 16 + head % 65520) buf 0 (65520 - head % 65520) f))
                {x = base + 16 + (head + k) % 65520} {y = base + 16 + (k - (65520 - head % 65520))}
                (omega arith)
              ∙ write_bytes_inside (base + 16) buf (65520 - head % 65520) _ _
                  (k - (65520 - head % 65520)) (omega arith)
              ∙ ap (λ i. get_or buf i 0) {x = 65520 - head % 65520 + (k - (65520 - head % 65520))}
                  {y = k} (omega arith)
        ]
  ]
    where
      lower : (k : ℕ) → (k < 65520 - head % 65520) ⊎ (65520 - head % 65520 ≤ k)
      lower k = ground arith

  -- What is not written: the header, and the cells of the bytes that are not overwritten.
  pub write_data_outside :
      (j : ℕ) → (j < base + 16) ⊎ (base + 65536 ≤ j) → write_data base head buf f j ≡ f j
  write_data_outside j out = elim fits_or_over [
    | inl fits ↦
        ap (λ g. g j) (write_data_whole fits) ∙ write_bytes_outside _ buf 0 _ f j (ground arith)
    | inr over ↦
        ap (λ g. g j) (write_data_split over)
        ∙ write_bytes_outside _ buf _ _ _ j (ground arith)
        ∙ write_bytes_outside _ buf 0 _ f j (ground arith)
  ]

  pub write_data_old :
      (t : ℕ)
      → t < head
      → head + length buf ≤ t + 65520
      → write_data base head buf f (base + 16 + t % 65520) ≡ f (base + 16 + t % 65520)
  write_data_old t before free =
      let j = base + 16 + t % 65520 in
      elim fits_or_over [
        | inl fits ↦
            ap (λ g. g j) (write_data_whole fits) ∙ write_bytes_outside _ buf 0 _ f j (ground arith)
        | inr over ↦
            ap (λ g. g j) (write_data_split over)
            ∙ write_bytes_outside _ buf _ _ _ j (inr (omega arith))
            ∙ write_bytes_outside _ buf 0 _ f j (inl (omega arith))
      ]
