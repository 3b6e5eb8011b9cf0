-- ===== src/Server/Ipc/Reads.antt =====
-- What `readByte` takes from a ring.
use k230_lr2021_radio.Prelude.{
  true, ℕ, ◌+◌, ◌-◌, ◌%◌, ◌≡◌, ◌≢◌, ◌≤◌, ◌<◌, ◌⊎◌, inl, inr, ◌∙◌, refl, sym, subst, ap, ap₂, List,
  [], ◌∷◌, ◌++◌, arith, length, Option, none, some, if◌then◌else◌, ltb, append-nil,
}
use k230_lr2021_radio.Server.Parser.{Bytes, slice}
use k230_lr2021_radio.Server.Ipc.{write_word, read_ring, refill, first_byte, read_byte_ipc}
use k230_lr2021_radio.Server.Ipc.Headers.{word_at-ext, write_word_outside, word_at-write_word}
use k230_lr2021_radio.Server.Ipc.Cells.{run, length-run, run-ext, run-append, slice-run}
use k230_lr2021_radio.Server.Ipc.Fifo.{head_of, tail_of, cell, contents, IsFlat}

slice-cells :
    (base t : ℕ) (f : Bytes) (i n : ℕ)
    → ((k : ℕ) → k < n → i + k ≡ base + 16 + (t + k) % 65520)
    → slice f i n ≡ run (cell base f) t n
slice-cells base t f i n e = slice-run f i n ∙ run-ext f (cell base f) i t n (λ k p. ap f (e k p))

module _ (base t n : ℕ) (f : Bytes) (few : n ≤ 65520) where
  read_ring_whole :
      t % 65520 + n ≤ 65520 → read_ring base t n f ≡ slice f (base + 16 + t % 65520) n ++ []
  unfolding read_ring
  read_ring_whole fits = ground arith

  read_ring_split :
      65520 < t % 65520 + n
      → read_ring base t n f
        ≡ slice f (base + 16 + t % 65520) (65520 - t % 65520)
          ++ slice f (base + 16) (n - (65520 - t % 65520))
  unfolding read_ring
  read_ring_split over = ground arith

  fits_or_over : (t % 65520 + n ≤ 65520) ⊎ (65520 < t % 65520 + n)
  fits_or_over = ground arith

  -- The pieces of a read are a run of cells.
  pub read_ring_lem : read_ring base t n f ≡ run (cell base f) t n
  read_ring_lem = elim fits_or_over [
    | inl fits ↦ read_ring_whole fits ∙ append-nil _ ∙ slice-cells base t f _ n (λ k p. omega arith)
    | inr over ↦
        read_ring_split over
        ∙ ap₂ ◌++◌ (slice-cells base t f _ (65520 - t % 65520) (λ k p. omega arith)) (
            slice-cells base (t + (65520 - t % 65520)) f _ (n - (65520 - t % 65520))
              (λ k p. omega arith))
        ∙ run-append (cell base f) t (65520 - t % 65520) (n - (65520 - t % 65520))
        ∙ ap (run (cell base f) t) {x = 65520 - t % 65520 + (n - (65520 - t % 65520))} {y = n}
            (omega arith)
  ]

module _ (base n : ℕ) (f : Bytes) (small : n < 4294967296) where
  abbrev moved : Bytes
  moved = write_word (base + 4) n f

  pub head-moved : head_of base moved ≡ head_of base f
  head-moved =
      word_at-ext moved f base
        (λ k p. write_word_outside (base + 4) n f (base + k) (inl (omega arith)))

  pub tail-moved : tail_of base moved ≡ n
  tail-moved = word_at-write_word (base + 4) n f small

  contents-moved : contents base moved ≡ run (cell base f) n (head_of base f - n)
  contents-moved =
      ap₂ (λ x y. run (cell base moved) x (y - x)) tail-moved head-moved
      ∙ run-ext (cell base moved) (cell base f) n n (head_of base f - n)
          (λ k p. write_word_outside (base + 4) n f _ (inr (omega arith)))

-- The oldest byte of a queue, and the queue behind it.
abbrev pub pop : List ℕ → Option ℕ × List ℕ
pop [] = (none, [])
pop (b ∷ q) = (some b, q)

-- The bytes that a reader has before it, those of its buffer first.
abbrev pub waiting : ℕ → List ℕ → Bytes → List ℕ
waiting base pending f = pending ++ contents base f

-- How many bytes are taken of those that are there.
abbrev quota : ℕ → ℕ
quota avail = if ltb avail 4096 then avail else 4096

quota_le : (avail : ℕ) → quota avail ≤ avail
quota_le avail = ground arith

quota_cap : (avail : ℕ) → quota avail ≤ 4096
quota_cap avail = ground arith

quota_pos : (avail : ℕ) → avail ≢ 0 → 0 < quota avail
quota_pos avail h = ground arith

-- A step of the reader, against the queue before it.
record IsPop (base h : ℕ) (q : List ℕ) (out : Option ℕ × List ℕ × Bytes) : Type 0 where
  popped : (out.0, waiting base out.1 out.2) ≡ pop q
  flat : IsFlat base out.2
  kept : head_of base out.2 ≡ h

served :
    (base h : ℕ) (xs q : List ℕ) (f : Bytes)
    → 0 < length xs
    → q ≡ xs ++ contents base f
    → IsFlat base f
    → head_of base f ≡ h
    → IsPop base h q (first_byte (some xs, f))
served base h [] q f some_there e flat kept = absurd (omega arith)
served base h (x ∷ xs) q f some_there e flat kept = record {
  popped = ap pop (sym e);
  flat = flat;
  kept = kept;
}

module _ (base : ℕ) (f : Bytes) (flat : IsFlat base f) (small : head_of base f < 4294967296) where
  refill_empty : head_of base f ≡ tail_of base f → refill base f ≡ (none, f)
  unfolding refill
  refill_empty e = ground arith

  refill_filled :
      head_of base f ≢ tail_of base f
      → let n = quota (head_of base f - tail_of base f) in
        refill base f
        ≡ (some (read_ring base (tail_of base f) n f), write_word (base + 4) (tail_of base f + n) f)
  unfolding refill
  refill_filled ne = let o = flat.ordered in let i = flat.fits in ground arith

  refill_empty-IsPop :
      head_of base f ≡ tail_of base f
      → IsPop base (head_of base f) (contents base f) (first_byte (refill base f))
  refill_empty-IsPop e =
      subst (λ r. IsPop base (head_of base f) (contents base f) (first_byte r))
        (sym (refill_empty e))
        (record {
          popped = ap (λ q. (none, q)) empty ∙ ap pop (sym empty);
          flat = flat;
          kept = refl;
        })
    where
      empty : contents base f ≡ []
      empty =
          ap (run (cell base f) (tail_of base f)) {x = head_of base f - tail_of base f} {y = 0}
            (omega arith)

  refill_filled-IsPop :
      head_of base f ≢ tail_of base f
      → IsPop base (head_of base f) (contents base f) (first_byte (refill base f))
  refill_filled-IsPop ne =
      let h = head_of base f in
      let t = tail_of base f in
      let n = quota (h - t) in
      let o = flat.ordered in
      let i = flat.fits in
      let le = quota_le (h - t) in
      let few = quota_cap (h - t) in
      let some_there = quota_pos (h - t) (omega arith) in
      let small' : t + n < 4294967296 = omega arith in
      let whole = read_ring_lem base t n f (omega arith) in
      let f' = write_word (base + 4) (t + n) f in
      subst (λ r. IsPop base (head_of base f) (contents base f) (first_byte r))
        (sym (refill_filled ne))
        (served base h (read_ring base t n f) (contents base f) f'
          (subst (λ l. 0 < l) (sym (ap length whole ∙ length-run (cell base f) t n)) some_there)
          (ap (run (cell base f) t) {x = h - t} {y = n + (h - (t + n))} (omega arith)
            ∙ sym (run-append (cell base f) t n (h - (t + n)))
            ∙ ap₂ ◌++◌ (sym whole) (sym (contents-moved base (t + n) f small')))
          (record {
            ordered =
                omega (arith, head-moved base (t + n) f small', tail-moved base (t + n) f small');
            fits =
                omega (arith, head-moved base (t + n) f small', tail-moved base (t + n) f small');
          })
          (head-moved base (t + n) f small'))

  refill-IsPop : IsPop base (head_of base f) (contents base f) (first_byte (refill base f))
  refill-IsPop = elim same_or_not [ inl e ↦ refill_empty-IsPop e | inr ne ↦ refill_filled-IsPop ne ]
    where
      same_or_not : (head_of base f ≡ tail_of base f) ⊎ (head_of base f ≢ tail_of base f)
      same_or_not = ground arith

-- On a ring with flat counts whose header can be read, a byte read is the oldest of those that wait,
-- in the reader's buffer or in the ring, and none is lost, repeated or moved; -1 is returned when none
-- waits. The counts stay flat, and that of the bytes written, a word of 32 bits, does not change.
pub read_byte_ipc-pop :
    (base : ℕ) (pending : List ℕ) (f : Bytes)
    → IsFlat base f
    → head_of base f < 4294967296
    → let out = read_byte_ipc true base pending f in
      ((out.0, waiting base out.1 out.2) ≡ pop (waiting base pending f))
      × IsFlat base out.2
      × (head_of base out.2 ≡ head_of base f)
unfolding read_byte_ipc
read_byte_ipc-pop base (b ∷ pending) f flat small = (refl, flat, refl)
read_byte_ipc-pop base [] f flat small =
    let r = refill-IsPop base f flat small in (r.popped, r.flat, r.kept)
