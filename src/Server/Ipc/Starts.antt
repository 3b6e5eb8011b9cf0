-- ===== src/Server/Ipc/Starts.antt =====
-- The rings that `init` leaves, and those whose counts make no sense.
use k230_lr2021_radio.Prelude.{
  true, ℕ, ◌+◌, ◌-◌, ◌≡◌, ◌<◌, ◌∙◌, refl, sym, subst, ap, [], arith, none, sub32,
}
use k230_lr2021_radio.Server.Parser.{Bytes}
use k230_lr2021_radio.Server.Ipc.{
  init_file, refill, write_word, r2v_base, v2r_base, read_byte_ipc, first_byte,
}
use k230_lr2021_radio.Server.Ipc.Cells.{run}
use k230_lr2021_radio.Server.Ipc.Fifo.{head_of, tail_of, cell, contents, IsFlat}
use k230_lr2021_radio.Server.Ipc.Reads.{head-moved, tail-moved}

-- A ring that is empty, with both counts equal.
pub record IsEmpty (base : ℕ) (f : Bytes) : Type 0 where
  pub nothing_in : contents base f ≡ []
  pub flat : IsFlat base f

of_counts : (base : ℕ) (f : Bytes) → head_of base f ≡ tail_of base f → IsEmpty base f
of_counts base f e = record {
  nothing_in =
      ap (run (cell base f) (tail_of base f)) {x = head_of base f - tail_of base f} {y = 0}
        (omega arith);
  flat = record { ordered = omega arith; fits = omega arith };
}

pub init_file-IsEmpty :
    (size : ℕ) (f : Bytes)
    → IsEmpty r2v_base (init_file size f) × IsEmpty v2r_base (init_file size f)
unfolding init_file write_word
init_file-IsEmpty size f =
    (of_counts r2v_base (init_file size f) refl, of_counts v2r_base (init_file size f) refl)

refill_reset :
    (base : ℕ) (f : Bytes)
    → 65520 < sub32 (head_of base f) (tail_of base f)
    → refill base f ≡ (none, write_word (base + 4) (head_of base f) f)
unfolding refill
refill_reset base f corrupt = ground arith

-- A ring whose counts, words of 32 bits, are further apart than the ring is long is given up by a
-- reader that has nothing left in its buffer and can read the header: it finds nothing, and the ring
-- is empty behind it, with flat counts.
pub refill-resets :
    (base : ℕ) (f : Bytes)
    → head_of base f < 4294967296
    → 65520 < sub32 (head_of base f) (tail_of base f)
    → let out = read_byte_ipc true base [] f in (out.0 ≡ none) × (out.1 ≡ []) × IsEmpty base out.2
unfolding read_byte_ipc
refill-resets base f small corrupt =
    let h = head_of base f in
    let f' = write_word (base + 4) h f in
    subst (λ r. let out = first_byte r in (out.0 ≡ none) × (out.1 ≡ []) × IsEmpty base out.2)
      (sym (refill_reset base f corrupt))
      (refl, refl, of_counts base f' (head-moved base h f small ∙ sym (tail-moved base h f small)))
