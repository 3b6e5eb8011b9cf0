-- ===== src/Server/Exchange/Regions.antt =====
-- The two rings of service/src/serial_server.cpp stand in parts of the file of their own.
use k230_lr2021_radio.Prelude.{
  ℕ, ◌+◌, ◌-◌, ◌≡◌, ◌≤◌, ◌<◌, refl, ap, ap₂, ◌∙◌, List, [], ◌∷◌, Option, none, some, true, arith,
  inl, Bool, false, if◌then◌else◌, ◌==◌, ltb, sub32,
}
use k230_lr2021_radio.Server.Parser.{Bytes, word_at}
use k230_lr2021_radio.Server.Ipc.{r2v_base, v2r_base, ring_cap, refill, first_byte, read_byte_ipc}
use k230_lr2021_radio.Server.Ipc.Headers.{word_at-ext, write_word_outside}
use k230_lr2021_radio.Server.Ipc.Cells.{run, run-ext}
use k230_lr2021_radio.Server.Ipc.Fifo.{head_of, tail_of, cell, contents, IsFlat}

-- A ring that another file has just so.
pub record IsSameRing (base : ℕ) (f f' : Bytes) : Type 0 where
  pub head_kept : head_of base f' ≡ head_of base f
  pub contents_kept : contents base f' ≡ contents base f
  pub flat_kept : IsFlat base f → IsFlat base f'

pub same_ring :
    (base : ℕ) (f f' : Bytes)
    → ((j : ℕ) → base ≤ j → j < base + 65536 → f' j ≡ f j)
    → IsSameRing base f f'
same_ring base f f' same =
    let h : head_of base f' ≡ head_of base f =
      word_at-ext f' f base (λ k p. same (base + k) (omega arith) (omega arith)) in
    let t : tail_of base f' ≡ tail_of base f =
      word_at-ext f' f (base + 4) (λ k p. same (base + 4 + k) (omega arith) (omega arith)) in
    record {
      head_kept = h;
      contents_kept =
          ap₂ (λ x y. run (cell base f') x (y - x)) t h
          ∙ run-ext (cell base f') (cell base f) (tail_of base f) (tail_of base f)
              (head_of base f - tail_of base f) (λ k p. same _ (omega arith) (omega arith));
      flat_kept = λ flat.
          let o = flat.ordered in
          let i = flat.fits in record { ordered = omega (arith, h, t); fits = omega (arith, h, t) };
    }

if-below :
    (b : Bool) (x y : Option (List ℕ) × Bytes) (f : Bytes) (j : ℕ)
    → x.1 j ≡ f j
    → y.1 j ≡ f j
    → (if b then x else y).1 j ≡ f j
if-below true x y f j p q = p
if-below false x y f j p q = q

refill_below : (base : ℕ) (f : Bytes) (j : ℕ) → j < base → (refill base f).1 j ≡ f j
unfolding refill
refill_below base f j p = if-below (word_at f base == word_at f (base + 4)) _ _ f j refl (
    if-below (ltb ring_cap (sub32 (word_at f base) (word_at f (base + 4)))) _ _ f j
      (write_word_outside (base + 4) _ f j (inl (omega arith)))
      (write_word_outside (base + 4) _ f j (inl (omega arith))))

first_byte_file : (r : Option (List ℕ) × Bytes) → (first_byte r).2 ≡ r.1
first_byte_file (none, f) = refl
first_byte_file (some [], f) = refl
first_byte_file (some (b ∷ bs), f) = refl

read_byte_below :
    (base : ℕ) (pending : List ℕ) (f : Bytes) (j : ℕ)
    → j < base
    → (read_byte_ipc true base pending f).2 j ≡ f j
unfolding read_byte_ipc
read_byte_below base (b ∷ pending) f j p = refl
read_byte_below base [] f j p =
    ap (λ (g : Bytes). g j) (first_byte_file (refill base f)) ∙ refill_below base f j p

-- A read leaves the ring to the host alone.
pub read_byte-IsSameRing :
    (pending : List ℕ) (f : Bytes) → IsSameRing r2v_base f (read_byte_ipc true v2r_base pending f).2
read_byte-IsSameRing pending f =
    same_ring r2v_base f _ (λ j p q. read_byte_below v2r_base pending f j (omega arith))

-- A change that stays below the ring from the host leaves that alone.
pub outside-IsSameRing :
    (f f' : Bytes) → ((j : ℕ) → 65536 ≤ j → f' j ≡ f j) → IsSameRing v2r_base f f'
outside-IsSameRing f f' same = same_ring v2r_base f f' (λ j p q. same j p)
