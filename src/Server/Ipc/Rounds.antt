-- ===== src/Server/Ipc/Rounds.antt =====
-- The bytes that the loop of `pollOnce` reads from a ring.
use k230_lr2021_radio.Prelude.{
  ℕ, zero, suc, ◌≡◌, ◌<◌, refl, sym, subst, ap, List, [], ◌∷◌, arith, length, Option, none, some,
  true,
}
use k230_lr2021_radio.Server.Parser.{Bytes}
use k230_lr2021_radio.Server.Ipc.{read_byte_ipc, read_round, behind_byte}
use k230_lr2021_radio.Server.Ipc.Fifo.{head_of, contents, IsFlat}
use k230_lr2021_radio.Server.Ipc.Reads.{pop, waiting, read_byte_ipc-pop}
use k230_lr2021_radio.Server.Ipc.Starts.{IsEmpty}

-- A loop that is over: what it read is all that waited, and nothing is left in the ring.
pub record IsRead (base : ℕ) (q : List ℕ) (o : Option (List ℕ × Bytes)) : Type 0 where
  pub file : Bytes
  pub returned : o ≡ some (q, file)
  pub left : IsEmpty base file

nothing_waits :
    (base : ℕ) (pending : List ℕ) (f : Bytes) → waiting base pending f ≡ [] → contents base f ≡ []
nothing_waits base [] f e = e
nothing_waits base (b ∷ pending) f e = cc

behind-IsRead :
    (base b : ℕ) (q : List ℕ) (o : Option (List ℕ × Bytes))
    → IsRead base q o
    → IsRead base (b ∷ q) (behind_byte b o)
behind-IsRead base b q o r = record {
  file = r.file;
  returned = ap (behind_byte b) r.returned;
  left = r.left;
}

-- A round of the loop, by what is popped.
round_of :
    (base : ℕ) (q : List ℕ) (more : List ℕ → Bytes → Option (List ℕ × Bytes))
    (out : Option ℕ × List ℕ × Bytes)
    → (out.0, waiting base out.1 out.2) ≡ pop q
    → IsFlat base out.2
    → ((b : ℕ) (rest : List ℕ)
        → q ≡ b ∷ rest
        → waiting base out.1 out.2 ≡ rest
        → IsRead base rest (more out.1 out.2))
    → IsRead base q
        (elim out.0 [ none ↦ some ([], out.2) | some b ↦ behind_byte b (more out.1 out.2) ])
round_of base [] more (none, p, f) e flat next = record {
  file = f;
  returned = refl;
  left = record {
    nothing_in = nothing_waits base p f (ap (λ (t : Option ℕ × List ℕ). t.1) e);
    flat = flat;
  };
}
round_of base [] more (some b, p, f) e flat next =
    let wrong : ◌≡◌ {A = Option ℕ} (some b) none = ap (λ (t : Option ℕ × List ℕ). t.0) e in
    absurd cc
round_of base (x ∷ q) more (none, p, f) e flat next =
    let wrong : ◌≡◌ {A = Option ℕ} none (some x) = ap (λ (t : Option ℕ × List ℕ). t.0) e in
    absurd cc
round_of base (x ∷ q) more (some b, p, f) e flat next =
    let got : ◌≡◌ {A = Option ℕ} (some b) (some x) = ap (λ (t : Option ℕ × List ℕ). t.0) e in
    let same : b ≡ x = cc in
    subst (λ y. IsRead base (y ∷ q) (behind_byte b (more p f))) same
      (behind-IsRead base b q (more p f) (next x q refl (ap (λ (t : Option ℕ × List ℕ). t.1) e)))

-- On a ring with flat counts whose header can be read, and while nothing else touches the file, the
-- loop is over when it was given more rounds than bytes wait. It read what waited, in the reader's
-- buffer or in the ring, the oldest first, and nothing is left in the ring. The count of the bytes
-- written is a word of 32 bits.
pub read_round-IsRead :
    (fuel base : ℕ) (pending : List ℕ) (f : Bytes)
    → IsFlat base f
    → head_of base f < 4294967296
    → length (waiting base pending f) < fuel
    → IsRead base (waiting base pending f) (read_round fuel base pending f)
unfolding read_round
read_round-IsRead zero base pending f flat small enough = absurd (omega arith)
read_round-IsRead (suc fuel) base pending f flat small enough =
    let out = read_byte_ipc true base pending f in
    let (popped, flat', kept) = read_byte_ipc-pop base pending f flat small in
    round_of base (waiting base pending f) (read_round fuel base) out popped flat' (λ b rest e w.
      subst (λ q. IsRead base q (read_round fuel base out.1 out.2)) w
        (read_round-IsRead fuel base out.1 out.2 flat'
          (subst (λ n. n < 4294967296) (sym kept) small) (omega (arith, ap length e, ap length w))))
