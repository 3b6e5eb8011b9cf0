-- ===== src/Server/Waits/Arrivals.antt =====
-- A byte that comes over IPC while `readByte` of service/src/serial_server.cpp waits for one.
use native.Mathlib.Decide.{dec_le}
use k230_lr2021_radio.Prelude.{
  ℕ, zero, suc, ◌+◌, ◌-◌, ◌*◌, ◌≡◌, ◌≢◌, ◌≤◌, ◌<◌, refl, sym, ap, ◌∙◌, true, false, List, [], ◌∷◌,
  Option, none, some, arith, inl, inr, ◌⊎◌, length, drop, ◌++◌, if◌then◌else◌, ◌==◌,
}
use k230_lr2021_radio.Server.Parser.{Bytes}
use k230_lr2021_radio.Server.Ipc.{refill, first_byte, write_ring, read_byte_ipc}
use k230_lr2021_radio.Server.Ipc.Cells.{length-run}
use k230_lr2021_radio.Server.Ipc.Fifo.{
  head_of, tail_of, cell, contents, push, write_ring-push, head-write_ring,
}
use k230_lr2021_radio.Server.Ipc.Reads.{pop, waiting, read_byte_ipc-pop}
use k230_lr2021_radio.Server.Ipc.Starts.{IsEmpty}
use k230_lr2021_radio.Server.Waits.{ask_ipc, byte_of, wait_byte_ipc}
use k230_lr2021_radio.Server.Waits.Deadlines.{IsPaced, ms, asked, wait_for-IsOver}

-- The other side writes before the `k`-th time that the call asks, and does nothing else.
abbrev pub writes_at : ℕ → ℕ → List ℕ → ℕ → Bytes → Bytes
writes_at k base buf i f = if i == k then write_ring base buf f else f

refill_nothing : (base : ℕ) (f : Bytes) → IsEmpty base f → refill base f ≡ (none, f)
unfolding refill
refill_nothing base f empty =
    let none_there : head_of base f - tail_of base f ≡ 0 =
      sym (length-run (cell base f) (tail_of base f) (head_of base f - tail_of base f))
      ∙ ap length empty.nothing_in in
    let o = empty.flat.ordered in ground arith

later : (clock_ns : ℕ → ℕ) → IsPaced clock_ns → (n d : ℕ) → clock_ns (suc n) ≤ clock_ns (suc n + d)
later clock_ns paced n zero = omega (arith, ap clock_ns {x = suc n} {y = suc n + 0} (omega arith))
later clock_ns paced n (suc d) = omega (
  arith,
  later clock_ns paced n d,
  paced.slept (n + d),
  ap clock_ns {x = suc (suc (n + d))} {y = suc n + suc d} (omega arith),
  ap clock_ns {x = suc (n + d)} {y = suc n + d} (omega arith),
)

abbrev pub ask : ℕ → ℕ → List ℕ → ℕ → Bytes → Option (List ℕ) × Bytes
ask k base buf = ask_ipc (λ i. true) (writes_at k base buf) base

ask_before :
    (k base i : ℕ) (buf : List ℕ) (f : Bytes)
    → IsEmpty base f
    → i ≢ k
    → ask k base buf i f ≡ (none, f)
ask_before k base i buf f empty ne =
    let no : (i == k) ≡ false = ground arith in rw no (refill_nothing base f empty)

ask_then :
    (k base i : ℕ) (buf : List ℕ) (f : Bytes)
    → i ≡ k
    → ask k base buf i f ≡ refill base (write_ring base buf f)
ask_then k base i buf f e = let yes_now : (i == k) ≡ true = ground arith in rw yes_now refl

-- The ring is empty until the other side writes.
asked_before :
    (k base i n : ℕ) (buf : List ℕ) (f : Bytes)
    → IsEmpty base f
    → i + n < k
    → asked (ask k base buf) i f n ≡ (none, f)
asked_before k base i zero buf f empty p = ask_before k base i buf f empty (ground arith)
asked_before k base i (suc n) buf f empty p =
    ap (λ t. asked (ask k base buf) (suc i) t n)
      (ap (λ (r : Option (List ℕ) × Bytes). r.1) (ask_before k base i buf f empty (ground arith)))
    ∙ asked_before k base (suc i) n buf f empty (omega arith)

asked_then :
    (k base i n : ℕ) (buf : List ℕ) (f : Bytes)
    → IsEmpty base f
    → i + n ≡ k
    → asked (ask k base buf) i f n ≡ refill base (write_ring base buf f)
asked_then k base i zero buf f empty e = ask_then k base i buf f (omega arith)
asked_then k base i (suc n) buf f empty e =
    ap (λ t. asked (ask k base buf) (suc i) t n)
      (ap (λ (r : Option (List ℕ) × Bytes). r.1) (ask_before k base i buf f empty (ground arith)))
    ∙ asked_then k base (suc i) n buf f empty (omega arith)

drop_nothing : (n : ℕ) → drop {A = ℕ} n [] ≡ []
drop_nothing zero = refl
drop_nothing (suc n) = refl

-- The ring behind the write holds what was written.
contents_then :
    (base : ℕ) (buf : List ℕ) (f : Bytes)
    → IsEmpty base f
    → length buf ≤ 65520
    → head_of base f + length buf < 4294967296
    → contents base (write_ring base buf f) ≡ buf
contents_then base buf f empty short small =
    (write_ring-push base buf f (base + 65536) empty.flat short small (inr (omega arith))).0
    ∙ ap (push 65520 buf) empty.nothing_in
    ∙ ap (λ q. q ++ buf) (drop_nothing (0 + length buf - 65520))

first_byte-none : (r : Option (List ℕ) × Bytes) → r.0 ≡ none → (first_byte r).0 ≡ none
first_byte-none (none, f) e = refl
first_byte-none (some xs, f) e = absurd cc

-- A call that returned the oldest of these bytes, and left the others to be read.
pub record IsFetched (base b : ℕ) (bs : List ℕ) (o : Option (Option ℕ × List ℕ × Bytes))
    : Type 0 where
  pub out : Option ℕ × List ℕ × Bytes
  pub returned : o ≡ some out
  pub fetched : out.0 ≡ some b
  pub left : waiting base out.1 out.2 ≡ bs

module _ (base b : ℕ) (bs : List ℕ) (f : Bytes) (empty : IsEmpty base f)
    (short : length (b ∷ bs) ≤ 65520) (small : head_of base f + length (b ∷ bs) < 4294967296) where
  abbrev after : Bytes
  after = write_ring base (b ∷ bs) f

  abbrev out : Option ℕ × List ℕ × Bytes
  out = first_byte (refill base after)

  popped_then : ◌≡◌ {A = Option ℕ × List ℕ} (out.0, waiting base out.1 out.2) (some b, bs)
  unfolding read_byte_ipc
  popped_then =
      let (w, flat, same) =
        write_ring-push base (b ∷ bs) f (base + 65536) empty.flat short small (inr (omega arith)) in
      (read_byte_ipc-pop base [] after flat
        (omega (arith, head-write_ring base (b ∷ bs) f empty.flat short small))).0
      ∙ ap pop (contents_then base (b ∷ bs) f empty short small)

  module _ (clock_ns : ℕ → ℕ) (k timeout : ℕ) (paced : IsPaced clock_ns)
      (in_time : (k ≡ 0) ⊎ (ms (clock_ns k) < ms (clock_ns 0) + timeout)) where
    -- The call does not end before the write.
    not_before :
        (n : ℕ)
        → n < k
        → ((asked (ask k base (b ∷ bs)) 0 f n).0 ≡ none
            → ms (clock_ns 0) + timeout ≤ ms (clock_ns (suc n)))
        → ⊥
    not_before n p expired =
        let quiet = ap (λ r. r.0) (asked_before k base 0 n (b ∷ bs) f empty (omega arith)) in
        elim in_time [
          | inl e ↦ omega (arith, e)
          | inr e ↦ omega (
            arith,
            e,
            expired quiet,
            later clock_ns paced n (k - suc n),
            ap clock_ns {x = suc n + (k - suc n)} {y = k} (omega arith),
          )
        ]

    not_behind :
        (n : ℕ) → k < n → ((j : ℕ) → j < n → (asked (ask k base (b ∷ bs)) 0 f j).0 ≡ none) → ⊥
    not_behind n p silent =
        let found = first_byte-none (refill base after) (
          ap (λ r. r.0) (sym (asked_then k base 0 k (b ∷ bs) f empty (omega arith)))
          ∙ silent k p) in
        let got = ap (λ (r : Option ℕ × List ℕ). r.0) popped_then in cc

-- An empty ring with flat counts whose header can be read, into which the other side writes between 1
-- and 65520 bytes before the `k`-th time that `readByte` asks, while the count of the bytes written
-- does not wrap: if `k` is 0 or the reading of the clock before that time is before the deadline, the
-- call returns the first of the bytes, and the others wait behind it. The timeout is at most 2^31 ms,
-- the fuel is 5 rounds for each millisecond and one more, each reading of the clock behind a sleep is
-- 200 us further on at least and none is 10^14 ns behind the last.
pub wait_byte_ipc-IsFetched :
    (base b : ℕ) (bs : List ℕ) (f : Bytes) (clock_ns : ℕ → ℕ) (k timeout_ms fuel : ℕ)
    → IsPaced clock_ns
    → timeout_ms ≤ 2147483648
    → 5 * timeout_ms + 1 ≤ fuel
    → IsEmpty base f
    → length (b ∷ bs) ≤ 65520
    → head_of base f + length (b ∷ bs) < 4294967296
    → (k ≡ 0) ⊎ (ms (clock_ns k) < ms (clock_ns 0) + timeout_ms)
    → IsFetched base b bs
        (wait_byte_ipc (λ i. true) (writes_at k base (b ∷ bs)) clock_ns timeout_ms fuel base [] f)
unfolding wait_byte_ipc
wait_byte_ipc-IsFetched base b bs f clock_ns k timeout_ms fuel paced brief enough empty short small
      in_time =
    let w = wait_for-IsOver (ask k base (b ∷ bs)) clock_ns timeout_ms fuel f paced brief enough in
    let n = w.rounds in
    let out = first_byte (refill base (write_ring base (b ∷ bs) f)) in
    let p = popped_then base b bs f empty short small in
    let at_write : n ≡ k = elim (dec_le k n) [
      | no h ↦ absurd (
          not_before base b bs f empty short small clock_ns k timeout_ms paced in_time n
            (omega arith) w.expired)
      | yes h ↦ elim (dec_le n k) [
        | no h' ↦ absurd (
            not_behind base b bs f empty short small clock_ns k timeout_ms paced in_time n
              (omega arith) (λ j q. (w.silent j q).0))
        | yes h' ↦ omega arith
      ]
    ] in
    record {
      out = out;
      returned =
          ap byte_of w.returned
          ∙ ap (λ r. some (first_byte r))
              (asked_then k base 0 n (b ∷ bs) f empty (omega (arith, at_write)));
      fetched = ap (λ (r : Option ℕ × List ℕ). r.0) p;
      left = ap (λ (r : Option ℕ × List ℕ). r.1) p;
    }
