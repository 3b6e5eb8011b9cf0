-- ===== src/Worker/Sleep.antt =====
-- `sleepUs` of service/src/radio_worker.cpp: short sleeps of the RISC-V build wait for the counter that
-- `rdtime` reads, 27 ticks to a microsecond, and the others are left to `nanosleep`. The readings of
-- the counter in a call are numbered, and each is a word of 64 bits.
use k230_lr2021_radio.Prelude.{
  ℕ, zero, suc, ◌+◌, ◌-◌, ◌*◌, ◌/◌, ◌%◌, ◌≡◌, ◌≤◌, ◌<◌, inl, inr, refl, ap, Bool, true, false, ◌&&◌,
  arith, Option, none, some, ltb, leb, ◌==◌, if◌then◌else◌, Bool-cases,
}

-- uint64_t subtraction of two words.
abbrev sub64 : ℕ → ℕ → ℕ
sub64 a b = (a + 18446744073709551616 - b) % 18446744073709551616

-- The loop, behind `i` readings that came too soon: the number of the reading that ends it. `none` is
-- a loop that is not over by then.
unfoldable pub spin : (ℕ → ℕ) → ℕ → ℕ → ℕ → Option ℕ
spin ticks us zero i = none
spin ticks us (suc fuel) i = elim (leb (us * 27) (sub64 (ticks (suc i)) (ticks 0))) [
  | true ↦ some (suc i)
  | false ↦ spin ticks us fuel (suc i)
]

-- How a call sleeps: not at all, up to a reading of the counter, or by a `timespec`.
pub data Sleep : Type 0 where
  no_sleep : Sleep
  spun : ℕ → Sleep
  nanosleep : ℕ → ℕ → Sleep

abbrev pub spun_to : Option ℕ → Option Sleep
spun_to none = none
spun_to (some i) = some (spun i)

unfoldable pub sleep_for : Bool → (ℕ → ℕ) → ℕ → ℕ → Option Sleep
sleep_for riscv ticks fuel us =
    if us == 0
    then some no_sleep
    else if riscv && ltb us 1000
    then spun_to (spin ticks us fuel 0)
    else some (nanosleep (us / 1000000) (us % 1000000 * 1000))

-- A counter that does not go back: of any `k + 1` readings in a row the last is further on than the
-- first, and the next is less than 2^63 ticks away.
pub record IsCounter (k : ℕ) (count : ℕ → ℕ) : Type 0 where
  pub grows : (i : ℕ) → count i ≤ count (suc i)
  pub moves : (i : ℕ) → count i < count (i + k)
  pub bounded : (i : ℕ) → count (suc i) < count i + 9223372036854775808

abbrev pub word64 : (ℕ → ℕ) → ℕ → ℕ
word64 count i = count i % 18446744073709551616

-- Whether a sleep is long enough for its microseconds, and for `nanosleep` just as long.
abbrev pub Lasts : (ℕ → ℕ) → ℕ → Sleep → Type 0
Lasts count us no_sleep = us ≡ 0
Lasts count us (spun i) = count 0 + us * 27 ≤ count i
Lasts count us (nanosleep sec nsec) = (sec * 1000000000 + nsec ≡ us * 1000) × (nsec < 1000000000)

elapsed_lem :
    (start now : ℕ)
    → start ≤ now
    → now < start + 18446744073709551616
    → sub64 (now % 18446744073709551616) (start % 18446744073709551616) ≡ now - start
elapsed_lem start now h k = omega arith

module _ (k : ℕ) (count : ℕ → ℕ) (counter : IsCounter k count) (us : ℕ) (short : us < 1000) where
  further : (i r : ℕ) → count i ≤ count (i + r)
  further i zero = omega (arith, ap count {x = i} {y = i + 0} (omega arith))
  further i (suc r) = omega (
    arith,
    further i r,
    counter.grows (i + r),
    ap count {x = suc (i + r)} {y = i + suc r} (omega arith),
  )

  counted : (m : ℕ) → count 0 + m ≤ count (m * k)
  counted zero = omega (arith, ap count {x = 0} {y = 0 * k} (omega arith))
  counted (suc m) = omega (
    arith,
    counted m,
    counter.moves (m * k),
    ap count {x = m * k + k} {y = suc m * k} (omega arith),
  )

  reached : (m i : ℕ) → m * k ≤ i → count 0 + m ≤ count i
  reached m i h = omega (
    arith,
    counted m,
    further (m * k) (i - m * k),
    ap count {x = m * k + (i - m * k)} {y = i} (omega arith),
  )

  -- The loop is over behind a reading that is late enough.
  abbrev IsSpun : Option ℕ → Type 0
  IsSpun o = (n : ℕ) × (o ≡ some n) × (count 0 + us * 27 ≤ count n)

  spin_step :
      (b : Bool) (i : ℕ) (rest : Option ℕ)
      → (b ≡ true → count 0 + us * 27 ≤ count i)
      → (b ≡ false → IsSpun rest)
      → IsSpun (elim b [ true ↦ some i | false ↦ rest ])
  spin_step true i rest late more = (i, refl, late refl)
  spin_step false i rest late more = more refl

  spin-IsSpun :
      (fuel i : ℕ)
      → count i ≤ count 0 + us * 27
      → (us * 27 + 1) * k ≤ fuel + i
      → IsSpun (spin (word64 count) us fuel i)
  unfolding spin
  spin-IsSpun zero i soon enough = absurd (omega (arith, reached (us * 27 + 1) i (omega arith)))
  spin-IsSpun (suc fuel) i soon enough =
      let g = reached 0 (suc i) (omega arith) in
      let near = counter.bounded i in
      let e = elapsed_lem (count 0) (count (suc i)) (omega arith) (omega arith) in
      spin_step (leb (us * 27) (sub64 (word64 count (suc i)) (word64 count 0))) (suc i)
        (spin (word64 count) us fuel (suc i)) (λ done. ground (arith, e, done))
        (λ more. spin-IsSpun fuel (suc i) (ground (arith, e, more)) (omega arith))

long_sleep :
    (us : ℕ)
    → (us / 1000000 * 1000000000 + us % 1000000 * 1000 ≡ us * 1000)
      × (us % 1000000 * 1000 < 1000000000)
long_sleep us = (omega arith, omega arith)

-- If of any `k + 1` readings of the counter in a row the last is further on than the first, and each is
-- less than 2^63 ticks behind the next, then `sleepUs` is over after at most `k` readings for each tick
-- and `k` more. Behind it the counter has gone on by 27 ticks for each microsecond or more, across its
-- wrap at 2^64, or `nanosleep` was asked for exactly the time, as seconds and less than 10^9
-- nanoseconds, or there was no time to wait for.
pub sleep_for-Lasts :
    (riscv : Bool) (k : ℕ) (count : ℕ → ℕ) (fuel us : ℕ)
    → IsCounter k count
    → (us * 27 + 1) * k ≤ fuel
    → (s : Sleep) × (sleep_for riscv (word64 count) fuel us ≡ some s) × Lasts count us s
unfolding sleep_for
sleep_for-Lasts riscv k count fuel us counter enough = elim (Bool-cases (us == 0)) [
  | inl zero_us ↦ rw zero_us (no_sleep, refl, ground (arith, zero_us))
  | inr some_us ↦ elim (Bool-cases (riscv && ltb us 1000)) [
    | inl brief ↦
        let (n, ended, late) =
          spin-IsSpun k count counter us (ground (arith, brief)) fuel 0 (omega arith)
            (omega arith) in
        rw (some_us, brief) (spun n, ap spun_to ended, late)
    | inr long ↦
        rw (some_us, long) (nanosleep (us / 1000000) (us % 1000000 * 1000), refl, long_sleep us)
  ]
]
