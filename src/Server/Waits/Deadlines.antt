-- ===== src/Server/Waits/Deadlines.antt =====
-- When `readByte` of service/src/serial_server.cpp returns, and with what.
use native.Mathlib.Decide.{dec_le}
use k230_lr2021_radio.Prelude.{
  ℕ, zero, suc, ◌+◌, ◌*◌, ◌/◌, ◌≡◌, ◌≤◌, ◌<◌, refl, sym, ap, ◌∙◌, Bool, true, false, Option, none,
  some, arith, inl, inr, ◌⊎◌, subst,
}
use k230_lr2021_radio.Server.Waits.{gives_up, wait_for}

-- The clock's readings in a call: the shorter of the two sleeps stands before each from number 2 on,
-- and between two readings are at most 10^14 ns.
pub record IsPaced (clock_ns : ℕ → ℕ) : Type 0 where
  pub forward : clock_ns 0 ≤ clock_ns 1
  pub slept : (i : ℕ) → clock_ns (suc i) + 200000 ≤ clock_ns (suc (suc i))
  pub bounded : (i : ℕ) → clock_ns (suc i) ≤ clock_ns i + 100000000000000

-- The whole milliseconds of a reading.
abbrev pub ms : ℕ → ℕ
ms ns = ns / 1000000

gives_up_early :
    (timeout start now : ℕ)
    → timeout ≤ 2147483648
    → ms now < ms start + timeout
    → ms start ≤ ms now
    → gives_up timeout start now ≡ false
gives_up_early timeout start now short early later = ground arith

gives_up_late :
    (timeout start now : ℕ)
    → ms start + timeout ≤ ms now
    → ms now ≤ ms start + timeout + 100000001
    → gives_up timeout start now ≡ true
gives_up_late timeout start now late near = ground arith

-- What the call finds at the `n`-th time that it asks from number `i` on.
abbrev pub asked {ℓ} : {A S : Type ℓ} → (ℕ → S → Option A × S) → ℕ → S → ℕ → Option A × S
asked ask i s zero = ask i s
asked ask i s (suc n) = asked ask (suc i) (ask i s).1 n

-- A call that is over: it asked until there was something or the deadline had passed, and returned
-- what it found then.
pub record IsWaited {ℓ} {A S : Type ℓ} (ask : ℕ → S → Option A × S) (clock_ns : ℕ → ℕ) (due i : ℕ)
    (s : S) (o : Option (Option A × S)) : Type ℓ where
  pub rounds : ℕ
  pub returned : o ≡ some (asked ask i s rounds)
  pub silent :
      (j : ℕ) → j < rounds → ((asked ask i s j).0 ≡ none) × (ms (clock_ns (suc (i + j))) < due)
  pub expired : (asked ask i s rounds).0 ≡ none → due ≤ ms (clock_ns (suc (i + rounds)))

module _ (clock_ns : ℕ → ℕ) (paced : IsPaced clock_ns) where
  pub paced_lem : (i : ℕ) → clock_ns 0 + i * 200000 ≤ clock_ns (suc i)
  paced_lem zero = omega (arith, paced.forward)
  paced_lem (suc i) = omega (arith, paced_lem i, paced.slept i)

  module _ {ℓ} {A S : Type ℓ} (ask : ℕ → S → Option A × S) (timeout : ℕ)
      (short : timeout ≤ 2147483648) where
    abbrev due : ℕ
    due = ms (clock_ns 0) + timeout

    abbrev OverAt : ℕ → S → Option (Option A × S) → Type ℓ
    OverAt i s o = IsWaited ask clock_ns due i s o

    late_of :
        (i : ℕ)
        → gives_up timeout (clock_ns 0) (clock_ns (suc i)) ≡ true
        → due ≤ ms (clock_ns (suc i))
    late_of i e = elim (dec_le due (ms (clock_ns (suc i)))) [
      | yes h ↦ h
      | no h ↦
          let p = paced_lem i in
          absurd (
            cc (
              gives_up_early timeout (clock_ns 0) (clock_ns (suc i)) short (omega arith)
                (omega arith)))
    ]

    early_of :
        (i : ℕ)
        → (i ≡ 0) ⊎ (ms (clock_ns i) < due)
        → gives_up timeout (clock_ns 0) (clock_ns (suc i)) ≡ false
        → ms (clock_ns (suc i)) < due
    early_of i live e = elim (dec_le due (ms (clock_ns (suc i)))) [
      | yes h ↦ absurd (cc (gives_up_late timeout (clock_ns 0) (clock_ns (suc i)) h (near i live)))
      | no h ↦ omega arith
    ]
      where
        near : (i : ℕ) → (i ≡ 0) ⊎ (ms (clock_ns i) < due) → ms (clock_ns (suc i)) ≤ due + 100000001
        near zero live = let b = paced.bounded 0 in omega arith
        near (suc i) (inl e) = absurd (omega (arith, e))
        near (suc i) (inr e) = let b = paced.bounded (suc i) in omega arith

    first_round :
        (i : ℕ) (s : S)
        → ((ask i s).0 ≡ none → due ≤ ms (clock_ns (suc i)))
        → OverAt i s (some (ask i s))
    first_round i s late = record {
      rounds = 0;
      returned = refl;
      silent = λ j p. absurd (omega arith);
      expired = λ e. omega (arith, late e, ap clock_ns {x = suc (i + 0)} {y = suc i} (omega arith));
    }

    next_round :
        (i : ℕ) (s s' : S) (o : Option (Option A × S))
        → ask i s ≡ (none, s')
        → ms (clock_ns (suc i)) < due
        → OverAt (suc i) s' o
        → OverAt i s o
    next_round i s s' o e early next = record {
      rounds = suc next.rounds;
      returned =
          next.returned ∙ ap (λ t. some (asked ask (suc i) t next.rounds)) (sym (ap (λ r. r.1) e));
      silent = still;
      expired = λ none_there. omega (
        arith,
        next.expired
            (ap (λ t. (asked ask (suc i) t next.rounds).0) (sym (ap (λ r. r.1) e)) ∙ none_there),
        ap clock_ns {x = suc (suc i + next.rounds)} {y = suc (i + suc next.rounds)} (omega arith),
      );
    }
      where
        still :
            (j : ℕ)
            → j < suc next.rounds
            → ((asked ask i s j).0 ≡ none) × (ms (clock_ns (suc (i + j))) < due)
        still zero p = (
          ap (λ r. r.0) e,
          omega (arith, early, ap clock_ns {x = suc (i + 0)} {y = suc i} (omega arith)),
        )
        still (suc j) p =
            let (found, soon) = next.silent j (omega arith) in
            (
              ap (λ t. (asked ask (suc i) t j).0) (ap (λ r. r.1) e) ∙ found,
              omega (
                arith,
                soon,
                ap clock_ns {x = suc (suc i + j)} {y = suc (i + suc j)} (omega arith),
              ),
            )

    step_of :
        (i : ℕ) (s : S) (out : Option A × S) (b : Bool) (more : S → Option (Option A × S))
        → ask i s ≡ out
        → (b ≡ true → due ≤ ms (clock_ns (suc i)))
        → (b ≡ false → ms (clock_ns (suc i)) < due)
        → (b ≡ false → OverAt (suc i) out.1 (more out.1))
        → OverAt i s (elim out.0 [
          | some a ↦ some (some a, out.1)
          | none ↦ elim b [ true ↦ some (none, out.1) | false ↦ more out.1 ]
        ])
    step_of i s (some a, s') b more e late early next =
        subst (λ r. OverAt i s (some r)) e (first_round i s (λ none_there. absurd cc))
    step_of i s (none, s') true more e late early next =
        subst (λ r. OverAt i s (some r)) e (first_round i s (λ none_there. late refl))
    step_of i s (none, s') false more e late early next =
        next_round i s s' (more s') e (early refl) (next refl)

    -- The round behind a reading of the clock that was before the deadline, or the first one.
    wait_for-IsWaited :
        (fuel i : ℕ) (s : S)
        → (i ≡ 0) ⊎ (ms (clock_ns i) < due)
        → 5 * timeout + 1 ≤ fuel + i
        → OverAt i s (wait_for ask clock_ns timeout fuel i s)
    unfolding wait_for
    wait_for-IsWaited zero zero s live enough = absurd (omega arith)
    wait_for-IsWaited zero (suc i) s (inl e) enough = absurd (omega (arith, e))
    wait_for-IsWaited zero (suc i) s (inr e) enough = absurd (omega (arith, e, paced_lem i))
    wait_for-IsWaited (suc fuel) i s live enough =
        step_of i s (ask i s) (gives_up timeout (clock_ns 0) (clock_ns (suc i)))
          (wait_for ask clock_ns timeout fuel (suc i)) refl (late_of i) (early_of i live)
          (λ e. wait_for-IsWaited fuel (suc i) (ask i s).1 (inr (early_of i live e)) (omega arith))

-- A call that is over, from its first time on.
pub record IsOver {ℓ} {A S : Type ℓ} (ask : ℕ → S → Option A × S) (clock_ns : ℕ → ℕ) (due : ℕ)
    (s : S) (o : Option (Option A × S)) : Type ℓ where
  pub rounds : ℕ
  pub returned : o ≡ some (asked ask 0 s rounds)
  pub silent : (j : ℕ) → j < rounds → ((asked ask 0 s j).0 ≡ none) × (ms (clock_ns (suc j)) < due)
  pub expired : (asked ask 0 s rounds).0 ≡ none → due ≤ ms (clock_ns (suc rounds))

pub wait_for-IsOver {ℓ} :
    {A S : Type ℓ} (ask : ℕ → S → Option A × S) (clock_ns : ℕ → ℕ) (timeout fuel : ℕ) (s : S)
    → IsPaced clock_ns
    → timeout ≤ 2147483648
    → 5 * timeout + 1 ≤ fuel
    → IsOver ask clock_ns (ms (clock_ns 0) + timeout) s (wait_for ask clock_ns timeout fuel 0 s)
wait_for-IsOver ask clock_ns timeout fuel s paced short enough =
    let w = wait_for-IsWaited clock_ns paced ask timeout short fuel 0 s (inl refl) (omega arith) in
    record {
      rounds = w.rounds;
      returned = w.returned;
      silent = λ j p.
          let (nothing, soon) = w.silent j p in
          (nothing, omega (arith, soon, ap clock_ns {x = suc (0 + j)} {y = suc j} (omega arith)));
      expired = λ e. omega (
        arith,
        w.expired e,
        ap clock_ns {x = suc (0 + w.rounds)} {y = suc w.rounds} (omega arith),
      );
    }
