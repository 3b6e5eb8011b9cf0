-- ===== src/Worker/Transmit/OnAir.antt =====
-- What the attempts at a packet put on the air, and what the radio says of them.
use k230_lr2021_radio.Prelude.{
  ℕ, zero, suc, ◌+◌, ◌≡◌, refl, ap, ◌∙◌, ◌≤◌, Bool-cases, inl, inr, Bool, true, false, arith, u32,
  List, ◌∷◌, ◌++◌, replicate, ltb, if◌then◌else◌, some,
}
use k230_lr2021_radio.Device.{
  Env, start_transmit, standby, sleep_us, read_clock, get_clear_irq_status,
}
use k230_lr2021_radio.Worker.State.{Worker, now_ms, call}
use k230_lr2021_radio.Worker.Calls.{on_air, in_flight, completed, Keeps, Keeps-refl, Keeps-trans}
use k230_lr2021_radio.Worker.Transmit.{
  PollExit, tx_done, radio_timeout, deadline_passed, out_of_fuel, poll_tx_done, poll_fuel,
  await_tx_done, confirm, attempts,
}

-- Whether a wait ended by TX_DONE.
abbrev is_done : PollExit → Bool
is_done tx_done = true
is_done radio_timeout = false
is_done deadline_passed = false
is_done out_of_fuel = false

replicate-snoc :
    (n : ℕ) (p : List ℕ) (ps : List (List ℕ))
    → replicate n p ++ (p ∷ ps) ≡ p ∷ (replicate n p ++ ps)
replicate-snoc zero p ps = refl
replicate-snoc (suc n) p ps = ap (◌∷◌ p) (replicate-snoc n p ps)

module _ (env : Env) where
  -- A wait for the end of packet `pkt`, which the radio is sending: it puts nothing on the air, and
  -- the packet is completed just when the wait ends by TX_DONE.
  pub record Awaits (pkt : List ℕ) (w : Worker) (r : PollExit × Worker) : Type 0 where
    pub keeps : Keeps w r.1
    pub aired : on_air env r.1.history ≡ on_air env w.history
    pub landed :
        completed env r.1.history
        ≡ (if is_done r.0 then pkt ∷ completed env w.history else completed env w.history)
    pub counted : r.1.st.packets_tx ≡ w.st.packets_tx

  -- What attempts at a packet put on the air: `left` copies of it at most, and one or more if it
  -- was confirmed. It is completed once if it was confirmed, and not at all if it was not.
  pub record Attempted (left : ℕ) (pkt : List ℕ) (w : Worker) (r : Bool × Worker) : Type 0 where
    pub keeps : Keeps w r.1
    pub counted : r.1.st.packets_tx ≡ w.st.packets_tx
    pub copies : ℕ
    pub aired : on_air env r.1.history ≡ replicate copies pkt ++ on_air env w.history
    pub few : copies ≤ left
    pub one_used : r.0 ≡ true → 1 ≤ copies
    pub landed :
        completed env r.1.history
        ≡ (if r.0 then pkt ∷ completed env w.history else completed env w.history)

  -- An attempt that the radio took (`taken`) or refused, and that was not confirmed.
  record Tried (taken : Bool) (pkt : List ℕ) (w w' : Worker) : Type 0 where
    keeps : Keeps w w'
    aired :
        on_air env w'.history ≡ (if taken then pkt ∷ on_air env w.history else on_air env w.history)
    landed : completed env w'.history ≡ completed env w.history
    counted : w'.st.packets_tx ≡ w.st.packets_tx

  no_more : (pkt : List ℕ) (w : Worker) → Attempted 0 pkt w (false, w)
  no_more pkt w = record {
    keeps = Keeps-refl w;
    counted = refl;
    copies = 0;
    aired = refl;
    few = omega arith;
    one_used = λ e. cc;
    landed = refl;
  }

  retried :
      (left : ℕ) (pkt : List ℕ) (w w' : Worker) (r : Bool × Worker)
      → Tried true pkt w w'
      → Attempted left pkt w' r
      → Attempted (suc left) pkt w r
  retried left pkt w w' r s a = record {
    keeps = Keeps-trans w w' r.1 s.keeps a.keeps;
    counted = a.counted ∙ s.counted;
    copies = suc a.copies;
    aired =
        a.aired
        ∙ ap (◌++◌ (replicate a.copies pkt)) s.aired
        ∙ replicate-snoc a.copies pkt (on_air env w.history);
    few = omega (arith, a.few);
    one_used = λ _. omega arith;
    landed = a.landed ∙ ap (λ ps. if r.0 then pkt ∷ ps else ps) s.landed;
  }

  refused :
      (left : ℕ) (pkt : List ℕ) (w w' : Worker) (r : Bool × Worker)
      → Tried false pkt w w'
      → Attempted left pkt w' r
      → Attempted (suc left) pkt w r
  refused left pkt w w' r s a = record {
    keeps = Keeps-trans w w' r.1 s.keeps a.keeps;
    counted = a.counted ∙ s.counted;
    copies = a.copies;
    aired = a.aired ∙ ap (◌++◌ (replicate a.copies pkt)) s.aired;
    few = omega (arith, a.few);
    one_used = a.one_used;
    landed = a.landed ∙ ap (λ ps. if r.0 then pkt ∷ ps else ps) s.landed;
  }

  -- The wait behind a `startTransmit` that was taken is over without TX_DONE.
  unconfirmed :
      (pkt : List ℕ) (w w' : Worker) (r : PollExit × Worker)
      → Tried true pkt w w'
      → Awaits pkt w' r
      → is_done r.0 ≡ false
      → Tried true pkt w r.1
  unconfirmed pkt w w' r s q e = record {
    keeps = Keeps-trans w w' r.1 s.keeps q.keeps;
    aired = q.aired ∙ s.aired;
    landed =
        q.landed
        ∙ ap (λ b. if b then pkt ∷ completed env w'.history else completed env w'.history) e
        ∙ s.landed;
    counted = q.counted ∙ s.counted;
  }

  confirmed :
      (left : ℕ) (pkt : List ℕ) (w w' w'' : Worker)
      → Tried true pkt w w'
      → Awaits pkt w' (tx_done, w'')
      → Attempted (suc left) pkt w (true, w'')
  confirmed left pkt w w' w'' s q = record {
    keeps = Keeps-trans w w' w'' s.keeps q.keeps;
    counted = q.counted ∙ s.counted;
    copies = 1;
    aired = q.aired ∙ s.aired;
    few = omega arith;
    one_used = λ _. omega arith;
    landed = q.landed ∙ ap (◌∷◌ pkt) s.landed;
  }

  confirm-Attempted :
      (left : ℕ) (pkt : List ℕ) (w w' w'' : Worker) (exit : PollExit)
      (retry : Worker → Bool × Worker)
      → Tried true pkt w w'
      → Awaits pkt w' (exit, w'')
      → Attempted left pkt w'' (retry w'')
      → Attempted (suc left) pkt w (confirm exit w'' retry)
  confirm-Attempted left pkt w w' w'' tx_done retry s q a = confirmed left pkt w w' w'' s q
  confirm-Attempted left pkt w w' w'' radio_timeout retry s q a =
      retried left pkt w w'' (retry w'') (unconfirmed pkt w w' _ s q refl) a
  confirm-Attempted left pkt w w' w'' deadline_passed retry s q a =
      retried left pkt w w'' (retry w'') (unconfirmed pkt w w' _ s q refl) a
  confirm-Attempted left pkt w w' w'' out_of_fuel retry s q a =
      retried left pkt w w'' (retry w'') (unconfirmed pkt w w' _ s q refl) a

  poll-Awaits :
      (fuel deadline : ℕ) (pkt : List ℕ) (w : Worker)
      → in_flight env w.history ≡ some pkt
      → Awaits pkt w (poll_tx_done env fuel deadline w)
  unfolding poll_tx_done
  poll-Awaits zero deadline pkt w flying = record {
    keeps = Keeps-refl w;
    aired = refl;
    landed = refl;
    counted = refl;
  }
  poll-Awaits (suc fuel) deadline pkt w flying = ground (
    arith,
    poll-Awaits fuel deadline pkt
        (call (sleep_us 100) (call get_clear_irq_status (call read_clock w))),
  )

  await-Awaits :
      (pkt : List ℕ) (w : Worker)
      → in_flight env w.history ≡ some pkt
      → Awaits pkt w (await_tx_done env w)
  await-Awaits pkt w flying =
      ground (arith, poll-Awaits poll_fuel (u32 ((now_ms env w).0 + 25)) pkt (call read_clock w))

  -- The calls of one attempt up to `startTransmit`.
  abbrev started : ℕ → List ℕ → Worker → Worker
  started attempt pkt w =
      call (start_transmit pkt) (if ltb 0 attempt then call (sleep_us 500) (call standby w) else w)

  started-Tried :
      (taken : Bool) (attempt : ℕ) (pkt : List ℕ) (w : Worker)
      → env.start_transmit_ok pkt (started attempt pkt w).history ≡ taken
      → Tried taken pkt w (started attempt pkt w)
  started-Tried taken attempt pkt w e = ground arith

  started-flying :
      (attempt : ℕ) (pkt : List ℕ) (w : Worker)
      → env.start_transmit_ok pkt (started attempt pkt w).history ≡ true
      → in_flight env (started attempt pkt w).history ≡ some pkt
  started-flying attempt pkt w e = ground arith

  -- The attempts at a packet send it and nothing else, at most `left` times.
  pub attempts-Attempted :
      (left attempt : ℕ) (pkt : List ℕ) (w : Worker)
      → Attempted left pkt w (attempts env left attempt pkt w)
  unfolding attempts
  attempts-Attempted zero attempt pkt w = no_more pkt w
  attempts-Attempted (suc left) attempt pkt w =
      let w1 = started attempt pkt w in
      elim (Bool-cases (env.start_transmit_ok pkt (started attempt pkt w).history)) [
        | inl taken ↦
            rw (taken, attempts)
              (confirm-Attempted left pkt w w1 (await_tx_done env w1).1 (await_tx_done env w1).0
                (attempts env left (attempt + 1) pkt) (started-Tried true attempt pkt w taken)
                (await-Awaits pkt w1 (started-flying attempt pkt w taken))
                (attempts-Attempted left (attempt + 1) pkt (await_tx_done env w1).1))
        | inr no_start ↦
            rw (no_start, attempts)
              (refused left pkt w w1 _ (started-Tried false attempt pkt w no_start)
                (attempts-Attempted left (attempt + 1) pkt w1))
      ]
