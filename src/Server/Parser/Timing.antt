-- ===== src/Server/Parser/Timing.antt =====
-- Bytes with their arrival times, and when the idle rule leaves the parser alone.
use k230_lr2021_radio.Prelude.{
  ℕ, suc, ◌≡◌, refl, ap, ◌∙◌, ◌≤◌, List, [], ◌∷◌, arith, sub32, Bool, true, false, ltb,
}
use k230_lr2021_radio.Server.Parser.{
  Parser, State, Action, nothing, on_byte, take_byte, on_state, resync,
}

abbrev pub emit : Action → List Action → List Action
emit nothing calls = calls
emit a calls = a ∷ calls

-- The loop of `pollOnce` over bytes, the byte number `i` arriving at `times i`, with the calls made.
unfoldable pub feed : (ℕ → ℕ) → ℕ → List ℕ → Parser → Parser × List Action
feed times i [] p = (p, [])
feed times i (b ∷ bs) p =
    let (p', a, _) = on_byte (times i) b p in
    let (p'', calls) = feed times (suc i) bs p' in (p'', emit a calls)

-- No two bytes are more than 100 ms apart.
abbrev pub IsPrompt : (ℕ → ℕ) → Type 0
IsPrompt times = (i : ℕ) → sub32 (times (suc i)) (times i) ≤ 100

-- Between two frames.
pub record IsIdle (p : Parser) : Type 0 where
  pub state : p.state ≡ State.tag
  pub skip : p.skip_remain ≡ 0

-- What a byte does that comes in time.
abbrev pub in_time : ℕ → ℕ → Parser → Parser × Action × Bool
in_time now b p =
    let (p', a) = on_state p.state b (record p { last_arrival_ms = now }) in (p', a, true)

pub resync_prompt :
    (now : ℕ) (p : Parser)
    → sub32 now p.last_arrival_ms ≤ 100
    → resync now p ≡ record p { last_arrival_ms = now }
unfolding resync
resync_prompt now p h = ground arith

resync_idle : (now : ℕ) (p : Parser) → IsIdle p → resync now p ≡ record p { last_arrival_ms = now }
unfolding resync
resync_idle now p idle = ground arith

taken :
    (b : ℕ) (p : Parser)
    → p.skip_remain ≡ 0
    → take_byte b p ≡ (let (p', a) = on_state p.state b p in (p', a, true))
unfolding take_byte
taken b p skip = let none_skipped : ltb 0 p.skip_remain ≡ false = ground arith in rw none_skipped

unskipped :
    (now b : ℕ) (p : Parser)
    → resync now p ≡ record p { last_arrival_ms = now }
    → p.skip_remain ≡ 0
    → on_byte now b p ≡ in_time now b p
unfolding on_byte
unskipped now b p e skip = ap (take_byte b) e ∙ taken b (record p { last_arrival_ms = now }) skip

pub on_byte_prompt :
    (now b : ℕ) (p : Parser)
    → sub32 now p.last_arrival_ms ≤ 100
    → p.skip_remain ≡ 0
    → on_byte now b p ≡ in_time now b p
on_byte_prompt now b p h skip = unskipped now b p (resync_prompt now p h) skip

pub on_byte_idle : (now b : ℕ) (p : Parser) → IsIdle p → on_byte now b p ≡ in_time now b p
on_byte_idle now b p idle = unskipped now b p (resync_idle now p idle) idle.skip

-- Inside a frame, when a byte comes at `now` and the one before it came in time.
pub record IsIn (s : State) (now : ℕ) (p : Parser) : Type 0 where
  pub state : p.state ≡ s
  pub skip : p.skip_remain ≡ 0
  pub recent : sub32 now p.last_arrival_ms ≤ 100

in_state :
    (s : State) (now b : ℕ) (p q : Parser) (a : Action)
    → p.state ≡ s
    → on_byte now b p ≡ in_time now b p
    → on_state s b (record p { last_arrival_ms = now }) ≡ (q, a)
    → on_byte now b p ≡ (q, a, true)
in_state s now b p q a e timely r =
    timely
    ∙ ap
        (λ t.
          let (p', c) = on_state t b (record p { last_arrival_ms = now }) in
          let out : Parser × Action × Bool = (p', c, true) in out)
        e
    ∙ ap (λ (t : Parser × Action). let out : Parser × Action × Bool = (t.0, t.1, true) in out) r

-- A byte in time goes through the case of the parser's state.
pub on_byte_in :
    (s : State) (now b : ℕ) (p q : Parser) (a : Action)
    → IsIn s now p
    → on_state s b (record p { last_arrival_ms = now }) ≡ (q, a)
    → on_byte now b p ≡ (q, a, true)
on_byte_in s now b p q a h r =
    in_state s now b p q a h.state (on_byte_prompt now b p h.recent h.skip) r

-- Between frames it does so whenever it comes.
pub on_byte_first :
    (now b : ℕ) (p q : Parser) (a : Action)
    → IsIdle p
    → on_state State.tag b (record p { last_arrival_ms = now }) ≡ (q, a)
    → on_byte now b p ≡ (q, a, true)
on_byte_first now b p q a h r = in_state State.tag now b p q a h.state (on_byte_idle now b p h) r

-- One byte, then the rest.
pub feed_step :
    (times : ℕ → ℕ) (i b : ℕ) (bs : List ℕ) (p q : Parser) (a : Action) {switched : Bool}
    → on_byte (times i) b p ≡ (q, a, switched)
    → feed times i (b ∷ bs) p ≡ ((feed times (suc i) bs q).0, emit a (feed times (suc i) bs q).1)
unfolding feed
feed_step times i b bs p q a e = rw e

-- Bytes that end between frames and make these calls, with no frame killed.
pub record Makes (calls : List Action) (p : Parser) (r : Parser × List Action) : Type 0 where
  pub idle : IsIdle r.0
  pub called : r.1 ≡ calls
  pub none_killed : r.0.parser_frames_killed ≡ p.parser_frames_killed

pub Makes-step :
    (times : ℕ → ℕ) (i b : ℕ) (bs : List ℕ) (p q : Parser) (a : Action) (calls : List Action)
    {switched : Bool}
    → on_byte (times i) b p ≡ (q, a, switched)
    → q.parser_frames_killed ≡ p.parser_frames_killed
    → Makes calls q (feed times (suc i) bs q)
    → Makes (emit a calls) p (feed times i (b ∷ bs) p)
Makes-step times i b bs p q a calls e k m =
    rw (feed_step times i b bs p q a e)
      (record { idle = m.idle; called = ap (emit a) m.called; none_killed = m.none_killed ∙ k })

pub Makes-end : (times : ℕ → ℕ) (i : ℕ) (p : Parser) → IsIdle p → Makes [] p (feed times i [] p)
unfolding feed
Makes-end times i p h = record { idle = h; called = refl; none_killed = refl }

module _ (times : ℕ → ℕ) (prompt : IsPrompt times) where
  pub next-IsIn :
      (s : State) (i : ℕ) (p : Parser)
      → p.state ≡ s
      → p.skip_remain ≡ 0
      → p.last_arrival_ms ≡ times i
      → IsIn s (times (suc i)) p
  next-IsIn s i p e skip arrival = record {
    state = e;
    skip = skip;
    recent = omega (arith, prompt i);
  }

  -- The first byte of a command, and a byte that follows in time.
  pub first :
      (i b : ℕ) (bs : List ℕ) (p q : Parser) (calls : List Action)
      → IsIdle p
      → on_state State.tag b (record p { last_arrival_ms = times i }) ≡ (q, nothing)
      → q.parser_frames_killed ≡ p.parser_frames_killed
      → Makes calls q (feed times (suc i) bs q)
      → Makes calls p (feed times i (b ∷ bs) p)
  first i b bs p q calls idle e k m =
      Makes-step times i b bs p q nothing calls (on_byte_first (times i) b p q nothing idle e) k m

  pub then_ :
      (s : State) (i b : ℕ) (bs : List ℕ) (p q : Parser) (calls : List Action)
      → IsIn s (times (suc i)) p
      → on_state s b (record p { last_arrival_ms = times (suc i) }) ≡ (q, nothing)
      → q.parser_frames_killed ≡ p.parser_frames_killed
      → Makes calls q (feed times (suc (suc i)) bs q)
      → Makes calls p (feed times (suc i) (b ∷ bs) p)
  then_ s i b bs p q calls h e k m =
      Makes-step times (suc i) b bs p q nothing calls
        (on_byte_in s (times (suc i)) b p q nothing h e) k m
