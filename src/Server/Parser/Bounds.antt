-- ===== src/Server/Parser/Bounds.antt =====
-- The parser's buffers, and length fields that are out of range.
use k230_lr2021_radio.Prelude.{
  ℕ, suc, ◌+◌, ◌-◌, ◌*◌, ◌/◌, ◌%◌, ◌≡◌, refl, Bool-cases, ap, ◌∙◌, ◌≤◌, ◌<◌, inl, inr, List, [],
  ◌∷◌, arith, length, sub32, ltb, not, ◌&&◌, ◌||◌, false, join16, join16-bytes,
}
use Prim.{tt}
use k230_lr2021_radio.Burst.{max_total_payload}
use k230_lr2021_radio.Server.Parser.{
  Parser, State, nothing, bad_tx_len, on_byte, on_state, take_byte, resync, is_tag,
}
use k230_lr2021_radio.Server.Parser.Timing.{
  IsIdle, IsPrompt, Makes, Makes-step, Makes-end, feed, on_byte_in, resync_prompt, first, then_,
  next-IsIn,
}

-- The index of the next write is inside `window_body[8]`, `config_body[17]`, `tx_buf[24576]` and
-- `qbuf[68]`, and the body that is being filled fits.
abbrev pub InBounds : State → Parser → Type 0
InBounds State.set_window p = p.have < 8
InBounds State.config p = (p.have < p.frame_len) × (p.frame_len ≤ 17)
InBounds State.payload p = (p.have < p.frame_len) × (p.frame_len ≤ max_total_payload)
InBounds State.scan_body p = (p.scan_have < 4 + p.scan_count * 4) × (p.scan_count ≤ 16)
InBounds _ p = Unit {0}

on_state-InBounds :
    (s : State) (b : ℕ) (p : Parser)
    → p.state ≡ s
    → InBounds s p
    → InBounds (on_state s b p).0.state (on_state s b p).0
unfolding on_state
on_state-InBounds State.tag b p e h = ground arith
on_state-InBounds State.tx_magic b p e h = ground arith
on_state-InBounds State.set_window b p e h = ground arith
on_state-InBounds State.len_lo b p e h = tt
on_state-InBounds State.len_hi b p e h = ground arith
on_state-InBounds State.config b p e h = ground arith
on_state-InBounds State.payload b p e h = ground arith
on_state-InBounds State.scan_count b p e h = ground arith
on_state-InBounds State.scan_body b p e h = ground arith

abbrev pub AreInBounds : Parser → Type 0
AreInBounds p = InBounds p.state p

-- The idle rule goes to a state without a buffer, or stays where it is.
resync-InBounds : (now : ℕ) (p : Parser) → AreInBounds p → AreInBounds (resync now p)
unfolding resync
resync-InBounds now p h =
    elim (Bool-cases
      ((not (is_tag p.state) || ltb 0 p.skip_remain) && ltb 100 (sub32 now p.last_arrival_ms))) [
        | inl dropped ↦ rw dropped tt
        | inr kept ↦ rw kept (unmoved p.state now p h)
      ]
  where
    unmoved :
        (s : State) (now : ℕ) (p : Parser)
        → InBounds s p
        → InBounds s (record p { last_arrival_ms = now })
    unmoved State.set_window now p h = h
    unmoved State.config now p h = h
    unmoved State.payload now p h = h
    unmoved State.scan_body now p h = h
    unmoved _ now p h = tt

take_byte-InBounds : (b : ℕ) (p : Parser) → AreInBounds p → AreInBounds (take_byte b p).0
unfolding take_byte
take_byte-InBounds b p h = elim (Bool-cases (ltb 0 p.skip_remain)) [
  | inl skipped ↦ rw skipped (unmoved p.state p h)
  | inr read ↦ rw read (on_state-InBounds p.state b p refl h)
]
  where
    unmoved :
        (s : State) (p : Parser)
        → InBounds s p
        → InBounds s (record p { skip_remain = p.skip_remain - 1 })
    unmoved State.set_window p h = h
    unmoved State.config p h = h
    unmoved State.payload p h = h
    unmoved State.scan_body p h = h
    unmoved _ p h = tt

-- No input makes the parser write outside a buffer: from a state in which the next index is in
-- its range, whatever bytes come, at whatever times, it stays in its range.
pub feed-InBounds :
    (times : ℕ → ℕ) (bs : List ℕ) (i : ℕ) (p : Parser)
    → AreInBounds p
    → AreInBounds (feed times i bs p).0
unfolding feed on_byte
feed-InBounds times [] i p h = h
feed-InBounds times (b ∷ bs) i p h =
    feed-InBounds times bs (suc i) (on_byte (times i) b p).0
      (take_byte-InBounds b (resync (times i) p) (resync-InBounds (times i) p h))

skipped :
    (b : ℕ) (p : Parser)
    → 0 < p.skip_remain
    → take_byte b p ≡ (record p { skip_remain = p.skip_remain - 1 }, nothing, false)
unfolding take_byte
skipped b p k = ground arith

skip_step :
    (now b : ℕ) (p : Parser)
    → sub32 now p.last_arrival_ms ≤ 100
    → 0 < p.skip_remain
    → on_byte now b p
      ≡ (record p { last_arrival_ms = now; skip_remain = p.skip_remain - 1 }, nothing, false)
unfolding on_byte
skip_step now b p h k =
    ap (take_byte b) (resync_prompt now p h) ∙ skipped b (record p { last_arrival_ms = now }) k

module _ (times : ℕ → ℕ) (prompt : IsPrompt times) where
  -- Bytes that are to be skipped call nothing and start nothing, whatever they are.
  drain :
      (xs : List ℕ) (i : ℕ) (p : Parser)
      → p.state ≡ State.tag
      → p.skip_remain ≡ length xs
      → p.last_arrival_ms ≡ times i
      → Makes [] p (feed times (suc i) xs p)
  drain [] i p e n arrival = Makes-end times (suc i) p (record { state = e; skip = n })
  drain (x ∷ xs) i p e n arrival =
      let q = record p { last_arrival_ms = times (suc i); skip_remain = p.skip_remain - 1 } in
      Makes-step times (suc i) x xs p q nothing []
        (skip_step (times (suc i)) x p (omega (arith, prompt i)) (omega arith)) refl
        (drain xs (suc i) q e (omega arith) refl)

  -- A transmit frame of over 24576 bytes (and under 65536, the range of its length field), sent
  -- between frames with no gap of over 100 ms, is answered with one error, and its payload is
  -- drained: no byte of it is taken for a command.
  pub oversized-Makes :
      (xs : List ℕ) (i : ℕ) (p : Parser)
      → IsIdle p
      → max_total_payload < length xs
      → length xs < 65536
      → Makes
          (bad_tx_len ∷ [])
          p
          (feed times i (b'T' ∷ b'X' ∷ length xs % 256 ∷ length xs / 256 % 256 ∷ xs) p)
  unfolding on_state
  oversized-Makes xs i p idle long fits =
      let n = length xs in
      let p1 = record p {
        last_arrival_ms = times i;
        tag_byte = b'T';
        state = State.tx_magic;
        have = 0;
      } in
      let p2 = record p1 { last_arrival_ms = times (suc i); state = State.len_lo } in
      let p3 = record p2 {
        last_arrival_ms = times (suc (suc i));
        frame_len = n % 256;
        state = State.len_hi;
      } in
      let p4 = record p3 {
        last_arrival_ms = times (suc (suc (suc i)));
        frame_len = n;
        skip_remain = n;
        state = State.tag;
      } in
      let word : join16 (n % 256) (n / 256 % 256) ≡ n = join16-bytes n fits in
      first times prompt i b'T' _ p p1 _ idle refl refl (
        then_ times prompt State.tx_magic i b'X' _ p1 p2 _
          (next-IsIn times prompt State.tx_magic i p1 refl idle.skip refl) refl refl
          (then_ times prompt State.len_lo (suc i) (n % 256) _ p2 p3 _
            (next-IsIn times prompt State.len_lo (suc i) p2 refl idle.skip refl) refl refl
            (Makes-step times (suc (suc (suc i))) (n / 256 % 256) xs p3 p4 bad_tx_len []
              (on_byte_in State.len_hi (times (suc (suc (suc i)))) (n / 256 % 256) p3 p4 bad_tx_len
                (next-IsIn times prompt State.len_hi (suc (suc i)) p3 refl idle.skip refl)
                (ground (arith, word)))
              refl (drain xs (suc (suc (suc i))) p4 refl refl refl))))
