-- ===== src/Server/Parser/Streams.antt =====
-- Sequences of commands, and what comes behind a broken frame.
use k230_lr2021_radio.Prelude.{
  ℕ, suc, ◌+◌, ◌≡◌, refl, ap, ap₂, sym, ◌∙◌, ◌≤◌, ◌<◌, List, [], ◌∷◌, ◌++◌, map, arith, length,
  sub32, true, Bool,
}
use k230_lr2021_radio.Server.Parser.{
  Parser, State, Action, nothing, on_byte, take_byte, resync, is_tag,
}
use k230_lr2021_radio.Server.Parser.Timing.{IsIdle, IsPrompt, Makes, Makes-end, feed, emit}
use k230_lr2021_radio.Server.Parser.Commands.{Command, encode, IsSendable, call_of, command-Makes}

abbrev pub stream : List Command → List ℕ
stream [] = []
stream (c ∷ cs) = encode c ++ stream cs

abbrev pub AllSendable : List Command → Type 0
AllSendable [] = Unit {0}
AllSendable (c ∷ cs) = IsSendable c × AllSendable cs

emit-append : (a : Action) (xs ys : List Action) → emit a (xs ++ ys) ≡ emit a xs ++ ys
emit-append nothing xs ys = refl
emit-append _ xs ys = refl

feed-append :
    (times : ℕ → ℕ) (xs ys : List ℕ) (i j : ℕ) (p : Parser)
    → j ≡ i + length xs
    → let r = feed times i xs p in
      let r' = feed times j ys r.0 in feed times i (xs ++ ys) p ≡ (r'.0, r.1 ++ r'.1)
unfolding feed
feed-append times [] ys i j p e = ap (λ k. feed times k ys p) {x = i} {y = j} (omega arith)
feed-append times (x ∷ xs) ys i j p e =
    let (q, a, _) = on_byte (times i) x p in
    let r = feed times (suc i) xs q in
    ap (λ (t : Parser × List Action). let out : Parser × List Action = (t.0, emit a t.1) in out)
      (feed-append times xs ys (suc i) j q (omega arith))
    ∙ ap (λ calls. let out : Parser × List Action = ((feed times j ys r.0).0, calls) in out)
        (emit-append a r.1 (feed times j ys r.0).1)

Makes-join :
    (times : ℕ → ℕ) (xs ys : List ℕ) (i : ℕ) (p : Parser) (before after : List Action)
    → Makes before p (feed times i xs p)
    → ((j : ℕ) (q : Parser) → IsIdle q → Makes after q (feed times j ys q))
    → Makes (before ++ after) p (feed times i (xs ++ ys) p)
Makes-join times xs ys i p before after m rest =
    let q = (feed times i xs p).0 in
    let n = rest (i + length xs) q m.idle in
    rw (feed-append times xs ys i (i + length xs) p refl) (record {
      idle = n.idle;
      called = ap₂ ◌++◌ m.called n.called;
      none_killed = n.none_killed ∙ m.none_killed;
    })

module _ (times : ℕ → ℕ) (prompt : IsPrompt times) where
  -- A stream of commands within the limits of the protocol, sent between frames with no gap of
  -- over 100 ms, is read back as it was sent: one call for each command, in order, and no frame
  -- killed; the parser is left between frames.
  pub stream-Makes :
      (cs : List Command) (i : ℕ) (p : Parser)
      → IsIdle p
      → AllSendable cs
      → Makes (map call_of cs) p (feed times i (stream cs) p)
  stream-Makes [] i p idle h = Makes-end times i p idle
  stream-Makes (c ∷ cs) i p idle h =
      Makes-join times (encode c) (stream cs) i p (call_of c ∷ []) (map call_of cs)
        (command-Makes times prompt c i p idle h.0) (λ j q k. stream-Makes cs j q k h.1)

-- The idle rule is done once: doing it again at the same time changes nothing.
resync_twice : (now : ℕ) (p : Parser) → resync now (resync now p) ≡ resync now p
unfolding resync
resync_twice now p = ground arith

tag_of : (s : State) → is_tag s ≡ true → s ≡ State.tag
tag_of State.tag e = refl
tag_of _ e = cc

-- A gap of over 100 ms puts the parser between frames, whatever it was in.
resync_gap : (now : ℕ) (p : Parser) → 100 < sub32 now p.last_arrival_ms → IsIdle (resync now p)
unfolding resync
resync_gap now p h = ground (arith, tag_of p.state)

-- At most one frame is counted as killed.
resync-killed :
    (now : ℕ) (p : Parser)
    → p.parser_frames_killed + 1 < 4294967296
    → (p.parser_frames_killed ≤ (resync now p).parser_frames_killed)
      × ((resync now p).parser_frames_killed ≤ p.parser_frames_killed + 1)
unfolding resync
resync-killed now p h = ground arith

on_byte-resync : (now b : ℕ) (p : Parser) → on_byte now b p ≡ on_byte now b (resync now p)
unfolding on_byte
on_byte-resync now b p = ap (take_byte b) (sym (resync_twice now p))

feed-resync :
    (times : ℕ → ℕ) (i b : ℕ) (bs : List ℕ) (p : Parser)
    → feed times i (b ∷ bs) p ≡ feed times i (b ∷ bs) (resync (times i) p)
unfolding feed
feed-resync times i b bs p =
    ap
      (λ (t : Parser × Action × Bool).
        let r = feed times (suc i) bs t.0 in
        let out : Parser × List Action = (r.0, emit t.1 r.1) in out)
      (on_byte-resync (times i) b p)

-- A command starts with its tag.
stream-resync :
    (times : ℕ → ℕ) (i : ℕ) (c : Command) (cs : List Command) (p : Parser)
    → feed times i (stream (c ∷ cs)) p ≡ feed times i (stream (c ∷ cs)) (resync (times i) p)
stream-resync times i Command.stats cs p = feed-resync times i _ _ p
stream-resync times i _ cs p = feed-resync times i _ _ p

module _ (times : ℕ → ℕ) (prompt : IsPrompt times) where
  -- The parser recovers from any broken frame: after a gap of over 100 ms, whatever state it was
  -- left in, a stream of one command or more within the limits of the protocol, sent with no gap
  -- of over 100 ms, is read as it was sent. One frame at most is counted as killed, where the
  -- counter does not wrap.
  pub recovery-Makes :
      (c : Command) (cs : List Command) (i : ℕ) (p : Parser)
      → 100 < sub32 (times i) p.last_arrival_ms
      → AllSendable (c ∷ cs)
      → p.parser_frames_killed + 1 < 4294967296
      → let r = feed times i (stream (c ∷ cs)) p in
        IsIdle r.0
        × (r.1 ≡ map call_of (c ∷ cs))
        × (p.parser_frames_killed ≤ r.0.parser_frames_killed)
        × (r.0.parser_frames_killed ≤ p.parser_frames_killed + 1)
  recovery-Makes c cs i p gap h few =
      let m =
        stream-Makes times prompt (c ∷ cs) i (resync (times i) p) (resync_gap (times i) p gap) h in
      let k = resync-killed (times i) p few in
      rw (stream-resync times i c cs p)
        (m.idle, m.called, omega (arith, m.none_killed, k), omega (arith, m.none_killed, k))
