-- ===== src/Server/Handlers/Serves.antt =====
-- The poll loop over bytes against the calls that the parser makes of them.
use k230_lr2021_radio.Prelude.{
  ℕ, zero, suc, ◌≡◌, ◌∙◌, refl, sym, ap, subst, Bool, true, false, List, [], ◌∷◌, map,
  if◌then◌else◌,
}
use k230_lr2021_radio.Device.{Env, read_clock}
use k230_lr2021_radio.Worker.State.{call, now_ms}
use k230_lr2021_radio.Server.Parser.{Action, nothing, on_byte, Parser}
use k230_lr2021_radio.Server.Parser.Timing.{feed, emit, IsPrompt, IsIdle}
use k230_lr2021_radio.Server.Parser.Commands.{Command, call_of}
use k230_lr2021_radio.Server.Parser.Streams.{stream, AllSendable, stream-Makes}
use k230_lr2021_radio.Server.Handlers.{Node, perform, poll_byte, poll_input, maybe_emit_stats}
use k230_lr2021_radio.Server.Handlers.Stays.{if-Stays, maybe_emit_stats-Stays, perform-Stays}

module _ (env : Env) where
  -- From a node to another by these calls, in this order and each once. Apart from them, bytes go to
  -- the parser, the statistics may fall due, and at the end the client may hang up.
  pub data Serves : List Action → Node → Node → Type 0 where
    over : (n : Node) → Serves [] n n
    hangs_up : (n : Node) → Serves [] n (record n { connected = false })
    takes :
        (p : Parser) (calls : List Action) (n n' : Node)
        → Serves calls (record n { parser = p; worker = call read_clock n.worker }) n'
        → Serves calls n n'
    looks_at_stats :
        (calls : List Action) (n n' : Node)
        → Serves calls (maybe_emit_stats env false n) n'
        → Serves calls n n'
    performs :
        (a : Action) (calls : List Action) (n n' : Node)
        → Serves calls (perform env a n) n'
        → Serves (a ∷ calls) n n'

  -- The times at which the bytes come, from the node before them.
  abbrev pub arrivals : List ℕ → Node → ℕ → ℕ
  arrivals [] n i = (now_ms env n.worker).0
  arrivals (b ∷ bs) n zero = (now_ms env n.worker).0
  arrivals (b ∷ bs) n (suc i) = arrivals bs (poll_byte env b n) i

feed-shift :
    (times : ℕ → ℕ) (i : ℕ) (bs : List ℕ) (p : Parser)
    → feed times (suc i) bs p ≡ feed (λ k. times (suc k)) i bs p
unfolding feed
feed-shift times i [] p = refl
feed-shift times i (b ∷ bs) p =
    let (q, a, _) = on_byte (times (suc i)) b p in
    ap (λ (t : Parser × List Action). let out : Parser × List Action = (t.0, emit a t.1) in out)
      (feed-shift times (suc i) bs q)

module _ (env : Env) where
  performs_if_any :
      (a : Action) (calls : List Action) (n n' : Node)
      → Serves env calls (perform env a n) n'
      → Serves env (emit a calls) n n'
  unfolding perform
  performs_if_any nothing calls n n' s = s
  performs_if_any a calls n n' s = performs a calls n n' s

  looks_if :
      (switched : Bool) (calls : List Action) (n n' : Node)
      → Serves env calls (if switched then maybe_emit_stats env false n else n) n'
      → Serves env calls n n'
  looks_if true calls n n' s = looks_at_stats calls n n' s
  looks_if false calls n n' s = s

  poll_byte-parser :
      (b : ℕ) (n : Node)
      → (poll_byte env b n).parser ≡ (on_byte (now_ms env n.worker).0 b n.parser).0
  unfolding poll_byte
  poll_byte-parser b n =
      let out = on_byte (now_ms env n.worker).0 b n.parser in
      let taken = record n { parser = out.0; worker = call read_clock n.worker } in
      let m = perform env out.1 taken in
      (if-Stays out.2 (maybe_emit_stats env false m) m m (maybe_emit_stats-Stays env false m)
        (record { connected = refl; parser = refl })).parser
      ∙ (perform-Stays env out.1 taken).parser

  poll_byte-Serves :
      (b : ℕ) (calls : List Action) (n n' : Node)
      → Serves env calls (poll_byte env b n) n'
      → Serves env (emit (on_byte (now_ms env n.worker).0 b n.parser).1 calls) n n'
  unfolding poll_byte
  poll_byte-Serves b calls n n' s =
      let out = on_byte (now_ms env n.worker).0 b n.parser in
      let taken = record n { parser = out.0; worker = call read_clock n.worker } in
      takes out.0 (emit out.1 calls) n n'
        (performs_if_any out.1 calls taken n' (looks_if out.2 calls (perform env out.1 taken) n' s))

  -- The calls of a round's bytes: the loop makes those that the parser makes of the bytes at the
  -- times at which they are read.
  poll_input-Serves :
      (bs : List ℕ) (hung_up : Bool) (n : Node)
      → Serves env (feed (arrivals env bs n) 0 bs n.parser).1 n (poll_input env bs hung_up n)
  unfolding poll_input feed
  poll_input-Serves [] true n = hangs_up n
  poll_input-Serves [] false n = looks_at_stats [] n _ (over _)
  poll_input-Serves (b ∷ bs) hung_up n =
      let n1 = poll_byte env b n in
      let q = (on_byte (now_ms env n.worker).0 b n.parser).0 in
      let same : (feed (arrivals env bs n1) 0 bs n1.parser).1
          ≡ (feed (arrivals env (b ∷ bs) n) 1 bs q).1 =
        ap (λ p. (feed (arrivals env bs n1) 0 bs p).1) (poll_byte-parser b n)
        ∙ sym (
            ap (λ (t : Parser × List Action). t.1) (feed-shift (arrivals env (b ∷ bs) n) 0 bs q)) in
      poll_byte-Serves b _ n _ (
        subst (λ calls. Serves env calls n1 (poll_input env bs hung_up n1)) same
          (poll_input-Serves bs hung_up n1))

  -- A stream of commands within the limits of the protocol, read in one round of the loop by a
  -- parser between frames, at times no two of which in a row are more than 100 ms apart, is served
  -- by the handlers of its commands: each is called once, in order, and apart from the statistics
  -- falling due and the client hanging up the loop does nothing else.
  pub poll_input-stream :
      (cs : List Command) (hung_up : Bool) (n : Node)
      → IsIdle n.parser
      → AllSendable cs
      → IsPrompt (arrivals env (stream cs) n)
      → Serves env (map call_of cs) n (poll_input env (stream cs) hung_up n)
  poll_input-stream cs hung_up n idle h prompt =
      subst (λ calls. Serves env calls n (poll_input env (stream cs) hung_up n))
        (stream-Makes (arrivals env (stream cs) n) prompt cs 0 n.parser idle h).called
        (poll_input-Serves (stream cs) hung_up n)
