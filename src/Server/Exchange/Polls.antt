-- ===== src/Server/Exchange/Polls.antt =====
-- A round of `pollOnce` of service/src/serial_server.cpp over IPC: the bytes that wait in the ring from
-- the host, and the answers in the ring to it.
use k230_lr2021_radio.Prelude.{
  ℕ, zero, suc, ◌+◌, ◌≡◌, ◌<◌, refl, sym, ap, ◌∙◌, subst, List, [], ◌∷◌, ◌++◌, map, arith, length,
  append_assoc, length-append, Option, none, some, true, false,
}
use k230_lr2021_radio.Device.{Env}
use k230_lr2021_radio.Server.Parser.{Bytes}
use k230_lr2021_radio.Server.Parser.Timing.{IsPrompt, IsIdle}
use k230_lr2021_radio.Server.Parser.Commands.{Command, call_of}
use k230_lr2021_radio.Server.Parser.Streams.{stream, AllSendable}
use k230_lr2021_radio.Server.Ipc.{r2v_base, v2r_base, read_byte_ipc}
use k230_lr2021_radio.Server.Ipc.Fifo.{head_of, contents, IsFlat}
use k230_lr2021_radio.Server.Ipc.Reads.{pop, waiting, read_byte_ipc-pop}
use k230_lr2021_radio.Server.Ipc.Starts.{IsEmpty}
use k230_lr2021_radio.Server.Handlers.{Node, poll_byte, poll_input, maybe_emit_stats}
use k230_lr2021_radio.Server.Handlers.Serves.{Serves, arrivals, poll_input-stream}
use k230_lr2021_radio.Server.Exchange.{publish_from, poll_ring}
use k230_lr2021_radio.Server.Exchange.Histories.{poll_byte-GoesOn, poll_input-GoesOn}
use k230_lr2021_radio.Server.Exchange.Publishing.{
  said, bytes_trans, IsAppended, HasRoom, room_behind, nothing-IsAppended, publish_from-IsAppended,
}
use k230_lr2021_radio.Server.Exchange.Regions.{IsSameRing, read_byte-IsSameRing, outside-IsSameRing}

-- A round that is over: the node behind it, an empty ring from the host, and in the ring to the host
-- what was there before, and then what the node wrote.
pub record IsPolled (n n' : Node) (f : Bytes) (o : Option (Node × Bytes)) : Type 0 where
  pub file : Bytes
  pub returned : o ≡ some (n', file)
  pub left : IsEmpty v2r_base file
  pub answered : contents r2v_base file ≡ contents r2v_base f ++ said n n'
  pub flat : IsFlat r2v_base file
  pub counted : head_of r2v_base file ≡ head_of r2v_base f + length (said n n')

moved_room : (k : ℕ) (f f' : Bytes) → IsSameRing r2v_base f f' → HasRoom k f → HasRoom k f'
moved_room k f f' s r = record {
  flat = s.flat_kept r.flat;
  fits = let i = r.fits in omega (arith, ap length s.contents_kept);
  small = let i = r.small in omega (arith, s.head_kept);
}

pub kept-IsEmpty :
    (f f' : Bytes) → IsSameRing v2r_base f f' → IsEmpty v2r_base f → IsEmpty v2r_base f'
kept-IsEmpty f f' s e = record {
  nothing_in = s.contents_kept ∙ e.nothing_in;
  flat = s.flat_kept e.flat;
}

nothing_left :
    (pending : List ℕ) (f : Bytes) → waiting v2r_base pending f ≡ [] → contents v2r_base f ≡ []
nothing_left [] f e = e
nothing_left (b ∷ pending) f e = absurd cc

-- The last write of a round, when nothing waits any more.
last_turn :
    (n n' : Node) (f f0 : Bytes)
    → IsEmpty v2r_base f0
    → IsSameRing r2v_base f f0
    → HasRoom (length (said n n')) f
    → IsPolled n n' f (some (n', publish_from n n' f0))
last_turn n n' f f0 e s r =
    let a = publish_from-IsAppended n n' f0 (moved_room (length (said n n')) f f0 s r) in
    record {
      file = publish_from n n' f0;
      returned = refl;
      left = kept-IsEmpty f0 _ (outside-IsSameRing f0 _ a.outside) e;
      answered = a.holds ∙ ap (λ q. q ++ said n n') s.contents_kept;
      flat = a.flat;
      counted = omega (arith, a.counted, s.head_kept);
    }

-- The rest of a round behind the writes of a byte.
next_turn :
    (n n1 n' : Node) (f f0 f1 : Bytes) (o : Option (Node × Bytes))
    → said n n' ≡ said n n1 ++ said n1 n'
    → IsSameRing r2v_base f f0
    → IsAppended (said n n1) f0 f1
    → IsPolled n1 n' f1 o
    → IsPolled n n' f o
next_turn n n1 n' f f0 f1 o e s a p = record {
  file = p.file;
  returned = p.returned;
  left = p.left;
  answered =
      p.answered
      ∙ ap (λ q. q ++ said n1 n') (a.holds ∙ ap (λ q. q ++ said n n1) s.contents_kept)
      ∙ append_assoc (contents r2v_base f) (said n n1) (said n1 n')
      ∙ ap (λ q. contents r2v_base f ++ q) (sym e);
  flat = p.flat;
  counted = omega (
    arith,
    p.counted,
    a.counted,
    s.head_kept,
    ap length e,
    length-append (said n n1) (said n1 n'),
  );
}

module _ (env : Env) where
  abbrev last : List ℕ → Node → Node
  last q n = poll_input env q false n

  said_split :
      (b : ℕ) (q : List ℕ) (n : Node)
      → said n (last (b ∷ q) n)
        ≡ said n (poll_byte env b n) ++ said (poll_byte env b n) (last q (poll_byte env b n))
  unfolding poll_input
  said_split b q n =
      let n1 = poll_byte env b n in
      bytes_trans n.worker.history n1.worker.history _ (poll_byte-GoesOn env b n)
        (poll_input-GoesOn env q n1)

  middle_turn :
      (b : ℕ) (q : List ℕ) (n : Node) (f f0 : Bytes) (more : Bytes → Option (Node × Bytes))
      → IsSameRing r2v_base f f0
      → HasRoom (length (said n (last (b ∷ q) n))) f
      → let n1 = poll_byte env b n in
        ((f1 : Bytes)
          → IsSameRing v2r_base f0 f1
          → HasRoom (length (said n1 (last q n1))) f1
          → IsPolled n1 (last q n1) f1 (more f1))
        → IsPolled n (last (b ∷ q) n) f (more (publish_from n n1 f0))
  unfolding poll_input
  middle_turn b q n f f0 more s r next =
      let n1 = poll_byte env b n in
      let e = said_split b q n in
      let l = length-append (said n n1) (said n1 (last q n1)) in
      let r0 = moved_room (length (said n (last (b ∷ q) n))) f f0 s r in
      let a = publish_from-IsAppended n n1 f0 (
        room_behind [] (length (said n n1)) (length (said n (last (b ∷ q) n))) f0 f0
          (nothing-IsAppended f0 r0.flat) r0 (omega (arith, ap length e, l))) in
      let f1 = publish_from n n1 f0 in
      next_turn n n1 (last q n1) f f0 f1 (more f1) e s a (
        next f1 (outside-IsSameRing f0 f1 a.outside) (
          room_behind (said n n1) (length (said n1 (last q n1))) (length (said n (last (b ∷ q) n)))
            f0 f1 a r0 (omega (arith, ap length e, l))))

  turn :
      (q : List ℕ) (n : Node) (f : Bytes) (out : Option ℕ × List ℕ × Bytes)
      (more : List ℕ → Bytes → Node → Option (Node × Bytes))
      → (out.0, waiting v2r_base out.1 out.2) ≡ pop q
      → IsFlat v2r_base out.2
      → IsSameRing r2v_base f out.2
      → HasRoom (length (said n (last q n))) f
      → ((b : ℕ) (rest : List ℕ) (f1 : Bytes)
          → q ≡ b ∷ rest
          → waiting v2r_base out.1 out.2 ≡ rest
          → IsSameRing v2r_base out.2 f1
          → HasRoom (length (said (poll_byte env b n) (last rest (poll_byte env b n)))) f1
          → IsPolled
              (poll_byte env b n)
              (last rest (poll_byte env b n))
              f1
              (more out.1 f1 (poll_byte env b n)))
      → IsPolled n (last q n) f (elim out.0 [
        | none ↦ let n' = maybe_emit_stats env false n in some (n', publish_from n n' out.2)
        | some b ↦ let n' = poll_byte env b n in more out.1 (publish_from n n' out.2) n'
      ])
  unfolding poll_input
  turn [] n f (none, p, f0) more e flat s r next =
      last_turn n (maybe_emit_stats env false n) f f0
        (record {
          nothing_in = nothing_left p f0 (ap (λ (t : Option ℕ × List ℕ). t.1) e);
          flat = flat;
        })
        s r
  turn [] n f (some b, p, f0) more e flat s r next =
      let wrong : ◌≡◌ {A = Option ℕ} (some b) none = ap (λ (t : Option ℕ × List ℕ). t.0) e in
      absurd cc
  turn (x ∷ q) n f (none, p, f0) more e flat s r next =
      let wrong : ◌≡◌ {A = Option ℕ} none (some x) = ap (λ (t : Option ℕ × List ℕ). t.0) e in
      absurd cc
  turn (x ∷ q) n f (some b, p, f0) more e flat s r next =
      let got : ◌≡◌ {A = Option ℕ} (some b) (some x) = ap (λ (t : Option ℕ × List ℕ). t.0) e in
      let same : x ≡ b = cc in
      subst
        (λ y.
          IsPolled n (last (x ∷ q) n) f
            (more p (publish_from n (poll_byte env y n) f0) (poll_byte env y n)))
        same
        (middle_turn x q n f f0 (λ f1. more p f1 (poll_byte env x n)) s r
          (λ f1. next x q f1 refl (ap (λ (t : Option ℕ × List ℕ). t.1) e)))

  pub poll_ring-IsPolled :
      (fuel : ℕ) (pending : List ℕ) (f : Bytes) (n : Node)
      → IsFlat v2r_base f
      → head_of v2r_base f < 4294967296
      → length (waiting v2r_base pending f) < fuel
      → HasRoom (length (said n (last (waiting v2r_base pending f) n))) f
      → IsPolled n (last (waiting v2r_base pending f) n) f (poll_ring env fuel pending f n)
  unfolding poll_ring
  poll_ring-IsPolled zero pending f n flat small enough r = absurd (omega arith)
  poll_ring-IsPolled (suc fuel) pending f n flat small enough r =
      let q = waiting v2r_base pending f in
      let out = read_byte_ipc true v2r_base pending f in
      let (popped, flat', kept) = read_byte_ipc-pop v2r_base pending f flat small in
      turn q n f out (poll_ring env fuel) popped flat' (read_byte-IsSameRing pending f) r
        (λ b rest f1 e w s r1.
          let n1 = poll_byte env b n in
          let all : waiting v2r_base out.1 f1 ≡ rest = ap (λ c. out.1 ++ c) s.contents_kept ∙ w in
          subst (λ t. IsPolled n1 (last t n1) f1 (poll_ring env fuel out.1 f1 n1)) all
            (poll_ring-IsPolled fuel out.1 f1 n1 (s.flat_kept flat')
              (omega (arith, s.head_kept, kept)) (omega (arith, ap length e, ap length all))
              (subst (λ t. HasRoom (length (said n1 (last t n1))) f1) (sym all) r1)))

  -- The bytes that wait, in the reader's buffer and then in the ring from the host, are a stream of
  -- commands within the limits of the protocol; the parser is between frames, and no two bytes in a
  -- row are more than 100 ms apart. Both rings have flat counts, words of 32 bits, the ring to the host
  -- has room for what the node will write, and nothing else touches the file. Given more rounds than
  -- bytes wait, a round of `pollOnce` is over. It leaves a node that is reached by the calls of the
  -- handlers of these commands, each once and in order, an empty ring from the host, and in the ring to
  -- the host what was there and then what the node wrote.
  pub poll_ring-stream :
      (fuel : ℕ) (pending : List ℕ) (f : Bytes) (n : Node) (cs : List Command)
      → IsFlat v2r_base f
      → head_of v2r_base f < 4294967296
      → waiting v2r_base pending f ≡ stream cs
      → length (stream cs) < fuel
      → HasRoom (length (said n (poll_input env (stream cs) false n))) f
      → IsIdle n.parser
      → AllSendable cs
      → IsPrompt (arrivals env (stream cs) n)
      → (n' : Node) × IsPolled n n' f (poll_ring env fuel pending f n)
        × Serves env (map call_of cs) n n'
  poll_ring-stream fuel pending f n cs flat small e enough r idle h prompt = (
    last (stream cs) n,
    subst (λ q. IsPolled n (last q n) f (poll_ring env fuel pending f n)) e
        (poll_ring-IsPolled fuel pending f n flat small (omega (arith, ap length e))
          (subst (λ q. HasRoom (length (said n (last q n))) f) (sym e) r)),
    poll_input-stream env cs false n idle h prompt,
  )
