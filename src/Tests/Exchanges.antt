-- ===== src/Tests/Exchanges.antt =====
-- Commands over shared memory.
use Prim.{tt}
use k230_lr2021_radio.Prelude.{
  ℕ, Option, none, zero, suc, ◌+◌, ◌≡◌, ◌≤◌, ◌<◌, ◌-◌, drop, ◌∙◌, refl, ap, join32-bytes, false,
  List, [], ◌∷◌, ◌++◌, ltb, if◌then◌else◌, map, length, some, arith, inl,
}
use k230_lr2021_radio.Device.{Env, IsClock}
use k230_lr2021_radio.Worker.Control.{snapshot}
use k230_lr2021_radio.Worker.Receive.Endings.{FallsSilent}
use k230_lr2021_radio.Server.Frames.{frame, stats_frame, serialize, writes_of}
use k230_lr2021_radio.Server.Parser.{Bytes, on_byte, resync, take_byte, on_state, on_tag}
use k230_lr2021_radio.Server.Parser.Timing.{IsPrompt}
use k230_lr2021_radio.Server.Parser.Commands.{Command, call_of}
use k230_lr2021_radio.Server.Parser.Streams.{stream}
use k230_lr2021_radio.Server.Ipc.{write_word, init_file, write_ring, r2v_base, v2r_base}
use k230_lr2021_radio.Server.Ipc.Fifo.{
  head_of, contents, push, write_ring-push, head-write_ring, IsFlat,
}
use k230_lr2021_radio.Server.Ipc.Starts.{IsEmpty, init_file-IsEmpty}
use k230_lr2021_radio.Server.Handlers.{
  Node, poll_byte, poll_input, perform, handle_reset, maybe_emit_stats, write_stats,
}
use k230_lr2021_radio.Server.Handlers.Serves.{Serves, arrivals}
use k230_lr2021_radio.Server.Exchange.{poll_ring}
use k230_lr2021_radio.Server.Exchange.Framing.{poll_ring-frames}
use k230_lr2021_radio.Server.Frames.Decoding.{Frame, AllFit, read_frames}
use k230_lr2021_radio.Server.Exchange.Publishing.{said, HasRoom}
use k230_lr2021_radio.Server.Exchange.Regions.{IsSameRing, same_ring}
use k230_lr2021_radio.Server.Ipc.Reads.{waiting}
use k230_lr2021_radio.Server.Exchange.Polls.{IsPolled, poll_ring-stream}
use k230_lr2021_radio.Worker.Thermal.{thermal_tick, use_sensor}
use k230_lr2021_radio.Worker.Transmit.{service_tx_queue}
use k230_lr2021_radio.Worker.Receive
use k230_lr2021_radio.Worker.Receive.{
  rx_loop, rx_round, read_irq, has_packet, look_at_fifo, no_receive, finish_round,
}
use k230_lr2021_radio.Server.Handlers
use k230_lr2021_radio.System.{superloop_round, superloop_ring}
use k230_lr2021_radio.System.Exchanges.{IsExchanged, superloop_ring-refines, superloop_ring-returns}
use k230_lr2021_radio.Tests.Samples.{still, works, works-IsClock, node}

abbrev start : Bytes
start = init_file 0 (λ _. 7)

start-IsEmpty : IsEmpty v2r_base start
start-IsEmpty = (init_file-IsEmpty 0 (λ _. 7)).1

start_heads : (head_of v2r_base start ≡ 0) × (head_of r2v_base start ≡ 0)
unfolding init_file write_word
start_heads = (join32-bytes 0 (omega arith), join32-bytes 0 (omega arith))

-- A stream of commands that the host wrote into the ring behind `init`.
module _ (cs : List Command) (short : length (stream cs) ≤ 100) where
  abbrev asked : Bytes
  asked = write_ring v2r_base (stream cs) start

  asked-IsPushed :
      (j : ℕ)
      → j < 65536
      → (contents v2r_base asked ≡ push 65520 (stream cs) (contents v2r_base start))
        × IsFlat v2r_base asked
        × (asked j ≡ start j)
  asked-IsPushed j p =
      write_ring-push v2r_base (stream cs) start j start-IsEmpty.flat (omega arith)
        (omega (arith, start_heads.0)) (inl (omega arith))

  asked-IsFlat : IsFlat v2r_base asked
  asked-IsFlat = (asked-IsPushed 0 (omega arith)).1

  drop_nothing : (n : ℕ) → drop {A = ℕ} n [] ≡ []
  drop_nothing zero = refl
  drop_nothing (suc n) = refl

  asked-waiting : waiting v2r_base [] asked ≡ stream cs
  asked-waiting =
      (asked-IsPushed 0 (omega arith)).0
      ∙ ap (push 65520 (stream cs)) start-IsEmpty.nothing_in
      ∙ ap (λ q. q ++ stream cs) (drop_nothing (0 + length (stream cs) - 65520))

  asked_head : head_of v2r_base asked < 4294967296
  asked_head = omega (
    arith,
    start_heads.0,
    head-write_ring v2r_base (stream cs) start start-IsEmpty.flat (omega arith)
        (omega (arith, start_heads.0)),
  )

  -- The ring to the host is as `init` left it.
  answers_same : IsSameRing r2v_base start asked
  answers_same = same_ring r2v_base start asked (λ j p q. (asked-IsPushed j (omega arith)).2)

  answers_empty : contents r2v_base asked ≡ []
  answers_empty = answers_same.contents_kept ∙ (init_file-IsEmpty 0 (λ _. 7)).0.nothing_in

  asked-HasRoom : (k : ℕ) → k ≤ 65520 → HasRoom k asked
  asked-HasRoom k h = record {
    flat = answers_same.flat_kept (init_file-IsEmpty 0 (λ _. 7)).0.flat;
    fits = omega (arith, ap length answers_empty);
    small = omega (arith, answers_same.head_kept, start_heads.1);
  }

arrivals-still : (bs : List ℕ) (n : Node) (i : ℕ) → arrivals still bs n i ≡ 0
arrivals-still [] n i = refl
arrivals-still (b ∷ bs) n zero = refl
arrivals-still (b ∷ bs) n (suc i) = arrivals-still bs (poll_byte still b n) i

arrivals-IsPrompt : (bs : List ℕ) (n : Node) → IsPrompt (arrivals still bs n)
arrivals-IsPrompt bs n i = omega (arith, arrivals-still bs n i, arrivals-still bs n (suc i))

abbrev commands : List Command
commands = Command.reset ∷ Command.stats ∷ Command.reset ∷ []

abbrev questions : List Command
questions = Command.stats ∷ Command.stats ∷ []

-- The bytes that the handlers write.
said_lengths :
    (length (said node (poll_input still (stream commands) false node)) ≡ 73)
    × (length (said node (poll_input still (stream questions) false node)) ≡ 142)
unfolding poll_input poll_byte on_byte resync take_byte on_state on_tag perform handle_reset
    maybe_emit_stats write_stats stats_frame serialize snapshot writes_of frame
said_lengths = (refl, refl)

poll_ring-stream_example :
    (n' : Node) × IsPolled node n'
      (asked commands (omega arith))
      (poll_ring still 10 [] (asked commands (omega arith)) node)
    × Serves still (map call_of commands) node n'
poll_ring-stream_example =
    poll_ring-stream still 10 [] (asked commands (omega arith)) node commands
      (asked-IsFlat commands (omega arith)) (asked_head commands (omega arith))
      (asked-waiting commands (omega arith)) (omega arith)
      (asked-HasRoom commands (omega arith) _ (omega (arith, said_lengths.0)))
      (record { state = refl; skip = refl }) (tt, (tt, (tt, tt)))
      (arrivals-IsPrompt (stream commands) node)

poll_ring-frames_example :
    (n' : Node) × (file : Bytes) × (fs : List Frame) × (poll_ring still 10 []
        (asked questions (omega arith))
        node
      ≡ some (n', file))
    × AllFit fs
    × (read_frames (length fs) (contents r2v_base file) ≡ some (fs, []))
poll_ring-frames_example =
    poll_ring-frames still 10 (asked questions (omega arith)) node questions
      (asked-IsFlat questions (omega arith)) (asked_head questions (omega arith))
      (asked-waiting questions (omega arith)) (omega arith) (answers_empty questions (omega arith))
      (asked-HasRoom questions (omega arith) _ (omega (arith, said_lengths.1))) refl
      (record { state = refl; skip = refl }) (tt, (tt, tt)) tt
      (arrivals-IsPrompt (stream questions) node)

-- A round of the superloop that reads bytes.
abbrev round_with : List ℕ → Option Node
round_with q =
    superloop_round works (record { client_waits = false; input = q; hung_up = false; rounds = 1 })
      node

abbrev served : Node
served = poll_input works (stream questions) false node

abbrev answered : Node
answered = elim (round_with (stream questions)) [ none ↦ node | some n ↦ n ]

answered_facts :
    (round_with (stream questions) ≡ some answered)
    × (length (said node served) + length (said served answered) ≡ 142)
unfolding poll_input poll_byte on_byte resync take_byte on_state on_tag perform handle_reset
    maybe_emit_stats write_stats stats_frame serialize snapshot writes_of frame superloop_round
    Receive.poll_once thermal_tick Handlers.poll_once use_sensor rx_loop rx_round read_irq
    has_packet look_at_fifo no_receive finish_round service_tx_queue
answered_facts = (refl, refl)

superloop_ring-refines_example :
    IsExchanged node
      (poll_input works (waiting v2r_base [] (asked questions (omega arith))) false node)
      answered
      (asked questions (omega arith))
      (superloop_ring works 10 1 [] (asked questions (omega arith)) node)
superloop_ring-refines_example =
    let f = asked questions (omega arith) in
    let e = asked-waiting questions (omega arith) in
    superloop_ring-refines works 10 1 [] f node answered refl (asked-IsFlat questions (omega arith))
      (asked_head questions (omega arith)) (omega (arith, ap length e))
      (ap round_with e ∙ answered_facts.0)
      (asked-HasRoom questions (omega arith) _ (
        omega (
          arith,
          answered_facts.1,
          ap
              (λ q.
                let n1 = poll_input works q false node in
                length (said node n1) + length (said n1 answered))
              e,
        )))

-- A radio that says RX_DONE up to the 20th call.
abbrev fading : Env
fading = record works { irq_status = λ h. if ltb (length h) 20 then 262144 else 0 }

fading-IsClock : IsClock fading
fading-IsClock = record {
  grows = works-IsClock.grows;
  sleeps = works-IsClock.sleeps;
  prompt = works-IsClock.prompt;
}

fading-FallsSilent : FallsSilent fading 20
fading-FallsSilent h late = (ground arith, refl)

-- What the server answers.
silent_answers : length (said node (poll_input fading (stream questions) false node)) ≡ 142
unfolding poll_input poll_byte on_byte resync take_byte on_state on_tag perform handle_reset
    maybe_emit_stats write_stats stats_frame serialize snapshot writes_of frame
silent_answers = refl

superloop_ring-returns_example :
    (n2 : Node) × (f2 : Bytes) × (superloop_ring fading 10 28633115329 []
        (asked questions (omega arith))
        node
      ≡ some (n2, f2))
superloop_ring-returns_example =
    let f = asked questions (omega arith) in
    let e = asked-waiting questions (omega arith) in
    superloop_ring-returns fading 10 28633115328 20 [] f node fading-IsClock fading-FallsSilent
      (omega arith) (asked-IsFlat questions (omega arith)) (asked_head questions (omega arith))
      (omega (arith, ap length e))
      (asked-HasRoom questions (omega arith) _ (
        omega
          (arith, silent_answers, ap (λ q. length (said node (poll_input fading q false node))) e)))
