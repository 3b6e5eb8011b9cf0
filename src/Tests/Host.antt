-- ===== src/Tests/Host.antt =====
-- The host's side: commands in, answers out.
use Prim.{tt}
use k230_lr2021_radio.Prelude.{
  ℕ, ◌+◌, ◌/◌, ◌%◌, ◌≡◌, ◌≤◌, ◌<◌, ◌⊎◌, inl, refl, true, false, List, [], ◌∷◌, ◌++◌, map, length,
  replicate, length-replicate, some, negsuc, arith,
}
use k230_lr2021_radio.Worker.Calls.{sent}
use k230_lr2021_radio.Worker.Control.{tx_queue_cap}
use k230_lr2021_radio.Server.Parser.{Parser, State, bad_tx_len}
use k230_lr2021_radio.Server.Parser.Timing.{feed, IsPrompt, IsIdle, Makes}
use k230_lr2021_radio.Server.Parser.Commands.{Command, encode, call_of, command-Makes}
use k230_lr2021_radio.Server.Parser.Streams.{stream, AllSendable, stream-Makes, recovery-Makes}
use k230_lr2021_radio.Server.Parser.Bounds.{AreInBounds, feed-InBounds, oversized-Makes}
use k230_lr2021_radio.Server.Frames.{error_frame, codes}
use k230_lr2021_radio.Server.Frames.Decoding.{
  Frame, read_frame, read_frames, written, all_written, read-written, read-all_written,
}
use k230_lr2021_radio.Server.Handlers.{parse_config, handle_tx}
use k230_lr2021_radio.Server.Handlers.Configs.{config_bytes, parse-config_bytes}
use k230_lr2021_radio.Server.Handlers.Answers.{handle_tx-answers}
use k230_lr2021_radio.Tests.Samples.{parser, node}

-- One byte each millisecond.
abbrev times : ℕ → ℕ
times i = 1000 + i

times-IsPrompt : IsPrompt times
times-IsPrompt i = omega arith

parser-IsIdle : IsIdle parser
parser-IsIdle = record { state = refl; skip = refl }

abbrev body : List ℕ
body = config_bytes 915000000 812000 1 10 0 0 []

abbrev commands : List Command
commands =
    Command.set_config body
    ∷ Command.tx (1 ∷ 2 ∷ 3 ∷ [])
    ∷ Command.scan 300 (902000000 ∷ [])
    ∷ Command.stats
    ∷ Command.window (1 ∷ 0 ∷ 0 ∷ 0 ∷ 2 ∷ 0 ∷ 0 ∷ 0 ∷ [])
    ∷ Command.reset
    ∷ []

commands-AllSendable : AllSendable commands
commands-AllSendable = (
  inl refl,
  (
    (omega arith, omega arith),
    ((omega arith, omega arith, omega arith, (omega arith, tt)), (tt, (refl, (tt, tt)))),
  ),
)

stream-Makes_example : Makes (map call_of commands) parser (feed times 0 (stream commands) parser)
stream-Makes_example =
    stream-Makes times times-IsPrompt commands 0 parser parser-IsIdle commands-AllSendable

command-Makes_example :
    Makes
      (call_of (Command.tx (7 ∷ [])) ∷ [])
      parser
      (feed times 0 (encode (Command.tx (7 ∷ []))) parser)
command-Makes_example =
    command-Makes times times-IsPrompt (Command.tx (7 ∷ [])) 0 parser parser-IsIdle
      (omega arith, omega arith)

-- A transmit frame that stopped after 3 of its 10 bytes.
abbrev broken : Parser
broken = record parser { state = State.payload; tag_byte = b'T'; frame_len = 10; have = 3 }

recovery-Makes_example :
    let r = feed times 0 (stream commands) broken in
    IsIdle r.0
    × (r.1 ≡ map call_of commands)
    × (0 ≤ r.0.parser_frames_killed)
    × (r.0.parser_frames_killed ≤ 0 + 1)
recovery-Makes_example =
    recovery-Makes times times-IsPrompt (Command.set_config body)
      (Command.tx (1 ∷ 2 ∷ 3 ∷ [])
        ∷ Command.scan 300 (902000000 ∷ [])
        ∷ Command.stats
        ∷ Command.window (1 ∷ 0 ∷ 0 ∷ 0 ∷ 2 ∷ 0 ∷ 0 ∷ 0 ∷ [])
        ∷ Command.reset
        ∷ [])
      0 broken (omega arith) commands-AllSendable (omega arith)

feed-InBounds_example : AreInBounds (feed times 0 (stream commands) parser).0
feed-InBounds_example = feed-InBounds times (stream commands) 0 parser tt

abbrev long : List ℕ
long = replicate 24577 0

long-length : length long ≡ 24577
long-length = length-replicate {A = ℕ} 24577 0

oversized-Makes_example :
    Makes
      (bad_tx_len ∷ [])
      parser
      (feed times 0 (b'T' ∷ b'X' ∷ length long % 256 ∷ length long / 256 % 256 ∷ long) parser)
oversized-Makes_example =
    oversized-Makes times times-IsPrompt long 0 parser parser-IsIdle (omega (arith, long-length))
      (omega (arith, long-length))

abbrev frames : List Frame
frames =
    Frame.ready 511
    ∷ Frame.error 4 (codes "tx queue full")
    ∷ Frame.rx (1 ∷ 2 ∷ []) (negsuc 79)
    ∷ Frame.diag 47 3
    ∷ []

read-all_written_example : read_frames 4 (all_written frames ++ (9 ∷ [])) ≡ some (frames, 9 ∷ [])
read-all_written_example =
    read-all_written frames (9 ∷ [])
      (omega arith, (omega arith, ((omega arith, omega arith), (omega arith, tt))))

read-written_example :
    read_frame (written (Frame.rx (1 ∷ 2 ∷ []) (negsuc 79)) ++ (9 ∷ []))
    ≡ some (Frame.rx (1 ∷ 2 ∷ []) (negsuc 79), 9 ∷ [])
read-written_example =
    read-written (Frame.rx (1 ∷ 2 ∷ []) (negsuc 79)) (9 ∷ []) (omega arith, omega arith)

handle_tx-answers_example :
    let n' = handle_tx (1 ∷ 2 ∷ 3 ∷ []) node in
    ((n'.worker.tx_q ≡ (1 ∷ 2 ∷ 3 ∷ []) ∷ [])
      × (sent n'.worker.history ≡ (47 ∷ 3 ∷ 0 ∷ 0 ∷ 0 ∷ 0 ∷ []) ∷ (b'D' ∷ 6 ∷ 0 ∷ []) ∷ [])
      × (true ≡ true)
      × (false ≡ false)
      × (0 < tx_queue_cap))
    ⊎ ((n'.worker.tx_q ≡ [])
        × (sent n'.worker.history ≡ error_frame 0x04 (codes "tx queue full") ∷ [])
        × ((true ≡ false) ⊎ ((false ≡ true) ⊎ (tx_queue_cap ≤ 0))))
handle_tx-answers_example = handle_tx-answers (1 ∷ 2 ∷ 3 ∷ []) node refl (omega arith)

parse-config_bytes_example :
    let v1 = parse_config body in
    let v2 = parse_config (config_bytes 915000000 812000 1 10 0 0 (1 ∷ 2 ∷ [])) in
    (v1 ≡ record {
      frequency_hz = 915000000;
      bandwidth_hz = 812000;
      coding_rate = 1;
      tx_power_dbm = 10;
      sync_word = 0;
      role = 0;
      body_len = 15;
      rate_sel = 0;
      payload_sel = 0;
    })
    × (v2 ≡ record v1 { body_len = 17; rate_sel = 1; payload_sel = 2 })
parse-config_bytes_example =
    parse-config_bytes 915000000 812000 1 10 0 0 (omega arith, omega arith, omega arith) 1 2

-- The scan magic, with 27 channels from 902 MHz on.
abbrev scan_body : List ℕ
scan_body = config_bytes 0xFFFFFFFF 1000000 0 3 902000000 0 []
