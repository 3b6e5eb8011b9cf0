-- ===== src/System.antt =====
-- `main` of service/src/main.cpp: the worker and the server are set up, and then polled in turn.
pub mod Runs
pub mod Drains
pub mod Links
pub mod Exchanges
use k230_lr2021_radio.Prelude.{
  ℕ, ◌≡◌, Bool, true, false, not, zero, suc, List, [], ◌∷◌, bits_of, Option, none, some,
  if◌then◌else◌, at_least,
}
use k230_lr2021_radio.Device.{Env, sleep_us}
use k230_lr2021_radio.Worker.State.{Worker, fresh, call}
use k230_lr2021_radio.Worker.Thermal.{init}
use k230_lr2021_radio.Worker.Receive
use k230_lr2021_radio.Server.Frames.{codes}
use k230_lr2021_radio.Server.Address.{address_of, atoi}
use k230_lr2021_radio.Server.Setup.{Termios, SetUp, open_link}
use k230_lr2021_radio.Server.Parser.{Parser, State, Bytes}
use k230_lr2021_radio.Server.Exchange.{poll_ring, publish_from}
use k230_lr2021_radio.Server.Handlers
use k230_lr2021_radio.Server.Handlers.{Node, with_worker, greet}

-- The default initializers of the parser's fields. The buffers have none.
abbrev pub fresh_parser : Parser
fresh_parser = record {
  state = State.tag;
  tag_byte = 0;
  frame_len = 0;
  have = 0;
  skip_remain = 0;
  last_arrival_ms = 0;
  parser_frames_killed = 0;
  config_body = λ _. 0;
  window_body = λ _. 0;
  tx_buf = λ _. 0;
  qbuf = λ _. 0;
  scan_count = 0;
  scan_have = 0;
  slot_offset_ms = 100;
  slot_period_ms = 1000;
}

-- The server behind its constructor.
abbrev pub fresh_node : Bool → Worker → Node
fresh_node is_tcp w = record {
  parser = fresh_parser;
  connected = false;
  is_tcp = is_tcp;
  last_stats_ms = 0;
  ready_sent = false;
  worker = w;
}

-- The sleep behind a round, in microseconds.
unfoldable pub pause_us : Worker → ℕ
pause_us w =
    if at_least 2 w.thermal_level
    then 250000
    else if at_least 1 w.thermal_level
    then 10050
    else 2050

-- The wait for the radio, 100 ms at a time.
unfoldable pub wait_for_radio : ℕ → Worker → Worker
wait_for_radio zero w = w
wait_for_radio (suc tries) w =
    if w.radio_ok then w else wait_for_radio tries (call (sleep_us 100000) w)

-- The arguments of `main` behind the name of the program: the path, and the baud rate as a uint32_t.
abbrev pub arguments : List (List ℕ) → List ℕ × ℕ
arguments [] = (codes "/dev/ttyS1", 115200)
arguments (uart ∷ []) = (uart, 115200)
arguments (uart ∷ baud ∷ more) = (uart, bits_of 4294967296 (atoi baud))

-- The calls with which a service that is started with these arguments opens its link.
unfoldable pub link_of : ℕ → (ℕ → Bool) → (ℕ → Bool) → Termios → List (List ℕ) → Option (List SetUp)
link_of fuel opens binds line args =
    let (uart, baud) = arguments args in open_link fuel opens binds line (address_of uart) uart baud

-- What a round meets: whether a client waits, the bytes that came in, whether they end in the
-- client's leaving, and a number of rounds of the reception loop.
pub record Meeting : Type 0 where
  pub client_waits : Bool
  pub input : List ℕ
  pub hung_up : Bool
  pub rounds : ℕ

-- The sleep behind the worker's turn, and what the host finds of that turn in its ring.
abbrev pub after_turn : Node → Worker → Node
after_turn n w = with_worker (call (sleep_us (pause_us w)) w) n

abbrev pub behind_worker : Node → Bytes → Option Worker → Option (Node × Bytes)
behind_worker n f none = none
behind_worker n f (some w) = some (after_turn n w, publish_from n (after_turn n w) f)

module _ (env : Env) where
  -- `SerialServer::init`: a port or a file is open behind it, a socket only listens.
  unfoldable pub init_server : Node → Node
  init_server n =
      let n1 = with_worker (wait_for_radio 150 n.worker) (record n { connected = not n.is_tcp }) in
      if n.is_tcp then n1 else greet env n1

  -- Up to the superloop; without a radio, the service ends.
  unfoldable pub boot : Bool → Option Node
  boot is_tcp =
      let (up, w) = init env 44 fresh in
      if up then some (init_server (fresh_node is_tcp w)) else none

  -- One round of the superloop; `none` is a reception loop that takes more rounds than are given.
  unfoldable pub superloop_round : Meeting → Node → Option Node
  superloop_round m n =
      let n1 = Handlers.poll_once env m.client_waits m.input m.hung_up n in
      elim (Receive.poll_once env m.rounds n1.worker) [
        | none ↦ none
        | some w ↦ some (with_worker (call (sleep_us (pause_us w)) w) n1)
      ]

  -- The same round over IPC: the bytes come out of the one ring, and what the server and the worker
  -- write goes into the other. A round of the server takes less than `fuel` bytes.
  abbrev pub behind_server : ℕ → Option (Node × Bytes) → Option (Node × Bytes)
  behind_server rounds none = none
  behind_server rounds (some (n, f)) = behind_worker n f (Receive.poll_once env rounds n.worker)

  unfoldable pub superloop_ring : ℕ → ℕ → List ℕ → Bytes → Node → Option (Node × Bytes)
  superloop_ring fuel rounds pending f n = behind_server rounds (poll_ring env fuel pending f n)

  -- A round of `SerialServer::run`, which main.cpp does not call.
  unfoldable pub run_round : Bool → List ℕ → Bool → Node → Node
  run_round client_waits input hung_up n =
      let n' = Handlers.poll_once env client_waits input hung_up n in
      with_worker (call (sleep_us 1000) n'.worker) n'

  -- A state of the service at the head of its superloop.
  pub data Reached (is_tcp : Bool) : Node → Type 0 where
    booted : (n : Node) → boot is_tcp ≡ some n → Reached is_tcp n
    polled :
        (m : Meeting) (n n' : Node)
        → Reached is_tcp n
        → superloop_round m n ≡ some n'
        → Reached is_tcp n'
