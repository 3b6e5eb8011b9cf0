-- ===== src/Server/Setup.antt =====
-- How `SerialServer::init` (service/src/serial_server.cpp) opens its file, its port or its socket: the
-- calls that it makes, in order. Whether one of them succeeds is a parameter.
pub mod Attempts
use k230_lr2021_radio.Prelude.{
  ℕ, zero, suc, Bool, true, false, List, [], ◌∷◌, ◌++◌, Option, none, some, ◌==◌, if◌then◌else◌,
}
use k230_lr2021_radio.Server.Address.{Address}

-- A `struct termios`: the speeds, and the flags and characters that the code sets. A speed stands for
-- its constant, 115200 for B115200. `others` is what the code leaves alone.
pub record Termios : Type 0 where
  pub ispeed : ℕ
  pub ospeed : ℕ
  pub clocal : Bool
  pub cread : Bool
  pub cstopb : Bool
  pub parenb : Bool
  pub icanon : Bool
  pub echo : Bool
  pub echoe : Bool
  pub isig : Bool
  pub ixon : Bool
  pub ixoff : Bool
  pub ixany : Bool
  pub inlcr : Bool
  pub icrnl : Bool
  pub opost : Bool
  pub vmin : ℕ
  pub vtime : ℕ
  pub others : ℕ

-- The calls. A socket is one of TCP over IPv4, and a port is bound on every address.
pub data SetUp : Type 0 where
  open_file open_port : List ℕ → SetUp
  make_socket reuse_address : SetUp
  bind_port listen_for sleep_ms : ℕ → SetUp
  set_line : Termios → SetUp
  flush_line : SetUp

-- Baud rates that the switch does not name give 115200.
unfoldable pub speed_of : ℕ → ℕ
speed_of baud =
    if baud == 921600
    then 921600
    else if baud == 460800
    then 460800
    else if baud == 230400
    then 230400
    else if baud == 1000000
    then 1000000
    else 115200

-- The line as `tcgetattr` found it, made raw.
unfoldable pub raw_line : ℕ → Termios → Termios
raw_line baud t = record t {
  ispeed = speed_of baud;
  ospeed = speed_of baud;
  clocal = true;
  cread = true;
  cstopb = false;
  parenb = false;
  icanon = false;
  echo = false;
  echoe = false;
  isig = false;
  ixon = false;
  ixoff = false;
  ixany = false;
  inlcr = false;
  icrnl = false;
  opost = false;
  vmin = 0;
  vtime = 0;
}

abbrev pub and_then : List SetUp → Option (List SetUp) → Option (List SetUp)
and_then calls none = none
and_then calls (some more) = some (calls ++ more)

-- A call that is made again, 500 ms later, until it succeeds: `ok i` says whether the `i`-th one
-- does. `none` is a loop that is not over by then.
unfoldable pub retry : ℕ → (ℕ → Bool) → SetUp → Option (List SetUp)
retry zero ok c = none
retry (suc fuel) ok c = elim (ok 0) [
  | true ↦ some (c ∷ [])
  | false ↦ and_then (c ∷ sleep_ms 500 ∷ []) (retry fuel (λ i. ok (suc i)) c)
]

abbrev pub listening : List SetUp → Option (List SetUp) → Option (List SetUp)
listening calls none = none
listening calls (some bound) = some (calls ++ (reuse_address ∷ (bound ++ (listen_for 4 ∷ []))))

-- The calls up to the wait for the radio, of a server with this address, path and baud rate.
unfoldable pub open_link :
    ℕ → (ℕ → Bool) → (ℕ → Bool) → Termios → Address → List ℕ → ℕ → Option (List SetUp)
open_link fuel opens binds line a uart_path baud =
    if a.is_ipc
    then retry fuel opens (open_file a.ipc_path)
    else if a.is_tcp
    then elim (retry fuel opens make_socket) [
      | none ↦ none
      | some calls ↦ listening calls (retry fuel binds (bind_port a.tcp_port))
    ]
    else elim (retry fuel opens (open_port uart_path)) [
      | none ↦ none
      | some calls ↦ some (calls ++ (set_line (raw_line baud line) ∷ flush_line ∷ []))
    ]
