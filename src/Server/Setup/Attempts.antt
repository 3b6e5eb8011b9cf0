-- ===== src/Server/Setup/Attempts.antt =====
-- The calls with which `SerialServer::init` of service/src/serial_server.cpp comes to a link.
use k230_lr2021_radio.Prelude.{
  ℕ, zero, suc, ◌%◌, ◌≡◌, ◌<◌, refl, ap, ◌∙◌, Bool, true, false, List, [], ◌∷◌, ◌++◌, some, arith,
  if◌then◌else◌, ◌==◌,
}
use k230_lr2021_radio.Server.Frames.{codes}
use k230_lr2021_radio.Server.Address.{Address, address_of, tcp_address, or_default}
use k230_lr2021_radio.Server.Address.Ports.{AreDigits, decimal, digits, address_of-tcp}
use k230_lr2021_radio.Server.Setup.{
  Termios, SetUp, open_file, open_port, make_socket, reuse_address, bind_port, listen_for, sleep_ms,
  set_line, flush_line, raw_line, retry, and_then, listening, open_link,
}

-- A call that fails `k` times and then succeeds.
pub record SucceedsAfter (k : ℕ) (ok : ℕ → Bool) : Type 0 where
  pub fails : (i : ℕ) → i < k → ok i ≡ false
  pub succeeds : ok k ≡ true

-- What such a call makes: it, and `k` times a sleep and it again.
abbrev pub tried : ℕ → SetUp → List SetUp
tried zero c = c ∷ []
tried (suc k) c = c ∷ sleep_ms 500 ∷ tried k c

retry-tried :
    (k fuel : ℕ) (ok : ℕ → Bool) (c : SetUp)
    → SucceedsAfter k ok
    → k < fuel
    → retry fuel ok c ≡ some (tried k c)
unfolding retry
retry-tried k zero ok c s enough = absurd (omega arith)
retry-tried zero (suc fuel) ok c s enough = let now = s.succeeds in ground arith
retry-tried (suc k) (suc fuel) ok c s enough =
    rw (retry, s.fails 0 (omega arith))
      (ap (and_then (c ∷ sleep_ms 500 ∷ [])) (
        retry-tried k fuel (λ i. ok (suc i)) c
          (record { fails = λ i p. s.fails (suc i) (omega arith); succeeds = s.succeeds })
          (omega arith)))

module _ (fuel k l : ℕ) (opens binds : ℕ → Bool) (line : Termios) (opened : SucceedsAfter k opens)
    (enough : k < fuel) where
  -- Over IPC the file is opened, and nothing else is done to it before `init` looks at its size.
  open_link-ipc :
      (a : Address) (path : List ℕ) (baud : ℕ)
      → a.is_ipc ≡ true
      → open_link fuel opens binds line a path baud ≡ some (tried k (open_file a.ipc_path))
  unfolding open_link
  open_link-ipc a path baud ipc =
      rw (ipc) (retry-tried k fuel opens (open_file a.ipc_path) opened enough)

  -- A port is opened, made raw and flushed.
  pub open_link-port :
      (a : Address) (path : List ℕ) (baud : ℕ)
      → a.is_ipc ≡ false
      → a.is_tcp ≡ false
      → open_link fuel opens binds line a path baud
        ≡ some (tried k (open_port path) ++ (set_line (raw_line baud line) ∷ flush_line ∷ []))
  unfolding open_link
  open_link-port a path baud ipc tcp =
      rw (ipc, tcp, retry-tried k fuel opens (open_port path) opened enough) refl

  module _ (free : SucceedsAfter l binds) (enough' : l < fuel) where
    open_link-socket :
        (port : ℕ) (path : List ℕ) (baud : ℕ)
        → open_link fuel opens binds line (tcp_address port) path baud
          ≡ some (
              tried k make_socket
              ++ (reuse_address ∷ (tried l (bind_port (or_default port)) ++ (listen_for 4 ∷ []))))
    unfolding open_link
    open_link-socket port path baud = rw (retry-tried k fuel opens make_socket opened enough) (
        ap (listening (tried k make_socket))
          (retry-tried l fuel binds (bind_port (or_default port)) free enough'))

-- A server that is started with the address `tcp://host:port`, where the port is a number that an int
-- can hold, for which `socket` fails `k` times and `bind` fails `l` times before they succeed: it
-- makes the first call `k + 1` times and the second `l + 1` times, with 500 ms between two of them,
-- and binds the port that the address names, cut to 16 bits, or 9200 if that leaves 0.
pub open_link-tcp :
    (host : List ℕ) (d : ℕ) (ds : List ℕ) (baud fuel k l : ℕ) (opens binds : ℕ → Bool)
    (line : Termios)
    → AreDigits (d ∷ ds)
    → decimal 0 (d ∷ ds) < 2147483648
    → SucceedsAfter k opens
    → SucceedsAfter l binds
    → k < fuel
    → l < fuel
    → let text = codes "tcp://" ++ (host ++ (b':' ∷ digits (d ∷ ds))) in
      let port = decimal 0 (d ∷ ds) % 65536 in
      open_link fuel opens binds line (address_of text) text baud
      ≡ some (
          tried k make_socket
          ++ (reuse_address
              ∷ (tried l (bind_port (if port == 0 then 9200 else port)) ++ (listen_for 4 ∷ []))))
open_link-tcp host d ds baud fuel k l opens binds line h in_int opened free enough enough' =
    let text = codes "tcp://" ++ (host ++ (b':' ∷ digits (d ∷ ds))) in
    ap (λ a. open_link fuel opens binds line a text baud) (address_of-tcp host d ds h in_int)
    ∙ open_link-socket fuel k l opens binds line opened enough free enough'
        (decimal 0 (d ∷ ds) % 65536) text baud
