-- ===== src/Tests/Links.antt =====
-- Waits for a byte, and the start of a TCP server.
use Prim.{tt}
use k230_lr2021_radio.Prelude.{
  ℕ, zero, suc, ◌*◌, ◌≡◌, inr, refl, true, false, [], ◌∷◌, ◌++◌, some, arith, leb,
}
use k230_lr2021_radio.Server.Frames.{codes}
use k230_lr2021_radio.Server.Parser.{Bytes}
use k230_lr2021_radio.Server.Ipc.{write_word, init_file, v2r_base}
use k230_lr2021_radio.Server.Ipc.Fifo.{head_of}
use k230_lr2021_radio.Server.Ipc.Starts.{IsEmpty, init_file-IsEmpty}
use k230_lr2021_radio.Server.Stream.{Got, byte, no_byte, input, none_yet, read_byte_stream}
use k230_lr2021_radio.Server.Waits.{wait_for, wait_byte_stream, wait_byte_ipc}
use k230_lr2021_radio.Server.Waits.Deadlines.{IsPaced}
use k230_lr2021_radio.Server.Waits.Returns.{IsInTime, wait_byte_stream-IsInTime}
use k230_lr2021_radio.Server.Waits.Arrivals.{IsFetched, writes_at, wait_byte_ipc-IsFetched}
use k230_lr2021_radio.Server.Address.{address_of}
use k230_lr2021_radio.Server.Setup.{
  Termios, make_socket, reuse_address, bind_port, listen_for, sleep_ms, open_link,
}
use k230_lr2021_radio.Server.Setup.Attempts.{SucceedsAfter, open_link-tcp}
use k230_lr2021_radio.Prelude.{join32-bytes}

-- A clock that moves on by 250 us from reading to reading.
abbrev ticks : ℕ → ℕ
ticks i = i * 250000

ticks-IsPaced : IsPaced ticks
ticks-IsPaced = record {
  forward = omega arith;
  slept = λ i. omega arith;
  bounded = λ i. omega arith;
}

-- A byte comes when `read` is called for the third time.
abbrev third : ℕ → Got
third zero = no_byte
third (suc zero) = no_byte
third (suc (suc i)) = byte 84

wait_byte_stream-IsInTime_example :
    IsInTime
      (λ i. read_byte_stream true (third i))
      ticks
      3
      (wait_byte_stream true true third ticks 3 16)
wait_byte_stream-IsInTime_example =
    wait_byte_stream-IsInTime true third ticks 3 16 ticks-IsPaced (omega arith) (omega arith)

-- It is the byte that the call returns, and with a timeout of 0 there is none.
waited : wait_byte_stream true true third ticks 3 16 ≡ some (input 84)
unfolding wait_byte_stream wait_for read_byte_stream
waited = refl

not_waited : wait_byte_stream true true third ticks 0 1 ≡ some none_yet
unfolding wait_byte_stream wait_for read_byte_stream
not_waited = refl

abbrev start : Bytes
start = init_file 0 (λ _. 7)

start-IsEmpty : IsEmpty v2r_base start
start-IsEmpty = (init_file-IsEmpty 0 (λ _. 7)).1

start_head : head_of v2r_base start ≡ 0
unfolding init_file write_word
start_head = join32-bytes 0 (omega arith)

wait_byte_ipc-IsFetched_example : IsFetched v2r_base b'X' (b'S' ∷ []) (
    wait_byte_ipc
      (λ _. true)
      (writes_at 2 v2r_base (b'X' ∷ b'S' ∷ []))
      ticks
      5
      26
      v2r_base
      []
      start)
wait_byte_ipc-IsFetched_example =
    wait_byte_ipc-IsFetched v2r_base b'X' (b'S' ∷ []) start ticks 2 5 26 ticks-IsPaced (omega arith)
      (omega arith) start-IsEmpty (omega arith) (omega (arith, start_head)) (inr (omega arith))

abbrev cooked : Termios
cooked = record {
  ispeed = 9600;
  ospeed = 9600;
  clocal = false;
  cread = true;
  cstopb = false;
  parenb = false;
  icanon = true;
  echo = true;
  echoe = true;
  isig = true;
  ixon = true;
  ixoff = false;
  ixany = false;
  inlcr = false;
  icrnl = true;
  opost = true;
  vmin = 1;
  vtime = 0;
  others = 0;
}

-- The socket is there at once, and the port is taken twice.
third_time : SucceedsAfter 2 (leb 2)
third_time = record { fails = λ i p. ground arith; succeeds = refl }

at_once : SucceedsAfter 0 (λ _. true)
at_once = record { fails = λ i p. absurd (omega arith); succeeds = refl }

open_link-tcp_example :
    open_link 5
      (λ _. true)
      (leb 2)
      cooked
      (address_of (codes "tcp://" ++ (codes "10.0.0.1" ++ (b':' ∷ codes "9300"))))
      (codes "tcp://10.0.0.1:9300")
      115200
    ≡ some (
        make_socket
        ∷ reuse_address
        ∷ bind_port 9300
        ∷ sleep_ms 500
        ∷ bind_port 9300
        ∷ sleep_ms 500
        ∷ bind_port 9300
        ∷ listen_for 4
        ∷ [])
open_link-tcp_example =
    open_link-tcp (codes "10.0.0.1") 9 (3 ∷ 0 ∷ 0 ∷ []) 115200 5 0 2 (λ _. true) (leb 2) cooked
      (omega arith, (omega arith, (omega arith, (omega arith, tt)))) (omega arith) at_once
      third_time (omega arith) (omega arith)
