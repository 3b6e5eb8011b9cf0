-- ===== src/Server/Waits.antt =====
-- `readByte` of service/src/serial_server.cpp with any timeout: it asks for a byte, and if there is
-- none it sleeps and asks again until the deadline. The clock's readings in a call are numbered: the
-- first one makes the deadline, and number `i + 1` follows the `i`-th time that it asked in vain. The
-- sleeps, of 500 and 200 us, are the clock's to show.
pub mod Deadlines
pub mod Returns
pub mod Arrivals
use Prim.{tt}
use k230_lr2021_radio.Prelude.{
  ℕ, zero, suc, ◌+◌, Bool, true, false, not, ◌||◌, List, [], ◌∷◌, Option, none, some, ◌==◌,
  if◌then◌else◌, u32, before32,
}
use k230_lr2021_radio.Device.{ms_of}
use k230_lr2021_radio.Server.Parser.{Bytes}
use k230_lr2021_radio.Server.Ipc.{refill, first_byte}
use k230_lr2021_radio.Server.Stream.{Got, Input, input, none_yet, closed, read_byte_stream}

-- Whether the call returns -1 behind this reading of the clock, if the first one was `start`.
abbrev pub gives_up : ℕ → ℕ → ℕ → Bool
gives_up timeout_ms start now =
    (timeout_ms == 0) || not (before32 (ms_of now) (u32 (ms_of start + timeout_ms)))

-- The loop, from the `i`-th time on that it asks, over what it asks and the state that this changes;
-- `none` is a loop that is not over by then.
unfoldable pub wait_for {ℓ} :
    {A S : Type ℓ} → (ℕ → S → Option A × S) → (ℕ → ℕ) → ℕ → ℕ → ℕ → S → Option (Option A × S)
wait_for ask clock_ns timeout_ms zero i s = none
wait_for ask clock_ns timeout_ms (suc fuel) i s =
    let (got, s') = ask i s in
    elim got [
      | some a ↦ some (some a, s')
      | none ↦ elim (gives_up timeout_ms (clock_ns 0) (clock_ns (suc i))) [
        | true ↦ some (none, s')
        | false ↦ wait_for ask clock_ns timeout_ms fuel (suc i) s'
      ]
    ]

-- What ends the loop over a port or a socket.
abbrev pub final : Input → Option Input
final (input b) = some (input b)
final none_yet = none
final closed = some closed

abbrev pub ask_stream : Bool → (ℕ → Got) → ℕ → Unit {0} → Option Input × Unit {0}
ask_stream is_tcp answers i s = (final (read_byte_stream is_tcp (answers i)), s)

abbrev pub result_of : Option (Option Input × Unit {0}) → Option Input
result_of none = none
result_of (some (none, s)) = some none_yet
result_of (some (some r, s)) = some r

-- `readByte` over a port or a socket: the `i`-th call of `read` returns `answers i`.
unfoldable pub wait_byte_stream : Bool → Bool → (ℕ → Got) → (ℕ → ℕ) → ℕ → ℕ → Option Input
wait_byte_stream is_open is_tcp answers clock_ns timeout_ms fuel =
    if is_open
    then result_of (wait_for (ask_stream is_tcp answers) clock_ns timeout_ms fuel 0 tt)
    else some closed

-- A round over IPC, behind what the other side did to the file since the last one.
abbrev pub ask_ipc : (ℕ → Bool) → (ℕ → Bytes → Bytes) → ℕ → ℕ → Bytes → Option (List ℕ) × Bytes
ask_ipc readable host base i f = if readable i then refill base (host i f) else (none, host i f)

abbrev pub byte_of : Option (Option (List ℕ) × Bytes) → Option (Option ℕ × List ℕ × Bytes)
byte_of none = none
byte_of (some (got, f)) = some (first_byte (got, f))

-- `readByte` over IPC: a byte that waits in the buffer is returned at once. `readable i` says whether
-- the 8 bytes of the header could be read, and `host i` is what the other side does to the file.
unfoldable pub wait_byte_ipc :
    (ℕ → Bool)
    → (ℕ → Bytes → Bytes)
    → (ℕ → ℕ)
    → ℕ
    → ℕ
    → ℕ
    → List ℕ
    → Bytes
    → Option (Option ℕ × List ℕ × Bytes)
wait_byte_ipc readable host clock_ns timeout_ms fuel base (b ∷ pending) f =
    some (some b, pending, f)
wait_byte_ipc readable host clock_ns timeout_ms fuel base [] f =
    byte_of (wait_for (ask_ipc readable host base) clock_ns timeout_ms fuel 0 f)
