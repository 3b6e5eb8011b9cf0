-- ===== src/Server/Stream.antt =====
-- `writeAll` and `readByte` of service/src/serial_server.cpp over a port or a socket. What `write`,
-- `send` and `read` return is a parameter; a call that sleeps behind it and comes again takes the
-- next answer.
pub mod Sends
use k230_lr2021_radio.Prelude.{
  ℕ, zero, suc, ◌+◌, Bool, true, false, List, [], ◌∷◌, ◌++◌, Option, none, some, if◌then◌else◌,
  take, drop,
}

-- What `write` or `send` returns: a count, EAGAIN or EINTR, or another error.
pub data Written : Type 0 where
  wrote : ℕ → Written
  again broken : Written

-- The result of `writeAll`, with the bytes that were taken.
abbrev pub Result : Type 0
Result = Bool × List ℕ

abbrev pub behind : List ℕ → Option Result → Option Result
behind bytes none = none
behind bytes (some (ok, sent)) = some (ok, bytes ++ sent)

-- A round of the loop; `more n` is the rest of it behind `n` more bytes.
abbrev pub on_written : Bool → List ℕ → (ℕ → Option Result) → Written → Option Result
on_written is_tcp buf more again = if is_tcp then more 0 else some (false, [])
on_written is_tcp buf more broken = some (false, [])
on_written is_tcp buf more (wrote zero) = some (false, [])
on_written is_tcp buf more (wrote (suc n)) = behind (take (suc n) buf) (more (suc n))

-- `writeAll`, of the `i`-th answer on; `none` is a loop that is not over by then.
unfoldable pub write_stream : Bool → (ℕ → Written) → ℕ → ℕ → List ℕ → Option Result
write_stream is_tcp answers fuel i [] = some (true, [])
write_stream is_tcp answers zero i (b ∷ bs) = none
write_stream is_tcp answers (suc fuel) i (b ∷ bs) =
    on_written is_tcp (b ∷ bs) (λ n. write_stream is_tcp answers fuel (i + 1) (drop n (b ∷ bs)))
      (answers i)

-- What `read` of a byte returns: the byte, nothing, EAGAIN or EINTR, or another error.
pub data Got : Type 0 where
  byte : ℕ → Got
  end_of_file no_byte read_error : Got

-- The results of `readByte`: 0 with a byte, -1 and -2.
pub data Input : Type 0 where
  input : ℕ → Input
  none_yet closed : Input

-- `readByte` with a timeout of 0, the one that `pollOnce` asks for.
unfoldable pub read_byte_stream : Bool → Got → Input
read_byte_stream is_tcp (byte b) = input b
read_byte_stream is_tcp end_of_file = if is_tcp then closed else none_yet
read_byte_stream is_tcp read_error = if is_tcp then closed else none_yet
read_byte_stream is_tcp no_byte = none_yet

-- The bytes that `pollOnce` reads in a round, and whether the client is gone: the results up to the
-- first one that is no byte.
unfoldable pub input_of : Bool → List Got → List ℕ × Bool
unfolding read_byte_stream
input_of is_tcp [] = ([], false)
input_of is_tcp (g ∷ gs) =
    let (bytes, hung_up) = input_of is_tcp gs in
    elim (read_byte_stream is_tcp g) [
      | input b ↦ (b ∷ bytes, hung_up)
      | none_yet ↦ ([], false)
      | closed ↦ ([], true)
    ]
