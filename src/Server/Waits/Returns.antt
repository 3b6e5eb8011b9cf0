-- ===== src/Server/Waits/Returns.antt =====
-- What `readByte` of service/src/serial_server.cpp returns by its deadline, over a port or a socket
-- and over IPC.
use Prim.{tt}
use k230_lr2021_radio.Prelude.{
  ℕ, zero, suc, ◌+◌, ◌*◌, ◌≡◌, ◌≤◌, ◌<◌, refl, sym, ap, ◌∙◌, Bool, true, Option, none, some, arith,
}
use k230_lr2021_radio.Server.Stream.{Got, Input, input, none_yet, closed, read_byte_stream}
use k230_lr2021_radio.Server.Waits.{final, result_of, ask_stream, wait_byte_stream}
use k230_lr2021_radio.Server.Waits.Deadlines.{IsPaced, ms, asked, wait_for-IsOver}

-- A call that is over: it returns what `read` makes of it at some time, before which there was no
-- byte and the deadline had not come; it is a -1 only if the deadline has come by then.
pub record IsInTime (reads : ℕ → Input) (clock_ns : ℕ → ℕ) (due : ℕ) (o : Option Input)
    : Type 0 where
  pub rounds : ℕ
  pub returned : o ≡ some (reads rounds)
  pub silent : (j : ℕ) → j < rounds → (reads j ≡ none_yet) × (ms (clock_ns (suc j)) < due)
  pub expired : reads rounds ≡ none_yet → due ≤ ms (clock_ns (suc rounds))

asked_stream :
    (is_tcp : Bool) (answers : ℕ → Got) (i n : ℕ)
    → asked (ask_stream is_tcp answers) i tt n
      ≡ (final (read_byte_stream is_tcp (answers (i + n))), tt)
asked_stream is_tcp answers i zero =
    ap (λ k. (final (read_byte_stream is_tcp (answers k)), tt)) {x = i} {y = i + 0} (omega arith)
asked_stream is_tcp answers i (suc n) =
    asked_stream is_tcp answers (suc i) n
    ∙ ap (λ k. (final (read_byte_stream is_tcp (answers k)), tt)) {x = suc i + n} {y = i + suc n}
        (omega arith)

asked_first :
    (is_tcp : Bool) (answers : ℕ → Got) (n : ℕ)
    → asked (ask_stream is_tcp answers) 0 tt n ≡ (final (read_byte_stream is_tcp (answers n)), tt)
asked_first is_tcp answers n =
    asked_stream is_tcp answers 0 n
    ∙ ap (λ k. (final (read_byte_stream is_tcp (answers k)), tt)) {x = 0 + n} {y = n} (omega arith)

final-none : (r : Input) → final r ≡ none → r ≡ none_yet
final-none (input b) e = absurd cc
final-none none_yet e = refl
final-none closed e = absurd cc

result-final : (r : Input) → result_of (some (final r, tt)) ≡ some r
result-final (input b) = refl
result-final none_yet = refl
result-final closed = refl

-- `readByte` over an open port or socket, with a timeout of at most 2^31 ms and a clock of which each
-- reading behind a sleep is 200 us further on at least and none is 10^14 ns behind the last, is over
-- after at most 5 calls of `read` for each millisecond and one more. It asked until there was a byte,
-- or an end, or the deadline had come, and returned that, across the wrap of the clock's 32 bits; with
-- a timeout of 0 it asked once.
pub wait_byte_stream-IsInTime :
    (is_tcp : Bool) (answers : ℕ → Got) (clock_ns : ℕ → ℕ) (timeout_ms fuel : ℕ)
    → IsPaced clock_ns
    → timeout_ms ≤ 2147483648
    → 5 * timeout_ms + 1 ≤ fuel
    → IsInTime
        (λ i. read_byte_stream is_tcp (answers i))
        clock_ns
        (ms (clock_ns 0) + timeout_ms)
        (wait_byte_stream true is_tcp answers clock_ns timeout_ms fuel)
unfolding wait_byte_stream
wait_byte_stream-IsInTime is_tcp answers clock_ns timeout_ms fuel paced short enough =
    let reads : ℕ → Input = λ i. read_byte_stream is_tcp (answers i) in
    let w =
      wait_for-IsOver (ask_stream is_tcp answers) clock_ns timeout_ms fuel tt paced short enough in
    record {
      rounds = w.rounds;
      returned =
          ap result_of (w.returned ∙ ap some (asked_first is_tcp answers w.rounds))
          ∙ result-final (reads w.rounds);
      silent = λ j p.
          let (nothing, soon) = w.silent j p in
          (
            final-none (reads j) (ap (λ r. r.0) (sym (asked_first is_tcp answers j)) ∙ nothing),
            soon,
          );
      expired = λ e. w.expired (ap (λ r. r.0) (asked_first is_tcp answers w.rounds) ∙ ap final e);
    }
