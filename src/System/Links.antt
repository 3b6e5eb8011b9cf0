-- ===== src/System/Links.antt =====
-- The link that `main` of service/src/main.cpp opens, by its arguments.
use k230_lr2021_radio.Prelude.{
  ℕ, ◌≡◌, ◌<◌, ◌∙◌, refl, ap, false, Bool, List, [], ◌∷◌, ◌++◌, some, pos, bits_of, arith,
}
use k230_lr2021_radio.Server.Frames.{codes}
use k230_lr2021_radio.Server.Address.{address_of}
use k230_lr2021_radio.Server.Address.Ports.{AreDigits, decimal, digits, atoi-digits}
use k230_lr2021_radio.Server.Setup.{open_link, Termios, open_port, set_line, flush_line, raw_line}
use k230_lr2021_radio.Server.Setup.Attempts.{SucceedsAfter, tried, open_link-port}
use k230_lr2021_radio.System.{link_of}

-- A path that selects neither IPC nor TCP is opened as a port, made raw at the baud rate that the
-- second argument names, a number that an int can hold, and flushed; `open` fails `k` times.
link_of-port :
    (fuel k d : ℕ) (opens binds : ℕ → Bool) (line : Termios) (uart ds : List ℕ)
    → (address_of uart).is_ipc ≡ false
    → (address_of uart).is_tcp ≡ false
    → AreDigits (d ∷ ds)
    → decimal 0 (d ∷ ds) < 2147483648
    → SucceedsAfter k opens
    → k < fuel
    → link_of fuel opens binds line (uart ∷ digits (d ∷ ds) ∷ [])
      ≡ some (
          tried k (open_port uart)
          ++ (set_line (raw_line (decimal 0 (d ∷ ds)) line) ∷ flush_line ∷ []))
unfolding link_of
link_of-port fuel k d opens binds line uart ds ipc tcp h in_int opened enough =
    let whole : bits_of 4294967296 (pos (decimal 0 (d ∷ ds))) ≡ decimal 0 (d ∷ ds) = omega arith in
    ap (open_link fuel opens binds line (address_of uart) uart)
      (ap (bits_of 4294967296) (atoi-digits d ds h) ∙ whole)
    ∙ open_link-port fuel k 0 opens binds line opened enough (address_of uart) uart
        (decimal 0 (d ∷ ds)) ipc tcp

-- Without arguments that is the port /dev/ttyS1, at 115200 baud.
link_of-default :
    (fuel k : ℕ) (opens binds : ℕ → Bool) (line : Termios)
    → SucceedsAfter k opens
    → k < fuel
    → link_of fuel opens binds line []
      ≡ some (
          tried k (open_port (codes "/dev/ttyS1"))
          ++ (set_line (raw_line 115200 line) ∷ flush_line ∷ []))
unfolding link_of address_of
link_of-default fuel k opens binds line opened enough =
    open_link-port fuel k 0 opens binds line opened enough (address_of (codes "/dev/ttyS1"))
      (codes "/dev/ttyS1") 115200 refl refl
