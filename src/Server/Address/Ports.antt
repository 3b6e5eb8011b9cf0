-- ===== src/Server/Address/Ports.antt =====
-- The port that a `tcp://` address selects.
use k230_lr2021_radio.Prelude.{
  ℕ, zero, suc, ◌+◌, ◌-◌, ◌*◌, ◌%◌, ◌≡◌, ◌<◌, refl, ap, true, false, List, [], ◌∷◌, ◌++◌, none,
  some, arith, ◌==◌, ltb, length, drop, pos,
}
use k230_lr2021_radio.Server.Frames.{codes}
use k230_lr2021_radio.Server.Address.{
  address_of, rfind, read_digits, atoi, port_behind, is_digit, is_space, tcp_address,
}

abbrev pub AreDigits : List ℕ → Type 0
AreDigits [] = Unit {0}
AreDigits (d ∷ ds) = (d < 10) × AreDigits ds

-- The number that a list of decimal digits stands for, behind the digits of `acc`.
abbrev pub decimal : ℕ → List ℕ → ℕ
decimal acc [] = acc
decimal acc (d ∷ ds) = decimal (acc * 10 + d) ds

-- The digits as text.
abbrev pub digits : List ℕ → List ℕ
digits [] = []
digits (d ∷ ds) = (48 + d) ∷ digits ds

read-digits : (acc : ℕ) (ds : List ℕ) → AreDigits ds → read_digits acc (digits ds) ≡ decimal acc ds
unfolding read_digits
read-digits acc [] h = refl
read-digits acc (d ∷ ds) h =
    let digit : is_digit (48 + d) ≡ true = ground (arith, h.0) in
    let value : 48 + d - 48 ≡ d = omega arith in
    rw (digit, value) (read-digits (acc * 10 + d) ds h.1)

pub atoi-digits :
    (d : ℕ) (ds : List ℕ) → AreDigits (d ∷ ds) → atoi (digits (d ∷ ds)) ≡ pos (decimal 0 (d ∷ ds))
unfolding atoi
atoi-digits d ds h =
    let no_space : is_space (48 + d) ≡ false = ground (arith, h.0) in
    let no_minus : ((48 + d) == b'-') ≡ false = ground (arith, h.0) in
    let no_plus : ((48 + d) == b'+') ≡ false = ground (arith, h.0) in
    rw (no_space, no_minus, no_plus) (ap pos (read-digits 0 (d ∷ ds) h))

-- No digit is a colon, so the last colon stands before the digits.
rfind-digits : (ds : List ℕ) → AreDigits ds → rfind b':' (digits ds) ≡ none
rfind-digits [] h = refl
rfind-digits (d ∷ ds) h =
    let other : ((48 + d) == b':') ≡ false = ground (arith, h.0) in rw (rfind-digits ds h.1, other)

rfind-append : (s t : List ℕ) → rfind b':' t ≡ none → rfind b':' (s ++ (b':' ∷ t)) ≡ some (length s)
rfind-append [] t e = rw e
rfind-append (x ∷ s) t e = rw (rfind-append s t e)

drop-append : (s t : List ℕ) (n : ℕ) → n ≡ length s + 1 → drop n (s ++ (b':' ∷ t)) ≡ t
drop-append [] t n e = ap (λ k. drop k (b':' ∷ t)) e
drop-append (x ∷ s) t zero e = absurd (omega arith)
drop-append (x ∷ s) t (suc n) e = drop-append s t n (omega arith)

abbrev tcp_text : List ℕ → List ℕ
tcp_text host = codes "tcp://" ++ host

port-digits :
    (host : List ℕ) (d : ℕ) (ds : List ℕ)
    → AreDigits (d ∷ ds)
    → let s = tcp_text host ++ (b':' ∷ digits (d ∷ ds)) in
      port_behind s (rfind b':' s) ≡ decimal 0 (d ∷ ds) % 65536
port-digits host d ds h =
    let t = digits (d ∷ ds) in
    let far : ltb 5 (length (tcp_text host)) ≡ true = ground arith in
    rw (
      rfind-append (tcp_text host) t (rfind-digits (d ∷ ds) h),
      far,
      drop-append (tcp_text host) t (length (tcp_text host) + 1) refl,
      atoi-digits d ds h,
    )

-- An address `tcp://host:port`, where the port is a number that an int can hold, selects TCP, and the
-- port is that number cut to 16 bits, or 9200 if that leaves 0, whatever the host is.
pub address_of-tcp :
    (host : List ℕ) (d : ℕ) (ds : List ℕ)
    → AreDigits (d ∷ ds)
    → decimal 0 (d ∷ ds) < 2147483648
    → address_of (codes "tcp://" ++ (host ++ (b':' ∷ digits (d ∷ ds))))
      ≡ tcp_address (decimal 0 (d ∷ ds) % 65536)
unfolding address_of
address_of-tcp host d ds h in_int = ap tcp_address (port-digits host d ds h)
