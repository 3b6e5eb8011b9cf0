-- ===== src/Server/Address.antt =====
-- The constructor of `SerialServer` (service/src/serial_server.cpp): what its address selects. A text
-- is the list of its bytes.
pub mod Ports
use Prim.Native.String.{String}
use k230_lr2021_radio.Prelude.{
  is_empty, ℕ, zero, suc, ◌+◌, ◌-◌, ◌*◌, ◌%◌, Bool, true, false, ◌&&◌, ◌||◌, not, List, [], ◌∷◌,
  Option, none, some, ltb, leb, ◌==◌, if◌then◌else◌, drop, ℤ, pos, negsuc, bits_of, length,
}
use k230_lr2021_radio.Server.Frames.{codes}

-- The fields that the constructor sets.
pub record Address : Type 0 where
  pub is_ipc : Bool
  pub is_tcp : Bool
  pub ipc_path : List ℕ
  pub tcp_port : ℕ

-- `s.rfind(prefix, 0) == 0`
abbrev pub starts_with : List ℕ → List ℕ → Bool
starts_with [] s = true
starts_with (p ∷ ps) [] = false
starts_with (p ∷ ps) (c ∷ s) = (p == c) && starts_with ps s

-- `s.rfind(c)`, with `none` for npos.
abbrev pub rfind : ℕ → List ℕ → Option ℕ
rfind c [] = none
rfind c (x ∷ s) = elim (rfind c s) [
  | none ↦ if x == c then some 0 else none
  | some i ↦ some (suc i)
]

-- `isspace` and `isdigit` of the C locale.
abbrev pub is_space : ℕ → Bool
is_space c = (c == 32) || (leb 9 c && leb c 13)

abbrev pub is_digit : ℕ → Bool
is_digit c = leb 48 c && leb c 57

-- The digits that lead a text, read behind those of `acc`.
unfoldable pub read_digits : ℕ → List ℕ → ℕ
read_digits acc [] = acc
read_digits acc (c ∷ s) = if is_digit c then read_digits (acc * 10 + (c - 48)) s else acc

abbrev pub negate : ℕ → ℤ
negate zero = pos 0
negate (suc n) = negsuc n

abbrev pub read_sign : List ℕ → ℤ
read_sign [] = pos 0
read_sign (c ∷ s) =
    if c == b'-'
    then negate (read_digits 0 s)
    else if c == b'+'
    then pos (read_digits 0 s)
    else pos (read_digits 0 (c ∷ s))

-- `atoi` of the C library, for numbers that an int can hold.
unfoldable pub atoi : List ℕ → ℤ
unfolding read_digits
atoi [] = pos 0
atoi (c ∷ s) = if is_space c then atoi s else read_sign (c ∷ s)

-- `static_cast<uint16_t>(atoi(s))`
abbrev pub port_of : List ℕ → ℕ
port_of s = bits_of 65536 (atoi s)

abbrev pub default_port : ℕ
default_port = 9200

-- A port of 0 gives way to the default.
abbrev pub or_default : ℕ → ℕ
or_default port = if port == 0 then default_port else port

-- The port behind the last colon, where that is behind the colon of `tcp:`.
abbrev pub port_behind : List ℕ → Option ℕ → ℕ
port_behind s none = 0
port_behind s (some colon) = if ltb 5 colon then port_of (drop (colon + 1) s) else 0

abbrev pub ipc_address : List ℕ → Address
ipc_address path = record {
  is_ipc = true;
  is_tcp = false;
  ipc_path = if is_empty path then codes "/tmp/slx_ipc.bin" else path;
  tcp_port = 0;
}

abbrev pub tcp_address : ℕ → Address
tcp_address port = record {
  is_ipc = false;
  is_tcp = true;
  ipc_path = [];
  tcp_port = or_default port;
}

abbrev pub uart_address : Address
uart_address = record { is_ipc = false; is_tcp = false; ipc_path = []; tcp_port = 0 }

-- A text that starts with a colon is a port.
abbrev pub other_address : List ℕ → Address
other_address [] = uart_address
other_address (c ∷ s) = if c == b':' then tcp_address (port_of s) else uart_address

unfoldable pub address_of : List ℕ → Address
unfolding atoi
address_of s =
    if starts_with (codes "ipc://") s
    then ipc_address (drop 6 s)
    else if starts_with (codes "tcp://") s
    then tcp_address (port_behind s (rfind b':' s))
    else other_address s
