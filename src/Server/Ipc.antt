-- ===== src/Server/Ipc.antt =====
-- The rings in shared memory of service/src/serial_server.cpp: `writeAll` and `readByte` over IPC, and
-- what `init` makes of the file. The file is a function of the position; `base` is the start of a
-- ring: the count of the bytes written, the count of those read, 8 bytes more, and the data.
pub mod Cells
pub mod Headers
pub mod Data
pub mod Fifo
pub mod Reads
pub mod Wraps
pub mod Starts
pub mod Rounds
use k230_lr2021_radio.Prelude.{
  ℕ, zero, suc, zero, suc, ◌+◌, ◌-◌, ◌*◌, ◌/◌, ◌%◌, Bool, true, false, ◌&&◌, ◌||◌, not, List, [],
  ◌∷◌, ◌++◌, Option, none, some, ltb, leb, ◌==◌, if◌then◌else◌, length, get_or, u32, sub32,
}
use k230_lr2021_radio.Server.Parser.{Bytes, slice, word_at}

abbrev pub ipc_total_size : ℕ
ipc_total_size = 262144

-- The ring to the host, and the one from it.
abbrev pub r2v_base : ℕ
r2v_base = 0

abbrev pub v2r_base : ℕ
v2r_base = 0x10000

abbrev pub ring_cap : ℕ
ring_cap = 65520

abbrev pub ipc_rx_cap : ℕ
ipc_rx_cap = 4096

-- `write` of a uint32_t at a position.
unfoldable pub write_word : ℕ → ℕ → Bytes → Bytes
write_word at_pos w f = λ j.
    if j == at_pos
    then w % 256
    else if j == at_pos + 1
    then w / 256 % 256
    else if j == at_pos + 2
    then w / 65536 % 256
    else if j == at_pos + 3
    then w / 16777216 % 256
    else f j

-- `write(fd_, buf + from, n)` at a position.
unfoldable pub write_bytes : ℕ → List ℕ → ℕ → ℕ → Bytes → Bytes
write_bytes at_pos buf from n f =
    λ j. if leb at_pos j && ltb j (at_pos + n) then get_or buf (from + (j - at_pos)) 0 else f j

-- How many of `n` bytes from offset `off` on stand before the end of the ring.
abbrev pub first_part : ℕ → ℕ → ℕ
first_part off n = if leb (u32 (off + n)) ring_cap then n else ring_cap - off

-- The data of a write, in one piece or in two.
unfoldable pub write_data : ℕ → ℕ → List ℕ → Bytes → Bytes
write_data base head buf f =
    let off = head % ring_cap in
    let n = u32 (length buf) in
    let first = first_part off n in
    let f1 = write_bytes (base + 16 + off) buf 0 first f in
    if ltb first n then write_bytes (base + 16) buf first (n - first) f1 else f1

-- What a writer believes to be in use: nothing, where the counts make no sense.
abbrev pub believed : ℕ → ℕ → ℕ → ℕ
believed head tail len =
    let used = sub32 head tail in if ltb ring_cap used || ltb ring_cap len then 0 else used

-- Room is made by moving the reader's count on.
unfoldable pub make_room : ℕ → ℕ → ℕ → ℕ → Bytes → Bytes
make_room base head tail len f =
    if ltb ring_cap (believed head tail len + len)
    then write_word (base + 4) (sub32 head (sub32 ring_cap (u32 len))) f
    else f

unfoldable pub write_ring : ℕ → List ℕ → Bytes → Bytes
write_ring base buf f =
    let head = word_at f base in
    let tail = word_at f (base + 4) in
    write_word base (u32 (head + length buf))
      (write_data base head buf (make_room base head tail (length buf) f))

-- `writeAll` over IPC; `readable` says whether the 8 bytes of the header could be read.
abbrev pub write_all_ipc : Bool → List ℕ → Bytes → Bool × Bytes
write_all_ipc readable buf f = if readable then (true, write_ring r2v_base buf f) else (false, f)

-- `take` bytes from count `tail` on, in one piece or in two.
unfoldable pub read_ring : ℕ → ℕ → ℕ → Bytes → List ℕ
read_ring base tail n f =
    let off = tail % ring_cap in
    let first = first_part off n in
    slice f (base + 16 + off) first ++ (if ltb first n then slice f (base + 16) (n - first) else [])

-- The reader's buffer is filled; counts that make no sense empty the ring.
unfoldable pub refill : ℕ → Bytes → Option (List ℕ) × Bytes
refill base f =
    let head = word_at f base in
    let tail = word_at f (base + 4) in
    let avail = sub32 head tail in
    let n = if ltb avail ipc_rx_cap then avail else ipc_rx_cap in
    if head == tail
    then (none, f)
    else if ltb ring_cap avail
    then (none, write_word (base + 4) head f)
    else (some (read_ring base tail n f), write_word (base + 4) (u32 (tail + n)) f)

-- The first byte goes to the caller. A buffer that was filled is not empty.
abbrev pub first_byte : Option (List ℕ) × Bytes → Option ℕ × List ℕ × Bytes
first_byte (some (b ∷ bs), f) = (some b, bs, f)
first_byte (_, f) = (none, [], f)

-- `readByte` over IPC with a timeout of 0, the one that `pollOnce` asks for: the bytes that wait in
-- `ipc_rx_buf_`, and the file; `readable` says whether the 8 bytes of the header could be read.
-- `none` is the result -1.
unfoldable pub read_byte_ipc : Bool → ℕ → List ℕ → Bytes → Option ℕ × List ℕ × Bytes
read_byte_ipc readable base (b ∷ pending) f = (some b, pending, f)
read_byte_ipc readable base [] f = first_byte (if readable then refill base f else (none, f))

abbrev pub behind_byte : ℕ → Option (List ℕ × Bytes) → Option (List ℕ × Bytes)
behind_byte b none = none
behind_byte b (some (bytes, f)) = some (b ∷ bytes, f)

-- The bytes that the loop of `pollOnce` reads from a ring before the -1, while nothing else touches
-- the file, and the file behind them; `none` is a loop that is not over by then.
unfoldable pub read_round : ℕ → ℕ → List ℕ → Bytes → Option (List ℕ × Bytes)
unfolding read_byte_ipc
read_round zero base pending f = none
read_round (suc fuel) base pending f =
    let (got, pending', f') = read_byte_ipc true base pending f in
    elim got [ none ↦ some ([], f') | some b ↦ behind_byte b (read_round fuel base pending' f') ]

-- `init`: a file that is too short is filled with zeros, and both rings are emptied.
unfoldable pub init_file : ℕ → Bytes → Bytes
init_file size f =
    let f1 =
      if ltb size ipc_total_size then (λ j. if ltb j ipc_total_size then 0 else f j) else f in
    let f2 = write_word (r2v_base + 4) 0 (write_word r2v_base 0 f1) in
    write_word (v2r_base + 4) 0 (write_word v2r_base 0 f2)
