-- ===== src/Burst.antt =====
-- service/src/burst.hpp: the on-air [FB] burst protocol. A packet is the list of its bytes; a
-- pointer with a length is a list of that length.
pub mod Headers
pub mod Reassembly
pub mod Crc
pub mod Detection
use k230_lr2021_radio.Prelude.{
  ℕ, zero, suc, ◌+◌, ◌-◌, ◌*◌, ◌/◌, ◌%◌, ◌≡◌, Bool, true, false, ◌&&◌, ◌||◌, Option, none, some,
  List, [], ◌∷◌, ◌++◌, ltb, leb, ◌==◌, if◌then◌else◌, not, length, get_or, take, drop, replicate,
  u16, u32, sub32, le16, le32, join16, join32, bit_xor, bit_and,
}

abbrev pub magic : ℕ
magic = 0x4642

abbrev pub max_total_payload : ℕ
max_total_payload = 24576

abbrev pub packet_payload : ℕ
packet_payload = 511

-- packet_payload - 16
abbrev pub chunk : ℕ
chunk = 495

abbrev pub max_packets : ℕ
max_packets = 50

abbrev pub max_air_packets_alt : ℕ
max_air_packets_alt = 105

abbrev pub header_len : ℕ
header_len = 16

-- One round of the inner loop of `crc32`.
unfoldable pub crc_bit : ℕ → ℕ
crc_bit crc = bit_xor (crc / 2) (bit_and 0xEDB88320 (sub32 0 (crc % 2)))

unfoldable pub crc_bits : ℕ → ℕ → ℕ
unfolding crc_bit
crc_bits zero crc = crc
crc_bits (suc b) crc = crc_bits b (crc_bit crc)

-- One round of the outer loop.
unfoldable pub crc_byte : ℕ → ℕ → ℕ
unfolding crc_bits
crc_byte crc byte = crc_bits 8 (bit_xor crc byte)

unfoldable pub crc_loop : ℕ → List ℕ → ℕ
unfolding crc_byte
crc_loop crc [] = crc
crc_loop crc (x ∷ xs) = crc_loop (crc_byte crc x) xs

-- `~crc` is the distance to the largest word.
unfoldable pub crc32 : List ℕ → ℕ
unfolding crc_loop
crc32 bytes = if length bytes == 0 then 0 else 0xFFFFFFFF - crc_loop 0xFFFFFFFF bytes

-- The packed struct `Header`. Its fields are words of 16, 16, 16, 16, 32 and 32 bits.
pub record Header : Type 0 where
  pub magic_word : ℕ
  pub burst_id : ℕ
  pub packet_idx : ℕ
  pub total_packets : ℕ
  pub total_payload_len : ℕ
  pub payload_crc32 : ℕ

-- The bytes of a packed `Header` in memory, in little-endian order.
abbrev pub header_bytes : Header → List ℕ
header_bytes h =
    le16 h.magic_word
    ++ (le16 h.burst_id
        ++ (le16 h.packet_idx
            ++ (le16 h.total_packets ++ (le32 h.total_payload_len ++ le32 h.payload_crc32))))

-- `total_len - off`, a uint32_t subtraction, cut to the size of a chunk.
unfoldable pub chunk_len : ℕ → ℕ → ℕ
chunk_len idx total_len =
    let rest = sub32 total_len (u32 (idx * chunk)) in if ltb chunk rest then chunk else rest

-- `Header h{kMagic, burst_id, idx, total, total_len, payload_crc}`
abbrev pub burst_header : ℕ → ℕ → ℕ → ℕ → ℕ → Header
burst_header burst_id idx total total_len payload_crc = record {
  magic_word = magic;
  burst_id = burst_id;
  packet_idx = idx;
  total_packets = total;
  total_payload_len = total_len;
  payload_crc32 = payload_crc;
}

-- The size of the output is the packet's length, `*out_len`.
unfoldable pub encode_packet : ℕ → ℕ → ℕ → List ℕ → ℕ → ℕ → List ℕ
unfolding chunk_len
encode_packet burst_id idx total payload total_len payload_crc =
    let size = chunk_len idx total_len in
    header_bytes (burst_header burst_id idx total total_len payload_crc)
    ++ (take size (drop (u32 (idx * chunk)) payload)
        ++ replicate
            (if ltb (header_len + size) packet_payload
              then packet_payload - header_len - size
              else 0)
            0)

-- The overload of `encode_packet` that computes the CRC of the payload itself.
unfoldable pub encode_with_crc : ℕ → ℕ → ℕ → List ℕ → ℕ → List ℕ
encode_with_crc burst_id idx total payload total_len =
    encode_packet burst_id idx total payload total_len (crc32 (take total_len payload))

-- `memcpy` of the first 16 bytes into a `Header`.
abbrev pub load_header : List ℕ → Header
load_header p = record {
  magic_word = join16 (get_or p 0 0) (get_or p 1 0);
  burst_id = join16 (get_or p 2 0) (get_or p 3 0);
  packet_idx = join16 (get_or p 4 0) (get_or p 5 0);
  total_packets = join16 (get_or p 6 0) (get_or p 7 0);
  total_payload_len = join32 (get_or p 8 0) (get_or p 9 0) (get_or p 10 0) (get_or p 11 0);
  payload_crc32 = join32 (get_or p 12 0) (get_or p 13 0) (get_or p 14 0) (get_or p 15 0);
}

-- The tests that `decode_header` makes on the loaded header.
abbrev pub header_ok : Header → Bool
header_ok h =
    if not (h.magic_word == magic)
    then false
    else if (h.total_packets == 0) || ltb max_air_packets_alt h.total_packets
    then false
    else if (h.total_payload_len == 0) || ltb max_total_payload h.total_payload_len
    then false
    else if leb h.total_packets h.packet_idx
    then false
    else true

unfoldable pub decode_header : List ℕ → Option Header
decode_header p =
    if ltb (length p) header_len
    then none
    else if header_ok (load_header p)
    then some (load_header p)
    else none

unfoldable pub is_consensus_prefix : List ℕ → Bool
is_consensus_prefix p =
    if leb 4 (length p)
      && ((get_or p 0 0 == 0x53)
          && ((get_or p 1 0 == 0x4C) && ((get_or p 2 0 == 0x52) && (get_or p 3 0 == 0x46))))
    then true
    else if leb 2 (length p) && ((get_or p 0 0 == 0x42) && (get_or p 1 0 == 0x46))
    then true
    else false

-- The packet count of a payload of `len` bytes, as `transmitBurst` of radio_worker.cpp has it.
unfoldable pub total_packets : ℕ → ℕ
total_packets len = u16 ((len + chunk - 1) / chunk)
