-- ===== src/Burst/Headers.antt =====
-- Packet headers: what `encode_packet` writes and what `decode_header` reads.
use k230_lr2021_radio.Prelude.{
  ℕ, ◌≡◌, ◌≤◌, ◌<◌, Bool-cases, inl, inr, true, none, some, List, ◌++◌, arith, join16-bytes,
  join32-bytes, if◌then◌else◌,
}
use k230_lr2021_radio.Burst.{
  Header, magic, max_total_payload, max_air_packets_alt, header_bytes, header_ok, load_header,
  decode_header,
}

-- The ranges of the fields of a header, as their types give them.
pub record IsWords (h : Header) : Type 0 where
  pub magic_word : h.magic_word < 65536
  pub burst_id : h.burst_id < 65536
  pub packet_idx : h.packet_idx < 65536
  pub total_packets : h.total_packets < 65536
  pub total_payload_len : h.total_payload_len < 4294967296
  pub payload_crc32 : h.payload_crc32 < 4294967296

-- What the receiver accepts of a header.
pub record IsAccepted (h : Header) : Type 0 where
  pub marked : h.magic_word ≡ magic
  pub some_packets : 0 < h.total_packets
  pub few_packets : h.total_packets ≤ max_air_packets_alt
  pub some_bytes : 0 < h.total_payload_len
  pub few_bytes : h.total_payload_len ≤ max_total_payload
  pub in_burst : h.packet_idx < h.total_packets

pub IsAccepted-header_ok : (h : Header) → IsAccepted h → header_ok h ≡ true
IsAccepted-header_ok h a = ground arith

pub header_ok-IsAccepted : (h : Header) → header_ok h ≡ true → IsAccepted h
header_ok-IsAccepted h e = ground arith

pub load-header_bytes :
    (h : Header) (rest : List ℕ) → IsWords h → load_header (header_bytes h ++ rest) ≡ h
load-header_bytes h rest w = λ i. record {
  magic_word = join16-bytes h.magic_word w.magic_word i;
  burst_id = join16-bytes h.burst_id w.burst_id i;
  packet_idx = join16-bytes h.packet_idx w.packet_idx i;
  total_packets = join16-bytes h.total_packets w.total_packets i;
  total_payload_len = join32-bytes h.total_payload_len w.total_payload_len i;
  payload_crc32 = join32-bytes h.payload_crc32 w.payload_crc32 i;
}

-- Decoding is exact: a header within its field widths and followed by any bytes is read back
-- if the receiver's limits hold of it, and refused otherwise.
pub decode-header_bytes :
    (h : Header) (rest : List ℕ)
    → IsWords h
    → decode_header (header_bytes h ++ rest) ≡ (if header_ok h then some h else none)
unfolding decode_header
decode-header_bytes h rest w = ground (arith, load-header_bytes h rest w)

-- Whatever `decode_header` returns meets the receiver's limits.
pub decode-IsAccepted : (p : List ℕ) (h : Header) → decode_header p ≡ some h → IsAccepted h
unfolding decode_header
decode-IsAccepted p h e = elim (Bool-cases (header_ok (load_header p))) [
  | inl ok ↦ ground (arith, header_ok-IsAccepted (load_header p) ok)
  | inr bad ↦ ground arith
]
