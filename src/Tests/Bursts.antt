-- ===== src/Tests/Bursts.antt =====
-- Bursts cut up and put together.
use Prim.{tt}
use k230_lr2021_radio.Prelude.{◌≢◌, ◌-◌, ℕ, ◌≡◌, refl, List, [], ◌∷◌, ◌++◌, arith}
use k230_lr2021_radio.Burst.{
  Header, crc32, crc_loop, crc_byte, crc_bits, crc_bit, burst_header, total_packets,
}
use k230_lr2021_radio.Burst.Headers.{IsWords}
use k230_lr2021_radio.Burst.Crc.{AreBytes, serial, message_bits, crc32-serial}
use k230_lr2021_radio.Burst.Detection.{crc32_one_byte}
use k230_lr2021_radio.Burst.Reassembly.{packets_from, assemble, assemble-packets}

-- The check value of the CRC-32 of IEEE 802.3.
crc32_check : crc32 (b'1' ∷ b'2' ∷ b'3' ∷ b'4' ∷ b'5' ∷ b'6' ∷ b'7' ∷ b'8' ∷ b'9' ∷ []) ≡ 0xCBF43926
unfolding crc32 crc_loop crc_byte crc_bits crc_bit
crc32_check = refl

abbrev payload : List ℕ
payload = 1 ∷ 2 ∷ 3 ∷ []

assemble-packets_example : assemble 3 (packets_from 77 1 payload 5 (total_packets 3) 0) ≡ payload
assemble-packets_example = assemble-packets 77 1 payload 5 (omega arith) (omega arith)

abbrev header : Header
header = burst_header 77 0 1 3 5

header-IsWords : IsWords header
header-IsWords = record {
  magic_word = omega arith;
  burst_id = omega arith;
  packet_idx = omega arith;
  total_packets = omega arith;
  total_payload_len = omega arith;
  payload_crc32 = omega arith;
}

payload-AreBytes : AreBytes payload
payload-AreBytes = (omega arith, (omega arith, (omega arith, tt)))

crc32-serial_example : crc32 payload ≡ 0xFFFFFFFF - serial 0xFFFFFFFF (message_bits payload)
crc32-serial_example = crc32-serial payload payload-AreBytes

crc32_one_byte_example : crc32 (payload ++ (7 ∷ payload)) ≢ crc32 (payload ++ (8 ∷ payload))
crc32_one_byte_example =
    crc32_one_byte payload payload 7 8 payload-AreBytes payload-AreBytes (omega arith) (omega arith)
      (omega arith)
