-- ===== src/Burst/Reassembly.antt =====
-- A burst cut into packets and put together again: the receiver drops each header and joins the
-- chunks, and cuts the zeros of the last packet off by `total_payload_len` (docs/protocol.md, 3).
use native.Mathlib.Nat.{sub-zero}
use k230_lr2021_radio.Prelude.{
  ℕ, zero, suc, ◌+◌, ◌-◌, ◌*◌, ◌/◌, ◌%◌, ◌≡◌, refl, ap, ◌≤◌, ◌<◌, ◌∙◌, List, [], ◌∷◌, ◌++◌,
  append_assoc, append-nil, some, none, length, take, drop, replicate, length-append, length-take,
  length-drop, length-replicate, arith, take-append-drop, take_all, u32, ltb, if◌then◌else◌, min,
}
use k230_lr2021_radio.Burst.Headers.{decode-header_bytes, IsAccepted-header_ok}
use k230_lr2021_radio.Burst.{
  burst_header, decode_header, max_packets, chunk_len, chunk, header_bytes, encode_packet,
  encode_with_crc, crc32, chunk_len, total_packets, max_total_payload, packet_payload, header_len,
}

module _ {A : Type 0} where
  take-length_append :
      (xs ys : List A) (n k : ℕ) → k ≡ length xs + n → take k (xs ++ ys) ≡ xs ++ take n ys
  take-length_append [] ys n k e = ap (λ j. take j ys) (omega arith)
  take-length_append (x ∷ xs) ys n zero e = absurd (omega arith)
  take-length_append (x ∷ xs) ys n (suc k) e =
      ap (◌∷◌ x) (take-length_append xs ys n k (omega arith))

  drop-drop : (m n k : ℕ) (xs : List A) → k ≡ n + m → drop m (drop n xs) ≡ drop k xs
  drop-drop m zero k xs e = ap (λ j. drop j xs) {x = m} {y = k} (omega arith)
  drop-drop m (suc n) zero xs e = absurd (omega arith)
  drop-drop zero (suc n) (suc k) [] e = refl
  drop-drop (suc m) (suc n) (suc k) [] e = refl
  drop-drop m (suc n) (suc k) (x ∷ xs) e = drop-drop m n k xs (omega arith)

-- What the host makes of the packets of one burst.
abbrev pub join_chunks : List (List ℕ) → List ℕ
join_chunks [] = []
join_chunks (p ∷ ps) = drop header_len p ++ join_chunks ps

abbrev pub assemble : ℕ → List (List ℕ) → List ℕ
assemble total_len ps = take total_len (join_chunks ps)

-- The bytes of packet `idx` of a payload, behind its header.
abbrev body : ℕ → List ℕ → List ℕ
body idx payload =
    take (min chunk (length payload - idx * chunk)) (drop (idx * chunk) payload)
    ++ replicate (chunk - min chunk (length payload - idx * chunk)) 0

chunk_len_lem :
    (idx len : ℕ)
    → idx * chunk ≤ len
    → len ≤ max_total_payload
    → chunk_len idx len ≡ min chunk (len - idx * chunk)
unfolding chunk_len
chunk_len_lem idx len h k = ground arith

offset_lem :
    (idx len : ℕ) → idx * chunk ≤ len → len ≤ max_total_payload → u32 (idx * chunk) ≡ idx * chunk
offset_lem idx len h k = omega arith

length-body : (idx : ℕ) (payload : List ℕ) → length (body idx payload) ≡ chunk
length-body idx payload = omega (
  arith,
  length-append (take (min chunk (length payload - idx * chunk)) (drop (idx * chunk) payload))
      (replicate (chunk - min chunk (length payload - idx * chunk)) 0),
  length-take (min chunk (length payload - idx * chunk)) (drop (idx * chunk) payload),
  length-drop (idx * chunk) payload,
  length-replicate {A = ℕ} (chunk - min chunk (length payload - idx * chunk)) 0,
)

-- The last chunk is what is left of the payload, and zeros.
take-body_last :
    (idx : ℕ) (payload rest : List ℕ)
    → length payload ≤ (idx + 1) * chunk
    → take (length payload - idx * chunk) (body idx payload ++ rest) ≡ drop (idx * chunk) payload
take-body_last idx payload rest h =
    rw
      (
        take_all (drop (idx * chunk) payload) (min chunk (length payload - idx * chunk))
            (omega (arith, length-drop (idx * chunk) payload)),
        append_assoc,
      )
      (take-length_append (drop (idx * chunk) payload) _ 0 (length payload - idx * chunk)
          (omega (arith, length-drop (idx * chunk) payload))
        ∙ append-nil (drop (idx * chunk) payload))

-- Every other chunk is 495 bytes of the payload, and nothing else.
body_full :
    (idx : ℕ) (payload : List ℕ)
    → (idx + 1) * chunk ≤ length payload
    → body idx payload ≡ take chunk (drop (idx * chunk) payload)
body_full idx payload h =
    let size : min chunk (length payload - idx * chunk) ≡ chunk = omega arith in
    rw size (append-nil (take chunk (drop (idx * chunk) payload)))

take-body_full :
    (idx : ℕ) (payload rest : List ℕ)
    → (idx + 1) * chunk ≤ length payload
    → take (length payload - (idx + 1) * chunk) rest ≡ drop ((idx + 1) * chunk) payload
    → take (length payload - idx * chunk) (body idx payload ++ rest) ≡ drop (idx * chunk) payload
take-body_full idx payload rest h ih = rw (body_full idx payload h) (
    take-length_append (take chunk (drop (idx * chunk) payload)) rest
      (length payload - (idx + 1) * chunk) (length payload - idx * chunk)
      (omega
        (arith, length-take chunk (drop (idx * chunk) payload), length-drop (idx * chunk) payload))
    ∙ rw (ih, ← drop-drop chunk (idx * chunk) ((idx + 1) * chunk) payload (omega arith))
        (take-append-drop chunk (drop (idx * chunk) payload)))

padding_lem :
    (n : ℕ)
    → n ≤ chunk
    → (if ltb (header_len + n) packet_payload then packet_payload - header_len - n else 0)
      ≡ chunk - n
padding_lem n h = ground arith

-- The packets `idx`, `idx + 1`, ... of a burst, `n` of them.
abbrev pub packets_from : ℕ → ℕ → List ℕ → ℕ → ℕ → ℕ → List (List ℕ)
packets_from burst_id total payload crc zero idx = []
packets_from burst_id total payload crc (suc n) idx =
    encode_packet burst_id idx total payload (length payload) crc
    ∷ packets_from burst_id total payload crc n (idx + 1)

module _ (burst_id total : ℕ) (payload : List ℕ) (crc : ℕ) where
  abbrev packet : ℕ → List ℕ
  packet idx = encode_packet burst_id idx total payload (length payload) crc

  packet_shape :
      (idx : ℕ)
      → idx * chunk ≤ length payload
      → length payload ≤ max_total_payload
      → packet idx
        ≡ header_bytes (burst_header burst_id idx total (length payload) crc) ++ body idx payload
  unfolding encode_packet
  packet_shape idx h k = rw (
    chunk_len_lem idx (length payload) h k,
    padding_lem (min chunk (length payload - idx * chunk)) (omega arith),
    offset_lem idx (length payload) h k,
  )

  -- Every air packet is full size, whatever part of the payload it carries.
  pub length-encode_packet :
      (idx : ℕ)
      → idx * chunk ≤ length payload
      → length payload ≤ max_total_payload
      → length (packet idx) ≡ packet_payload
  length-encode_packet idx h k = rw (packet_shape idx h k) (omega (arith, length-body idx payload))

  -- The receiver reads the burst's header back from every packet of a burst of at most 50 packets
  -- and 1 to 24576 bytes, where the packet starts within the payload and the id and the CRC are
  -- words of their widths.
  pub decode-encode_packet :
      (idx : ℕ)
      → idx * chunk ≤ length payload
      → length payload ≤ max_total_payload
      → 0 < length payload
      → burst_id < 65536
      → idx < total
      → total ≤ max_packets
      → crc < 4294967296
      → decode_header (packet idx) ≡ some (burst_header burst_id idx total (length payload) crc)
  decode-encode_packet idx h k pos small below few word = rw (packet_shape idx h k) (
      decode-header_bytes (burst_header burst_id idx total (length payload) crc) (body idx payload)
        (omega arith)
      ∙ ap (λ b. if b then some (burst_header burst_id idx total (length payload) crc) else none)
          (IsAccepted-header_ok (burst_header burst_id idx total (length payload) crc) (record {
            marked = refl;
            some_packets = omega arith;
            few_packets = omega arith;
            some_bytes = pos;
            few_bytes = k;
            in_burst = below;
          })))

  -- Joined from packet `idx` on, the chunks are the rest of the payload and then zeros.
  take-join_chunks :
      (n idx : ℕ)
      → length payload ≤ max_total_payload
      → length payload ≤ (idx + suc n) * chunk
      → (idx + n) * chunk < length payload
      → take
          (length payload - idx * chunk)
          (join_chunks (packets_from burst_id total payload crc (suc n) idx))
        ≡ drop (idx * chunk) payload
  take-join_chunks zero idx k high more =
      rw (packet_shape idx (omega arith) k) (take-body_last idx payload [] (omega arith))
  take-join_chunks (suc n) idx k high more = rw (packet_shape idx (omega arith) k) (
      take-body_full idx payload
        (join_chunks (packets_from burst_id total payload crc (suc n) (idx + 1))) (omega arith)
        (take-join_chunks n (idx + 1) k (omega arith) (omega arith)))

  -- The packets of a burst carry its payload: joined and cut to `total_payload_len`, they are the
  -- payload, for any payload of 1 to 24576 bytes.
  pub assemble-packets :
      0 < length payload
      → length payload ≤ max_total_payload
      → assemble
          (length payload)
          (packets_from burst_id total payload crc (total_packets (length payload)) 0)
        ≡ payload
  unfolding total_packets
  assemble-packets pos k =
      go ((length payload + chunk - 1) / chunk % 65536) (omega arith) (omega arith) (omega arith)
    where
      go :
          (n : ℕ)
          → 0 < n
          → length payload ≤ n * chunk
          → n * chunk < length payload + chunk
          → assemble (length payload) (packets_from burst_id total payload crc n 0) ≡ payload
      go zero none_ high low = absurd (omega arith)
      go (suc n) _ high low = rw sub-zero at (take-join_chunks n 0 k (omega arith) (omega arith))

-- The two overloads of the encoder make the same packets of a whole payload.
encode_with_crc_lem :
    (id idx total : ℕ) (payload : List ℕ)
    → encode_with_crc id idx total payload (length payload)
      ≡ encode_packet id idx total payload (length payload) (crc32 payload)
unfolding encode_with_crc
encode_with_crc_lem id idx total payload =
    ap (λ bs. encode_packet id idx total payload (length payload) (crc32 bs))
      (take_all payload (length payload) (omega arith))
