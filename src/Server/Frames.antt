-- ===== src/Server/Frames.antt =====
-- The frames that service/src/serial_server.cpp writes to the host, each as the bytes of one
-- `writeAll` or of several in a row, and `stats::serialize` of service/src/stats.hpp.
pub mod Decoding
use Prim.Native.Char.{code}
use Prim.Native.String
use Prim.Native.String.{String}
use k230_lr2021_radio.Prelude.{
  ℕ, zero, suc, ◌+◌, ◌-◌, ◌*◌, ◌/◌, ◌%◌, ◌≡◌, Bool, true, false, List, [], ◌∷◌, ◌++◌, ltb, leb,
  if◌then◌else◌, length, take, le16, le32, ℤ, pos_part, neg_part, pos, bits_of, u8,
}
use k230_lr2021_radio.Device.{Terminal, Event, History, Line}
use k230_lr2021_radio.Worker.State.{Counters}
use k230_lr2021_radio.Worker.Control.{ConfigError, radio_not_ready, set_frequency_failed}

-- The bytes of an ASCII text.
abbrev pub codes : String → List ℕ
codes String.[] = []
codes (String.◌∷◌ c s) = code c ∷ codes s

-- `writeFrame`: the header, and the payload if there is one.
unfoldable pub frame : ℕ → List ℕ → List (List ℕ)
frame tag payload =
    (tag ∷ le16 (length payload)) ∷ (if ltb 0 (length payload) then payload ∷ [] else [])

-- `writeReady`
unfoldable pub ready_frame : ℕ → List ℕ
ready_frame max_payload = b'G' ∷ le16 max_payload

-- `writeError`: a message is cut to 64 bytes.
unfoldable pub error_frame : ℕ → List ℕ → List ℕ
error_frame number msg =
    let mlen = if ltb 64 (length msg) then 64 else length msg in
    b'E' ∷ number ∷ mlen % 256 ∷ take mlen msg

-- `writeRx`: a packet of at most 512 bytes in one write, a longer one in three.
unfoldable pub rx_frame : List ℕ → ℤ → List (List ℕ)
rx_frame pkt rssi =
    let head = b'R' ∷ le16 (length pkt) in
    let tail = le16 (bits_of 65536 rssi) in
    if leb (length pkt) 512 then (head ++ (pkt ++ tail)) ∷ [] else head ∷ pkt ∷ tail ∷ []

-- `writeDiag`
unfoldable pub diag_frame : ℕ → ℕ → List (List ℕ)
unfolding frame
diag_frame event_id val = frame b'D' (event_id ∷ (le32 val ++ (0 ∷ [])))

-- The 68 bytes of `Counters`, in memory order; three bytes are padding.
unfoldable pub serialize : Counters → List ℕ
serialize c =
    le32 c.bursts_tx
    ++ (le32 c.bursts_rx
        ++ (le32 c.packets_tx
            ++ (le32 c.packets_rx
                ++ (le32 c.crc_errors
                    ++ (le32 c.host_tx_dropped
                        ++ (c.burst_mode ∷ c.zero_25 ∷ c.pending_tx_valid ∷ c.restart_rx_pending
                            ∷ c.zero_28 ∷ 0 ∷ 0 ∷ 0 ∷ [])
                        ++ (le32 c.uptime_ms
                            ++ (le32 c.uart_ring_drops
                                ++ (le32 c.staging_overwrites
                                    ++ (le32 c.burst_id_conflicts
                                        ++ (le32 c.hw_received_packets
                                            ++ (le32 c.hw_crc_errors
                                                ++ (le32 c.hw_length_errors
                                                    ++ (le32 c.hw_crc_ok
                                                        ++ le32 c.parser_frames_killed)))))))))))))

-- `writeStats`, behind the snapshot.
unfoldable pub stats_frame : Counters → List (List ℕ)
unfolding frame serialize
stats_frame c = frame b'S' (serialize c)

-- The code of an `E` frame: the values of `radio::Terminal`.
abbrev pub code_of : Terminal → ℕ
code_of Terminal.ok = 0
code_of Terminal.busy = 4
code_of Terminal.failed = 5
code_of Terminal.dropped = 6

-- `onWorkerTerminal`
unfoldable pub terminal_frame : Terminal → List ℕ
unfolding ready_frame error_frame
terminal_frame Terminal.ok = ready_frame 511
terminal_frame Terminal.busy = error_frame 4 (codes "tx dropped")
terminal_frame Terminal.failed = error_frame 5 (codes "tx aborted")
terminal_frame Terminal.dropped = error_frame 6 (codes "tx dropped")

-- `best_rssi + 128` as a uint32_t, for the int8_t range.
abbrev pub rssi_value : ℤ → ℕ
rssi_value r = (pos_part r + 4294967296 + 128 - neg_part r) % 4294967296

-- `onWorkerScan`
unfoldable pub scan_frames : ℕ → ℕ → ℕ → ℤ → List (List ℕ)
unfolding diag_frame
scan_frames freq_hz frames consensus best_rssi =
    diag_frame 50 freq_hz
    ++ (diag_frame 51 frames ++ (diag_frame 52 consensus ++ diag_frame 53 (rssi_value best_rssi)))

-- The text of an `applyConfig` error.
abbrev pub message_of : ConfigError → List ℕ
message_of radio_not_ready = codes "radio init failed"
message_of set_frequency_failed = codes "set frequency failed"

-- What a call puts on the host's stream: the server's own writes, and those of the callbacks that
-- main.cpp wires to it.
unfoldable pub writes_of : Event → List (List ℕ)
unfolding rx_frame terminal_frame scan_frames
writes_of (Event.write_all bytes) = bytes ∷ []
writes_of (Event.on_rx_packet pkt rssi) = rx_frame pkt rssi
writes_of (Event.on_tx_terminal t) = terminal_frame t ∷ []
writes_of (Event.on_scan_result hz frames consensus rssi) = scan_frames hz frames consensus rssi
writes_of _ = []
