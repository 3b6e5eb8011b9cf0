-- ===== src/Server/Parser.antt =====
-- The byte parser of `SerialServer::pollOnce` (service/src/serial_server.cpp) and its state
-- (service/src/serial_server.hpp). Each case of the source's switch calls one handler at most, and
-- no handler touches the parser: here a case returns the call that it makes.
pub mod Buffers
pub mod Timing
pub mod Bodies
pub mod Words
pub mod Commands
pub mod Streams
pub mod Bounds
use k230_lr2021_radio.Prelude.{
  ℕ, ◌+◌, ◌-◌, ◌*◌, ◌%◌, Bool, true, false, ◌&&◌, ◌||◌, not, List, [], ◌∷◌, ◌++◌, ltb, leb, ◌==◌,
  if◌then◌else◌, join16, join32, u16, sub32, zero, suc,
}
use k230_lr2021_radio.Burst.{max_total_payload}

pub data State : Type 0 where
  tag tx_magic set_window len_lo len_hi config payload scan_count scan_body : State

-- A byte array is a function of its index; the length of the arrays is in `Bounds`.
abbrev pub Bytes : Type 0
Bytes = ℕ → ℕ

abbrev pub store : Bytes → ℕ → ℕ → Bytes
store a i b = λ j. if j == i then b else a j

-- The first `n` bytes of an array, from index `i` on.
abbrev pub slice : Bytes → ℕ → ℕ → List ℕ
slice a i zero = []
slice a i (suc n) = a i ∷ slice a (i + 1) n

-- The little-endian word at index `i`.
abbrev pub word_at : Bytes → ℕ → ℕ
word_at a i = join32 (a i) (a (i + 1)) (a (i + 2)) (a (i + 3))

-- `n` words from index `i` on.
abbrev pub words : Bytes → ℕ → ℕ → List ℕ
words a i zero = []
words a i (suc n) = word_at a i ∷ words a (i + 4) n

-- The fields of `SerialServer` that the parser uses, with the two static buffers of `pollOnce`.
pub record Parser : Type 0 where
  pub state : State
  pub tag_byte : ℕ
  pub frame_len : ℕ
  pub have : ℕ
  pub skip_remain : ℕ
  pub last_arrival_ms : ℕ
  pub parser_frames_killed : ℕ
  pub config_body : Bytes
  pub window_body : Bytes
  pub tx_buf : Bytes
  pub qbuf : Bytes
  pub scan_count : ℕ
  pub scan_have : ℕ
  pub slot_offset_ms : ℕ
  pub slot_period_ms : ℕ

-- The handler that a byte calls.
pub data Action : Type 0 where
  nothing : Action
  -- `maybeEmitStats(true)`, `handleReset()`
  stats_request reset_request : Action
  -- `writeReady(511)` behind a SET_WINDOW
  window_set : Action
  -- `writeError(0x03, "bad len")`, `writeError(0x02, "bad tx len")`
  bad_config_len bad_tx_len : Action
  -- `handleConfig(body, len)`, `handleTx(payload, len)`, `handleScanQ(count, dwell, freqs)`
  configure : List ℕ → Action
  transmit : List ℕ → Action
  scan_q : ℕ → ℕ → List ℕ → Action

-- The states in which a frame that is given up counts as killed.
abbrev pub counts_as_killed : State → Bool
counts_as_killed payload = true
counts_as_killed config = true
counts_as_killed set_window = true
counts_as_killed len_hi = true
counts_as_killed _ = false

abbrev pub is_tag : State → Bool
is_tag tag = true
is_tag _ = false

-- The idle rule: more than 100 ms after the last byte a partial frame is dropped.
unfoldable pub resync : ℕ → Parser → Parser
resync now p =
    let since_arrival = sub32 now p.last_arrival_ms in
    let p' =
      if (not (is_tag p.state) || ltb 0 p.skip_remain) && ltb 100 since_arrival
      then record p {
        parser_frames_killed =
            if counts_as_killed p.state
            then (p.parser_frames_killed + 1) % 4294967296
            else p.parser_frames_killed;
        skip_remain = 0;
        state = tag;
        have = 0;
      }
      else p in
    record p' { last_arrival_ms = now }

unfoldable pub on_tag : ℕ → Parser → Parser × Action
on_tag b p0 =
    let p = record p0 { tag_byte = b } in
    if b == b'T'
    then (record p { state = tx_magic; have = 0 }, nothing)
    else if b == b'W'
    then (record p { state = set_window; have = 0 }, nothing)
    else if b == b'C'
    then (record p { state = len_lo; have = 0 }, nothing)
    else if b == b'S'
    then (p, stats_request)
    else if b == b'Q'
    then (record p { state = scan_count; have = 0 }, nothing)
    else if b == b'X'
    then (p, reset_request)
    else (p, nothing)

unfoldable pub on_set_window : ℕ → Parser → Parser × Action
on_set_window b p0 =
    let p = record p0 { window_body = store p0.window_body p0.have b; have = p0.have + 1 } in
    if p.have == 8
    then (
      record p {
        slot_offset_ms = word_at p.window_body 0;
        slot_period_ms = word_at p.window_body 4;
        state = tag;
      },
      window_set,
    )
    else (p, nothing)

unfoldable pub on_len_hi : ℕ → Parser → Parser × Action
on_len_hi b p0 =
    let p = record p0 { frame_len = join16 p0.frame_len b } in
    if p.tag_byte == b'C'
    then (if not (p.frame_len == 15) && not (p.frame_len == 17)
        then (record p { state = tag }, bad_config_len)
        else (record p { state = config; have = 0 }, nothing))
    else if p.tag_byte == b'T'
    then (if (p.frame_len == 0) || ltb max_total_payload p.frame_len
        then (record p { skip_remain = p.frame_len; state = tag }, bad_tx_len)
        else (record p { state = payload; have = 0 }, nothing))
    else (record p { state = tag }, nothing)

unfoldable pub on_config : ℕ → Parser → Parser × Action
on_config b p0 =
    let p = record p0 { config_body = store p0.config_body p0.have b; have = p0.have + 1 } in
    if p.have == p.frame_len
    then (record p { state = tag }, configure (slice p.config_body 0 (p.frame_len % 256)))
    else (p, nothing)

unfoldable pub on_payload : ℕ → Parser → Parser × Action
on_payload b p0 =
    let p = record p0 { tx_buf = store p0.tx_buf p0.have b; have = p0.have + 1 } in
    if p.have == p.frame_len
    then (record p { state = tag }, transmit (slice p.tx_buf 0 p.frame_len))
    else (p, nothing)

unfoldable pub on_scan_body : ℕ → Parser → Parser × Action
on_scan_body b p0 =
    let p = record p0 {
      qbuf = store p0.qbuf p0.scan_have b;
      scan_have = (p0.scan_have + 1) % 256;
    } in
    if p.scan_have == 4 + p.scan_count * 4
    then (
      record p { state = tag },
      scan_q p.scan_count (word_at p.qbuf 0) (words p.qbuf 4 p.scan_count),
    )
    else (p, nothing)

-- The switch.
unfoldable pub on_state : State → ℕ → Parser → Parser × Action
unfolding on_tag on_set_window on_len_hi on_config on_payload on_scan_body
on_state tag b p = on_tag b p
on_state tx_magic b p =
    if not (b == b'X')
    then (record p { state = tag }, nothing)
    else (record p { state = len_lo }, nothing)
on_state set_window b p = on_set_window b p
on_state len_lo b p = (record p { frame_len = b; state = len_hi }, nothing)
on_state len_hi b p = on_len_hi b p
on_state config b p = on_config b p
on_state payload b p = on_payload b p
on_state scan_count b p = (
  record p {
    scan_count = b;
    scan_have = 0;
    state = if leb 1 b && leb b 16 then scan_body else tag;
  },
  nothing,
)
on_state scan_body b p = on_scan_body b p

-- One byte behind the idle rule. The Boolean says whether the loop went through the switch, behind
-- which it looks at the statistics; a skipped byte goes round at once.
unfoldable pub take_byte : ℕ → Parser → Parser × Action × Bool
take_byte b p =
    if ltb 0 p.skip_remain
    then (record p { skip_remain = p.skip_remain - 1 }, nothing, false)
    else (let (p', action) = on_state p.state b p in (p', action, true))

-- One byte that arrives at `now`.
unfoldable pub on_byte : ℕ → ℕ → Parser → Parser × Action × Bool
unfolding take_byte
on_byte now b p = take_byte b (resync now p)
