-- ===== src/Server/Frames/Decoding.antt =====
-- The host's side of docs/protocol.md, 2: a reader of frames.
use k230_lr2021_radio.Prelude.{
  ℕ, zero, suc, ◌-◌, ◌%◌, ◌≡◌, refl, ap, sym, ◌∙◌, ◌≤◌, ◌<◌, true, List, [], ◌∷◌, ◌++◌, Option,
  none, some, ltb, leb, ◌==◌, if◌then◌else◌, length, take_all, le16, ℤ, pos, negsuc, bits_of,
  join16, join32, join16-bytes, join32-bytes, arith, append_assoc, append-nil, Bool-cases, inl, inr,
}
use k230_lr2021_radio.Worker.State.{Counters}
use k230_lr2021_radio.Server.Frames.{
  frame, ready_frame, error_frame, rx_frame, diag_frame, serialize,
}

pub data Frame : Type 0 where
  ready : ℕ → Frame
  error : ℕ → List ℕ → Frame
  rx : List ℕ → ℤ → Frame
  stats : List ℕ → Frame
  diag : ℕ → ℕ → Frame

-- The writes of one frame, one after the other.
abbrev pub joined : List (List ℕ) → List ℕ
joined [] = []
joined (w ∷ ws) = w ++ joined ws

-- What the device writes for a frame.
abbrev pub written : Frame → List ℕ
written (ready max_payload) = ready_frame max_payload
written (error number msg) = error_frame number msg
written (rx pkt rssi) = joined (rx_frame pkt rssi)
written (stats body) = joined (frame b'S' body)
written (diag event_id val) = joined (diag_frame event_id val)

-- The ranges of the fields.
abbrev pub FitsFrame : Frame → Type 0
FitsFrame (ready max_payload) = max_payload < 65536
FitsFrame (error number msg) = length msg ≤ 64
FitsFrame (rx pkt (pos n)) = (length pkt < 65536) × (n < 32768)
FitsFrame (rx pkt (negsuc n)) = (length pkt < 65536) × (n < 32768)
FitsFrame (stats body) = length body ≡ 68
FitsFrame (diag event_id val) = val < 4294967296

abbrev pub split_at : ℕ → List ℕ → Option (List ℕ × List ℕ)
split_at zero xs = some ([], xs)
split_at (suc n) [] = none
split_at (suc n) (x ∷ xs) = elim (split_at n xs) [ none ↦ none | some (ys, zs) ↦ some (x ∷ ys, zs) ]

-- The number that an int16_t of this bit pattern stands for.
abbrev pub int16 : ℕ → ℤ
int16 w = if ltb w 32768 then pos w else negsuc (65535 - w)

abbrev read_rssi : List ℕ → List ℕ → Option (Frame × List ℕ)
read_rssi pkt (lo ∷ hi ∷ rest) = some (rx pkt (int16 (join16 lo hi)), rest)
read_rssi pkt _ = none

abbrev read_body : ℕ → ℕ → List ℕ → Option (Frame × List ℕ)
read_body tag len rest = elim (split_at len rest) [
  | none ↦ none
  | some (body, rest') ↦
      if tag == b'R'
      then read_rssi body rest'
      else if len == 68
      then some (stats body, rest')
      else none
]

abbrev read_error : ℕ → ℕ → List ℕ → Option (Frame × List ℕ)
read_error number mlen rest = elim (split_at mlen rest) [
  | none ↦ none
  | some (msg, rest') ↦ some (error number msg, rest')
]

abbrev read_diag : ℕ → List ℕ → Option (Frame × List ℕ)
read_diag len (event_id ∷ b0 ∷ b1 ∷ b2 ∷ b3 ∷ pad ∷ rest) =
    if len == 6 then some (diag event_id (join32 b0 b1 b2 b3), rest) else none
read_diag len _ = none

-- One frame off the front of the stream. The two bytes behind the tag are a length, or the code and
-- the length of an error.
unfoldable pub read_frame : List ℕ → Option (Frame × List ℕ)
read_frame (tag ∷ x ∷ y ∷ rest) =
    if tag == b'G'
    then some (ready (join16 x y), rest)
    else if tag == b'E'
    then read_error x y rest
    else if tag == b'D'
    then read_diag (join16 x y) rest
    else if (tag == b'R')
    then read_body tag (join16 x y) rest
    else if (tag == b'S')
    then read_body tag (join16 x y) rest
    else none
read_frame _ = none

split_at-append : (xs ys : List ℕ) (n : ℕ) → n ≡ length xs → split_at n (xs ++ ys) ≡ some (xs, ys)
split_at-append [] ys zero e = refl
split_at-append [] ys (suc n) e = absurd (omega arith)
split_at-append (x ∷ xs) ys zero e = absurd (omega arith)
split_at-append (x ∷ xs) ys (suc n) e = ground (arith, split_at-append xs ys n)

int16-bits : (r : ℤ) (pkt : List ℕ) → FitsFrame (rx pkt r) → int16 (bits_of 65536 r) ≡ r
int16-bits (pos n) pkt h = ground arith
int16-bits (negsuc n) pkt h = ground arith

-- A packet and its RSSI are written in one piece or in three, with the same bytes.
rx_frame-joined :
    (pkt : List ℕ) (rssi : ℤ)
    → joined (rx_frame pkt rssi) ≡ b'R' ∷ (le16 (length pkt) ++ (pkt ++ le16 (bits_of 65536 rssi)))
unfolding rx_frame
rx_frame-joined pkt rssi = elim (Bool-cases (leb (length pkt) 512)) [
  | inl short ↦
      rw short (append-nil (b'R' ∷ (le16 (length pkt) ++ (pkt ++ le16 (bits_of 65536 rssi)))))
  | inr long ↦ rw long refl
]

frame-joined :
    (tag : ℕ) (payload : List ℕ)
    → joined (frame tag payload) ≡ tag ∷ (le16 (length payload) ++ payload)
unfolding frame
frame-joined tag [] = refl
frame-joined tag (x ∷ xs) =
    let some_bytes : ltb 0 (suc (length xs)) ≡ true = ground arith in
    rw some_bytes (append-nil (tag ∷ (le16 (length (x ∷ xs)) ++ (x ∷ xs))))

error_frame_short :
    (number : ℕ) (msg : List ℕ)
    → length msg ≤ 64
    → error_frame number msg ≡ b'E' ∷ number ∷ length msg ∷ msg
unfolding error_frame
error_frame_short number msg h =
    let whole : (if ltb 64 (length msg) then 64 else length msg) ≡ length msg = ground arith in
    let byte : length msg % 256 ≡ length msg = omega arith in
    rw (whole, byte, take_all msg (length msg) (omega arith))

bits-lt : (r : ℤ) (pkt : List ℕ) → FitsFrame (rx pkt r) → bits_of 65536 r < 65536
bits-lt (pos n) pkt h = omega arith
bits-lt (negsuc n) pkt h = omega arith

rx-length : (r : ℤ) (pkt : List ℕ) → FitsFrame (rx pkt r) → length pkt < 65536
rx-length (pos n) pkt h = h.0
rx-length (negsuc n) pkt h = h.0

read_body_rx :
    (pkt rest : List ℕ) (rssi : ℤ)
    → FitsFrame (rx pkt rssi)
    → read_body b'R' (length pkt) ((pkt ++ le16 (bits_of 65536 rssi)) ++ rest)
      ≡ some (rx pkt rssi, rest)
read_body_rx pkt rest rssi h =
    rw
      (
        append_assoc,
        split_at-append pkt (le16 (bits_of 65536 rssi) ++ rest) (length pkt) refl,
        read_body,
      )
      (ap (λ t. let out : Option (Frame × List ℕ) = some (rx pkt t, rest) in out)
        (ap int16 (join16-bytes (bits_of 65536 rssi) (bits-lt rssi pkt h)) ∙ int16-bits rssi pkt h))

read_body_stats :
    (body rest : List ℕ)
    → length body ≡ 68
    → read_body b'S' 68 (body ++ rest) ≡ some (stats body, rest)
read_body_stats body rest h = rw (split_at-append body rest 68 (sym h), read_body)

read_error_lem :
    (number : ℕ) (msg rest : List ℕ)
    → read_error number (length msg) (msg ++ rest) ≡ some (error number msg, rest)
read_error_lem number msg rest = rw (split_at-append msg rest (length msg) refl, read_error)

read_diag_lem :
    (event_id val : ℕ) (rest : List ℕ)
    → val < 4294967296
    → read_frame (joined (diag_frame event_id val) ++ rest) ≡ some (diag event_id val, rest)
unfolding read_frame diag_frame
read_diag_lem event_id val rest h =
    let six : join16 6 0 ≡ 6 = join16-bytes 6 (omega arith) in
    rw six (
      ap (λ t. let out : Option (Frame × List ℕ) = some (diag event_id t, rest) in out)
        (join32-bytes val h))

read_stats_lem :
    (body rest : List ℕ)
    → length body ≡ 68
    → read_frame (b'S' ∷ (le16 (length body) ++ body) ++ rest) ≡ some (stats body, rest)
unfolding read_frame
read_stats_lem body rest h =
    let size : join16 68 0 ≡ 68 = join16-bytes 68 (omega arith) in
    rw (h, size) (read_body_stats body rest h)

-- The host reads back every frame that the device writes, whatever follows it on the stream: the
-- frame's fields, and the rest of the stream untouched.
pub read-written :
    (f : Frame) (rest : List ℕ) → FitsFrame f → read_frame (written f ++ rest) ≡ some (f, rest)
unfolding read_frame ready_frame
read-written (ready m) rest h =
    ap (λ t. let out : Option (Frame × List ℕ) = some (ready t, rest) in out) (join16-bytes m h)
read-written (error number msg) rest h =
    rw (error_frame_short number msg h) (read_error_lem number msg rest)
read-written (rx pkt rssi) rest h =
    rw (rx_frame-joined pkt rssi, join16-bytes (length pkt) (rx-length rssi pkt h))
      (read_body_rx pkt rest rssi h)
read-written (stats body) rest h = rw (frame-joined b'S' body) (read_stats_lem body rest h)
read-written (diag event_id val) rest h = read_diag_lem event_id val rest h

-- The statistics body is 68 bytes.
pub length-serialize : (c : Counters) → length (serialize c) ≡ 68
unfolding serialize
length-serialize c = refl

abbrev pub AllFit : List Frame → Type 0
AllFit [] = Unit {0}
AllFit (f ∷ fs) = FitsFrame f × AllFit fs

abbrev pub all_written : List Frame → List ℕ
all_written [] = []
all_written (f ∷ fs) = written f ++ all_written fs

-- A run of the reader over a stream, `n` frames long.
unfoldable pub read_frames : ℕ → List ℕ → Option (List Frame × List ℕ)
read_frames zero s = some ([], s)
read_frames (suc n) s = elim (read_frame s) [
  | none ↦ none
  | some (f, rest) ↦ elim (read_frames n rest) [ none ↦ none | some (fs, s') ↦ some (f ∷ fs, s') ]
]

read_frames_step :
    (f : Frame) (fs : List Frame) (n : ℕ) (s s' s'' : List ℕ)
    → read_frame s ≡ some (f, s')
    → read_frames n s' ≡ some (fs, s'')
    → read_frames (suc n) s ≡ some (f ∷ fs, s'')
unfolding read_frames
read_frames_step f fs n s s' s'' e e' = ground (arith, e, e')

-- A stream of frames whose fields are in their ranges is read back as it was written, whatever
-- follows it.
pub read-all_written :
    (fs : List Frame) (rest : List ℕ)
    → AllFit fs
    → read_frames (length fs) (all_written fs ++ rest) ≡ some (fs, rest)
unfolding read_frames
read-all_written [] rest h = refl
read-all_written (f ∷ fs) rest h = rw append_assoc (
    read_frames_step f fs (length fs) (written f ++ (all_written fs ++ rest))
      (all_written fs ++ rest) rest (read-written f (all_written fs ++ rest) h.0)
      (read-all_written fs rest h.1))
