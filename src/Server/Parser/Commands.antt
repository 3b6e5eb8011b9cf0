-- ===== src/Server/Parser/Commands.antt =====
-- The host's commands (docs/protocol.md, 1), as bytes, and what the parser makes of each.
use k230_lr2021_radio.Prelude.{
  ℕ, suc, ◌/◌, ◌%◌, ◌≡◌, refl, ◌≤◌, ◌<◌, ◌⊎◌, List, [], ◌∷◌, ◌++◌, arith, length, join16, le16,
  le32, join16-bytes,
}
use k230_lr2021_radio.Burst.{max_total_payload}
use k230_lr2021_radio.Server.Parser.{
  Parser, State, Action, stats_request, reset_request, window_set, configure, transmit, scan_q,
  on_state,
}
use k230_lr2021_radio.Server.Parser.Timing.{
  IsIdle, IsPrompt, Makes, Makes-step, Makes-end, feed, on_byte_first, first, then_, next-IsIn,
}
use k230_lr2021_radio.Server.Parser.Words.{le32s, AreWords, length-le32s, read_scan}
use k230_lr2021_radio.Server.Parser.Bodies.{payload-Makes, config-Makes, window-Makes, scan-Makes}

pub data Command : Type 0 where
  tx : List ℕ → Command
  set_config : List ℕ → Command
  window : List ℕ → Command
  stats : Command
  scan : ℕ → List ℕ → Command
  reset : Command

abbrev pub encode : Command → List ℕ
encode (tx payload) = b'T' ∷ b'X' ∷ (le16 (length payload) ++ payload)
encode (set_config body) = b'C' ∷ (le16 (length body) ++ body)
encode (window body) = b'W' ∷ body
encode stats = b'S' ∷ []
encode (scan dwell freqs) = b'Q' ∷ length freqs ∷ (le32 dwell ++ le32s freqs)
encode reset = b'X' ∷ []

-- The limits that the protocol sets to a command.
abbrev pub IsSendable : Command → Type 0
IsSendable (tx payload) = (0 < length payload) × (length payload ≤ max_total_payload)
IsSendable (set_config body) = (length body ≡ 15) ⊎ (length body ≡ 17)
IsSendable (window body) = length body ≡ 8
IsSendable stats = Unit {0}
IsSendable (scan dwell freqs) =
    (0 < length freqs) × (length freqs ≤ 16) × (dwell < 4294967296) × AreWords freqs
IsSendable reset = Unit {0}

-- The handler that a command is for.
abbrev pub call_of : Command → Action
call_of (tx payload) = transmit payload
call_of (set_config body) = configure body
call_of (window body) = window_set
call_of stats = stats_request
call_of (scan dwell freqs) = scan_q (length freqs) dwell freqs
call_of reset = reset_request

module _ (times : ℕ → ℕ) (prompt : IsPrompt times) where
  tx-Makes :
      (x : ℕ) (xs : List ℕ) (i : ℕ) (p : Parser)
      → IsIdle p
      → length (x ∷ xs) ≤ max_total_payload
      → Makes (transmit (x ∷ xs) ∷ []) p (feed times i (encode (tx (x ∷ xs))) p)
  unfolding on_state
  tx-Makes x xs i p idle small =
      let n = length (x ∷ xs) in
      let p1 = record p {
        last_arrival_ms = times i;
        tag_byte = b'T';
        state = State.tx_magic;
        have = 0;
      } in
      let p2 = record p1 { last_arrival_ms = times (suc i); state = State.len_lo } in
      let p3 = record p2 {
        last_arrival_ms = times (suc (suc i));
        frame_len = n % 256;
        state = State.len_hi;
      } in
      let p4 = record p3 {
        last_arrival_ms = times (suc (suc (suc i)));
        frame_len = n;
        state = State.payload;
      } in
      let word : join16 (n % 256) (n / 256 % 256) ≡ n = join16-bytes n (omega arith) in
      first times prompt i b'T' _ p p1 _ idle refl refl (
        then_ times prompt State.tx_magic i b'X' _ p1 p2 _
          (next-IsIn times prompt State.tx_magic i p1 refl idle.skip refl) refl refl
          (then_ times prompt State.len_lo (suc i) (n % 256) _ p2 p3 _
            (next-IsIn times prompt State.len_lo (suc i) p2 refl idle.skip refl) refl refl
            (then_ times prompt State.len_hi (suc (suc i)) (n / 256 % 256) _ p3 p4 _
              (next-IsIn times prompt State.len_hi (suc (suc i)) p3 refl idle.skip refl)
              (ground (arith, word)) refl
              (payload-Makes times prompt x xs (suc (suc (suc (suc i)))) p4
                (next-IsIn times prompt State.payload (suc (suc (suc i))) p4 refl idle.skip refl)
                refl refl))))

  config-command-Makes :
      (x : ℕ) (xs : List ℕ) (i : ℕ) (p : Parser)
      → IsIdle p
      → (length (x ∷ xs) ≡ 15) ⊎ (length (x ∷ xs) ≡ 17)
      → Makes (configure (x ∷ xs) ∷ []) p (feed times i (encode (set_config (x ∷ xs))) p)
  unfolding on_state
  config-command-Makes x xs i p idle size =
      let n = length (x ∷ xs) in
      let p1 = record p {
        last_arrival_ms = times i;
        tag_byte = b'C';
        state = State.len_lo;
        have = 0;
      } in
      let p2 = record p1 {
        last_arrival_ms = times (suc i);
        frame_len = n % 256;
        state = State.len_hi;
      } in
      let p3 = record p2 {
        last_arrival_ms = times (suc (suc i));
        frame_len = n;
        state = State.config;
      } in
      let small : n < 256 = ground arith in
      let word : join16 (n % 256) (n / 256 % 256) ≡ n = join16-bytes n (omega arith) in
      first times prompt i b'C' _ p p1 _ idle refl refl (
        then_ times prompt State.len_lo i (n % 256) _ p1 p2 _
          (next-IsIn times prompt State.len_lo i p1 refl idle.skip refl) refl refl
          (then_ times prompt State.len_hi (suc i) (n / 256 % 256) _ p2 p3 _
            (next-IsIn times prompt State.len_hi (suc i) p2 refl idle.skip refl)
            (ground (arith, word, size)) refl
            (config-Makes times prompt x xs (suc (suc (suc i))) p3
              (next-IsIn times prompt State.config (suc (suc i)) p3 refl idle.skip refl) refl refl
              small)))

  window-command-Makes :
      (x : ℕ) (xs : List ℕ) (i : ℕ) (p : Parser)
      → IsIdle p
      → length (x ∷ xs) ≡ 8
      → Makes (window_set ∷ []) p (feed times i (encode (window (x ∷ xs))) p)
  unfolding on_state
  window-command-Makes x xs i p idle size =
      let p1 = record p {
        last_arrival_ms = times i;
        tag_byte = b'W';
        state = State.set_window;
        have = 0;
      } in
      first times prompt i b'W' _ p p1 _ idle refl refl (
        window-Makes times prompt x xs (suc i) p1
          (next-IsIn times prompt State.set_window i p1 refl idle.skip refl) refl size)

  scan-command-Makes :
      (dwell f : ℕ) (fs : List ℕ) (i : ℕ) (p : Parser)
      → IsIdle p
      → IsSendable (scan dwell (f ∷ fs))
      → Makes (call_of (scan dwell (f ∷ fs)) ∷ []) p (feed times i (encode (scan dwell (f ∷ fs))) p)
  unfolding on_state
  scan-command-Makes dwell f fs i p idle h =
      let n = length (f ∷ fs) in
      let p1 = record p {
        last_arrival_ms = times i;
        tag_byte = b'Q';
        state = State.scan_count;
        have = 0;
      } in
      let p2 = record p1 {
        last_arrival_ms = times (suc i);
        scan_count = n;
        scan_have = 0;
        state = State.scan_body;
      } in
      first times prompt i b'Q' _ p p1 _ idle refl refl (
        then_ times prompt State.scan_count i n _ p1 p2 _
          (next-IsIn times prompt State.scan_count i p1 refl idle.skip refl) (ground (arith, h.1))
          refl
          (scan-Makes times prompt (dwell % 256) _ (suc (suc i)) n dwell (f ∷ fs) p2
            (next-IsIn times prompt State.scan_body (suc i) p2 refl idle.skip refl) refl refl h.1
            (omega (arith, length-le32s (f ∷ fs))) (λ a e. read_scan a dwell (f ∷ fs) h.2 h.3 e)))

  -- A command within the protocol's limits, sent between frames with no gap of over 100 ms, makes
  -- one call, that of its handler with its own body, and leaves the parser between frames.
  pub command-Makes :
      (c : Command) (i : ℕ) (p : Parser)
      → IsIdle p
      → IsSendable c
      → Makes (call_of c ∷ []) p (feed times i (encode c) p)
  unfolding on_state
  command-Makes (tx []) i p idle h = absurd (omega (arith, h.0))
  command-Makes (tx (x ∷ xs)) i p idle h = tx-Makes x xs i p idle h.1
  command-Makes (set_config []) i p idle h = absurd (omega (arith, h))
  command-Makes (set_config (x ∷ xs)) i p idle h = config-command-Makes x xs i p idle h
  command-Makes (window []) i p idle h = absurd (omega (arith, h))
  command-Makes (window (x ∷ xs)) i p idle h = window-command-Makes x xs i p idle h
  command-Makes stats i p idle h =
      let p1 = record p { last_arrival_ms = times i; tag_byte = b'S' } in
      Makes-step times i b'S' [] p p1 stats_request []
        (on_byte_first (times i) b'S' p p1 stats_request idle (ground (arith, idle.state))) refl
        (Makes-end times (suc i) p1 (ground (arith, idle.state, idle.skip)))
  command-Makes (scan dwell []) i p idle h = absurd (omega (arith, h.0))
  command-Makes (scan dwell (f ∷ fs)) i p idle h = scan-command-Makes dwell f fs i p idle h
  command-Makes reset i p idle h =
      let p1 = record p { last_arrival_ms = times i; tag_byte = b'X' } in
      Makes-step times i b'X' [] p p1 reset_request []
        (on_byte_first (times i) b'X' p p1 reset_request idle (ground (arith, idle.state))) refl
        (Makes-end times (suc i) p1 (ground (arith, idle.state, idle.skip)))
