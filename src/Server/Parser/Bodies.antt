-- ===== src/Server/Parser/Bodies.antt =====
-- The bodies of the frames: bytes that come in time fill the buffer, and the last one makes the call.
use k230_lr2021_radio.Prelude.{
  ℕ, suc, ◌+◌, ◌*◌, ◌%◌, ◌≡◌, refl, ap, ◌∙◌, ◌≤◌, ◌<◌, List, [], ◌∷◌, ◌++◌, arith, length,
  append_assoc,
}
use k230_lr2021_radio.Server.Parser.{
  Parser, State, Action, nothing, configure, transmit, scan_q, window_set, on_state, store, slice,
  words, word_at,
}
use k230_lr2021_radio.Server.Parser.Buffers.{slice-store_end}
use k230_lr2021_radio.Server.Parser.Timing.{
  IsIn, IsIdle, IsPrompt, Makes, Makes-step, Makes-end, feed, emit, on_byte_in,
}

-- The parser `q` behind a body byte that came at `now` and was not the last one.
pub record GoesOn (s : State) (now : ℕ) (p q : Parser) : Type 0 where
  pub state : q.state ≡ s
  pub skip : q.skip_remain ≡ 0
  pub arrival : q.last_arrival_ms ≡ now
  pub none_killed : q.parser_frames_killed ≡ p.parser_frames_killed

-- A body in state `s` that ends in `call`, by an invariant `P rest p` over the bytes still to come.
module _ (times : ℕ → ℕ) (prompt : IsPrompt times) (s : State) (call : Action)
    (P : List ℕ → Parser → Type 0)
    (more : (b y : ℕ) (ys : List ℕ) (now : ℕ) (p : Parser)
      → IsIn s now p
      → P (b ∷ y ∷ ys) p
      → (q : Parser) × (on_state s b (record p { last_arrival_ms = now }) ≡ (q, nothing))
        × GoesOn s now p q
        × P (y ∷ ys) q)
    (last : (b now : ℕ) (p : Parser)
      → IsIn s now p
      → P (b ∷ []) p
      → (q : Parser) × (on_state s b (record p { last_arrival_ms = now }) ≡ (q, call))
        × IsIdle q
        × (q.parser_frames_killed ≡ p.parser_frames_killed)) where
  pub body-Makes :
      (xs : List ℕ) (x i : ℕ) (p : Parser)
      → IsIn s (times i) p
      → P (x ∷ xs) p
      → Makes (emit call []) p (feed times i (x ∷ xs) p)
  body-Makes [] x i p at_body h =
      let (q, e, idle, kept) = last x (times i) p at_body h in
      Makes-step times i x [] p q call [] (on_byte_in s (times i) x p q call at_body e) kept
        (Makes-end times (suc i) q idle)
  body-Makes (y ∷ ys) x i p at_body h =
      let (q, e, on, h') = more x y ys (times i) p at_body h in
      Makes-step times i x (y ∷ ys) p q nothing (emit call [])
        (on_byte_in s (times i) x p q nothing at_body e) on.none_killed
        (body-Makes ys y (suc i) q
          (record {
            state = on.state;
            skip = on.skip;
            recent = omega (arith, prompt i, on.arrival);
          })
          h')

-- The bytes stored so far and those to come are the body, `size` bytes in all.
pub record Fills (body : List ℕ) (size have : ℕ) (stored rest : List ℕ) : Type 0 where
  pub joined : stored ++ rest ≡ body
  pub counted : have + length rest ≡ size

Fills-next :
    (body : List ℕ) (size have b : ℕ) (stored stored' rest : List ℕ)
    → stored' ≡ stored ++ (b ∷ [])
    → Fills body size have stored (b ∷ rest)
    → Fills body size (have + 1) stored' rest
Fills-next body size have b stored stored' rest e f = record {
  joined = rw (e, append_assoc) f.joined;
  counted = omega (arith, f.counted);
}

Fills-end :
    (body : List ℕ) (size have b : ℕ) (stored stored' : List ℕ)
    → stored' ≡ stored ++ (b ∷ [])
    → Fills body size have stored (b ∷ [])
    → stored' ≡ body
Fills-end body size have b stored stored' e f = e ∙ f.joined

Fills-start :
    (body : List ℕ) (size have : ℕ) (stored : ℕ → List ℕ)
    → stored 0 ≡ []
    → have ≡ 0
    → size ≡ length body
    → Fills body size have (stored have) body
Fills-start body size have stored none_stored start e = record {
  joined = ap (λ k. stored k ++ body) start ∙ ap (λ t. t ++ body) none_stored;
  counted = omega arith;
}

module _ (times : ℕ → ℕ) (prompt : IsPrompt times) where
  -- The payload of a transmit frame.
  pub payload-Makes :
      (x : ℕ) (xs : List ℕ) (i : ℕ) (p : Parser)
      → IsIn State.payload (times i) p
      → p.have ≡ 0
      → p.frame_len ≡ length (x ∷ xs)
      → Makes (transmit (x ∷ xs) ∷ []) p (feed times i (x ∷ xs) p)
  unfolding on_state
  payload-Makes x xs i p at_body start size =
      body-Makes times prompt State.payload (transmit (x ∷ xs))
        (λ rest q. Fills (x ∷ xs) q.frame_len q.have (slice q.tx_buf 0 q.have) rest)
        (λ b y ys now q inside f. (
          record q { last_arrival_ms = now; tx_buf = store q.tx_buf q.have b; have = q.have + 1 },
          ground (arith, f.counted),
          ground (arith, inside.state, inside.skip),
          Fills-next (x ∷ xs) q.frame_len q.have b (slice q.tx_buf 0 q.have) _ (y ∷ ys)
              (slice-store_end q.tx_buf q.have b (q.have + 1) refl) f,
        ))
        (λ b now q inside f.
          let q' = record q {
            last_arrival_ms = now;
            tx_buf = store q.tx_buf q.have b;
            have = q.have + 1;
            state = State.tag;
          } in
          let stored = slice (store q.tx_buf q.have b) 0 q.frame_len in
          let stops : on_state State.payload b (record q { last_arrival_ms = now })
              ≡ (q', transmit stored) =
            ground (arith, f.counted) in
          (
            q',
            stops
                ∙ ap (λ t. let out : Parser × Action = (q', transmit t) in out)
                    (Fills-end (x ∷ xs) q.frame_len q.have b (slice q.tx_buf 0 q.have) stored
                      (slice-store_end q.tx_buf q.have b q.frame_len (omega (arith, f.counted))) f),
            ground (arith, inside.skip),
            refl,
          ))
        xs x i p at_body
        (Fills-start (x ∷ xs) p.frame_len p.have (slice p.tx_buf 0) refl start size)

  -- The body of a CONFIG.
  pub config-Makes :
      (x : ℕ) (xs : List ℕ) (i : ℕ) (p : Parser)
      → IsIn State.config (times i) p
      → p.have ≡ 0
      → p.frame_len ≡ length (x ∷ xs)
      → p.frame_len < 256
      → Makes (configure (x ∷ xs) ∷ []) p (feed times i (x ∷ xs) p)
  unfolding on_state
  config-Makes x xs i p at_body start size small =
      body-Makes times prompt State.config (configure (x ∷ xs))
        (λ rest q.
          Fills (x ∷ xs) q.frame_len q.have (slice q.config_body 0 q.have) rest
          × (q.frame_len < 256))
        (λ b y ys now q inside f. (
          record q {
            last_arrival_ms = now;
            config_body = store q.config_body q.have b;
            have = q.have + 1;
          },
          ground (arith, f.0.counted),
          ground (arith, inside.state, inside.skip),
          (
            Fills-next (x ∷ xs) q.frame_len q.have b (slice q.config_body 0 q.have) _ (y ∷ ys)
                (slice-store_end q.config_body q.have b (q.have + 1) refl) f.0,
            f.1,
          ),
        ))
        (λ b now q inside f.
          let q' = record q {
            last_arrival_ms = now;
            config_body = store q.config_body q.have b;
            have = q.have + 1;
            state = State.tag;
          } in
          let stored = slice (store q.config_body q.have b) 0 (q.frame_len % 256) in
          let stops : on_state State.config b (record q { last_arrival_ms = now })
              ≡ (q', configure stored) =
            ground (arith, f.0.counted) in
          (
            q',
            stops
                ∙ ap (λ t. let out : Parser × Action = (q', configure t) in out)
                    (Fills-end (x ∷ xs) q.frame_len q.have b (slice q.config_body 0 q.have) stored
                      (slice-store_end q.config_body q.have b (q.frame_len % 256)
                        (omega (arith, f.0.counted, f.1)))
                      f.0),
            ground (arith, inside.skip),
            refl,
          ))
        xs x i p at_body
        (Fills-start (x ∷ xs) p.frame_len p.have (slice p.config_body 0) refl start size, small)

  -- The body of a SET_WINDOW, 8 bytes.
  pub window-Makes :
      (x : ℕ) (xs : List ℕ) (i : ℕ) (p : Parser)
      → IsIn State.set_window (times i) p
      → p.have ≡ 0
      → length (x ∷ xs) ≡ 8
      → Makes (window_set ∷ []) p (feed times i (x ∷ xs) p)
  unfolding on_state
  window-Makes x xs i p at_body start size =
      body-Makes times prompt State.set_window window_set (λ rest q. q.have + length rest ≡ 8)
        (λ b y ys now q inside f. (
          record q {
            last_arrival_ms = now;
            window_body = store q.window_body q.have b;
            have = q.have + 1;
          },
          ground arith,
          ground (arith, inside.state, inside.skip),
          omega arith,
        ))
        (λ b now q inside f.
          let a = store q.window_body q.have b in
          (
            record q {
              last_arrival_ms = now;
              window_body = a;
              have = q.have + 1;
              slot_offset_ms = word_at a 0;
              slot_period_ms = word_at a 4;
              state = State.tag;
            },
            ground arith,
            ground (arith, inside.skip),
            refl,
          ))
        xs x i p at_body (omega arith)

  -- The body of a scan request: the dwell time and `count` frequencies.
  pub scan-Makes :
      (x : ℕ) (xs : List ℕ) (i count dwell : ℕ) (freqs : List ℕ) (p : Parser)
      → IsIn State.scan_body (times i) p
      → p.scan_have ≡ 0
      → p.scan_count ≡ count
      → count ≤ 16
      → length (x ∷ xs) ≡ 4 + count * 4
      → ((a : ℕ → ℕ)
          → slice a 0 (4 + count * 4) ≡ x ∷ xs
          → (word_at a 0 ≡ dwell) × (words a 4 count ≡ freqs))
      → Makes (scan_q count dwell freqs ∷ []) p (feed times i (x ∷ xs) p)
  unfolding on_state
  scan-Makes x xs i count dwell freqs p at_body start counted few size read =
      body-Makes times prompt State.scan_body (scan_q count dwell freqs)
        (λ rest q.
          Fills (x ∷ xs) (4 + count * 4) q.scan_have (slice q.qbuf 0 q.scan_have) rest
          × (q.scan_count ≡ count))
        (λ b y ys now q inside f.
          let next : (q.scan_have + 1) % 256 ≡ q.scan_have + 1 = omega (arith, f.0.counted) in
          (
            record q {
              last_arrival_ms = now;
              qbuf = store q.qbuf q.scan_have b;
              scan_have = q.scan_have + 1;
            },
            ground (arith, f.0.counted, f.1, next),
            ground (arith, inside.state, inside.skip),
            (
              Fills-next (x ∷ xs) (4 + count * 4) q.scan_have b (slice q.qbuf 0 q.scan_have) _
                  (y ∷ ys) (slice-store_end q.qbuf q.scan_have b (q.scan_have + 1) refl) f.0,
              f.1,
            ),
          ))
        (λ b now q inside f.
          let next : (q.scan_have + 1) % 256 ≡ q.scan_have + 1 = omega (arith, f.0.counted) in
          let a = store q.qbuf q.scan_have b in
          let q' = record q {
            last_arrival_ms = now;
            qbuf = a;
            scan_have = q.scan_have + 1;
            state = State.tag;
          } in
          let whole = read a (
            Fills-end (x ∷ xs) (4 + count * 4) q.scan_have b (slice q.qbuf 0 q.scan_have)
              (slice a 0 (4 + count * 4))
              (slice-store_end q.qbuf q.scan_have b (4 + count * 4) (omega (arith, f.0.counted)))
              f.0) in
          let stops : on_state State.scan_body b (record q { last_arrival_ms = now })
              ≡ (q', scan_q q.scan_count (word_at a 0) (words a 4 q.scan_count)) =
            ground (arith, f.0.counted, f.1, next) in
          (q', stops ∙ rw (f.1, whole.0, whole.1), ground (arith, inside.skip), refl))
        xs x i p at_body
        (
          Fills-start (x ∷ xs) (4 + count * 4) p.scan_have (slice p.qbuf 0) refl start
              (omega arith),
          counted,
        )
