-- ===== src/Server/Exchange/Framing.antt =====
-- The answers of service/src/serial_server.cpp over IPC, as the host reads them.
use Prim.{tt}
use k230_lr2021_radio.Prelude.{
  ℕ, ◌≡◌, ◌<◌, refl, sym, ap, ◌∙◌, Bool, true, false, List, [], ◌∷◌, ◌++◌, map, arith, length, u32,
  ltb, leb, sub32, ◌==◌, ◌||◌, Option, none, some, append-nil,
}
use k230_lr2021_radio.Device.{Env, Terminal, read_clock}
use k230_lr2021_radio.Worker.State.{call, now_ms}
use k230_lr2021_radio.Worker.Control.{
  ConfigError, radio_not_ready, set_frequency_failed, apply_config, start_scan, enqueue_tx,
  snapshot,
}
use k230_lr2021_radio.Server.Parser.{
  Bytes, Action, nothing, stats_request, reset_request, window_set, bad_config_len, bad_tx_len,
  configure, transmit, scan_q,
}
use k230_lr2021_radio.Server.Parser.Timing.{IsPrompt, IsIdle}
use k230_lr2021_radio.Server.Parser.Commands.{Command, call_of}
use k230_lr2021_radio.Server.Parser.Streams.{stream, AllSendable}
use k230_lr2021_radio.Server.Frames.{diag_frame, stats_frame, serialize, codes, message_of}
use k230_lr2021_radio.Server.Frames.Decoding.{
  Frame, diag, stats, AllFit, all_written, length-serialize, read_frames, read-all_written,
}
use k230_lr2021_radio.Server.Ipc.{r2v_base, v2r_base}
use k230_lr2021_radio.Server.Ipc.Fifo.{head_of, contents, IsFlat}
use k230_lr2021_radio.Server.Ipc.Reads.{waiting}
use k230_lr2021_radio.Server.Handlers.{
  Node, with_worker, send_all, answer_config, answer_tx, handle_tx, handle_config, handle_scan_q,
  write_stats, maybe_emit_stats, perform, poll_input, parse_config, radio_config, scan_params,
}
use k230_lr2021_radio.Server.Handlers.Stays.{maybe_emit_stats-Stays, perform-Stays}
use k230_lr2021_radio.Server.Handlers.Serves.{
  Serves, over, hangs_up, takes, looks_at_stats, performs, arrivals,
}
use k230_lr2021_radio.Server.Exchange.{poll_ring}
use k230_lr2021_radio.Server.Exchange.Histories.{
  there, then_call, enqueue_tx-GoesOn, apply_config-GoesOn, start_scan-GoesOn,
}
use k230_lr2021_radio.Server.Exchange.Publishing.{said, HasRoom}
use k230_lr2021_radio.Server.Exchange.Speaks.{
  Speaks, silent-Speaks, Speaks-trans, if-Speaks, tells, ready-Speaks, error-Speaks,
}
use k230_lr2021_radio.Server.Exchange.Polls.{poll_ring-stream}

answer_config-Speaks :
    (err : Option ConfigError) (n : Node) → n.connected ≡ true → Speaks n (answer_config err n)
answer_config-Speaks none n on = ready-Speaks n on
answer_config-Speaks (some radio_not_ready) n on =
    error-Speaks 0x03 (message_of radio_not_ready) n (omega arith) on
answer_config-Speaks (some set_frequency_failed) n on =
    error-Speaks 0x03 (message_of set_frequency_failed) n (omega arith) on

taken-Speaks :
    (len : ℕ) (n : Node) → n.connected ≡ true → Speaks n (send_all (diag_frame 47 (u32 len)) n)
taken-Speaks len n on = tells (diag 47 (u32 len)) (diag_frame 47 (u32 len)) n (omega arith) refl on

answer_tx-Speaks :
    (len : ℕ) (t : Terminal) (n : Node) → n.connected ≡ true → Speaks n (answer_tx len t n)
answer_tx-Speaks len Terminal.busy n on =
    error-Speaks 0x04 (codes "tx queue full") n (omega arith) on
answer_tx-Speaks len Terminal.ok n on = taken-Speaks len n on
answer_tx-Speaks len Terminal.failed n on = taken-Speaks len n on
answer_tx-Speaks len Terminal.dropped n on = taken-Speaks len n on

handle_tx-Speaks :
    (payload : List ℕ) (n : Node) → n.connected ≡ true → Speaks n (handle_tx payload n)
unfolding handle_tx
handle_tx-Speaks payload n on =
    let (t, w) = enqueue_tx payload n.worker in
    Speaks-trans n (with_worker w n) (handle_tx payload n)
      (silent-Speaks n (with_worker w n) (enqueue_tx-GoesOn payload n.worker))
      (answer_tx-Speaks (length payload) t (with_worker w n) on)

module _ (env : Env) where
  write_stats-Speaks : (n : Node) → n.connected ≡ true → Speaks n (write_stats env n)
  unfolding write_stats stats_frame snapshot
  write_stats-Speaks n on =
      let (now, w1) = now_ms env n.worker in
      let (c, w2) = snapshot now w1 in
      let c' = record c { parser_frames_killed = n.parser.parser_frames_killed } in
      Speaks-trans n (with_worker w2 n) (write_stats env n)
        (silent-Speaks n (with_worker w2 n) (then_call read_clock n.worker.history tt there))
        (tells (stats (serialize c')) (stats_frame c') (with_worker w2 n) (length-serialize c') refl
          on)

  maybe_emit_stats-Speaks :
      (force : Bool) (n : Node) → n.connected ≡ true → Speaks n (maybe_emit_stats env force n)
  unfolding maybe_emit_stats
  maybe_emit_stats-Speaks force n on =
      let (now, w) = now_ms env n.worker in
      let n' = record n { last_stats_ms = now; worker = w } in
      let clocked = then_call read_clock n.worker.history tt there in
      if-Speaks (force || leb 10000 (sub32 now n.last_stats_ms)) n (write_stats env n')
        (with_worker w n)
        (Speaks-trans n n' (write_stats env n') (silent-Speaks n n' clocked)
          (write_stats-Speaks n' on))
        (silent-Speaks n (with_worker w n) clocked)

  handle_config-Speaks :
      (body : List ℕ) (n : Node) → n.connected ≡ true → Speaks n (handle_config env body n)
  unfolding handle_config
  handle_config-Speaks body n on =
      let c = parse_config body in
      let r = apply_config env (radio_config c) n.worker in
      let s = with_worker (start_scan env (scan_params c) n.worker) n in
      if-Speaks (c.frequency_hz == 0xFFFFFFFF) n _ _
        (Speaks-trans n s _ (silent-Speaks n s (start_scan-GoesOn env (scan_params c) n.worker))
          (ready-Speaks s on))
        (Speaks-trans n (with_worker r.1 n) (answer_config r.0 (with_worker r.1 n))
          (silent-Speaks n (with_worker r.1 n) (apply_config-GoesOn env (radio_config c) n.worker))
          (answer_config-Speaks r.0 (with_worker r.1 n) on))

  -- The one call that answers with less than a frame.
  abbrev pub IsFramed : Action → Type 0
  IsFramed reset_request = ⊥
  IsFramed _ = Unit {0}

  perform-Speaks :
      (a : Action) (n : Node) → IsFramed a → n.connected ≡ true → Speaks n (perform env a n)
  unfolding perform handle_scan_q
  perform-Speaks nothing n p on = silent-Speaks n n there
  perform-Speaks stats_request n p on = maybe_emit_stats-Speaks true n on
  perform-Speaks reset_request n p on = absurd p
  perform-Speaks window_set n p on = ready-Speaks n on
  perform-Speaks bad_config_len n p on = error-Speaks 0x03 (codes "bad len") n (omega arith) on
  perform-Speaks bad_tx_len n p on = error-Speaks 0x02 (codes "bad tx len") n (omega arith) on
  perform-Speaks (configure body) n p on = handle_config-Speaks body n on
  perform-Speaks (transmit payload) n p on = handle_tx-Speaks payload n on
  perform-Speaks (scan_q count dwell freqs) n p on =
      if-Speaks ((count == 0) || ltb 16 count) n n _ (silent-Speaks n n there)
        (silent-Speaks n _ (start_scan-GoesOn env _ n.worker))

  abbrev AllFramed : List Action → Type 0
  AllFramed [] = Unit {0}
  AllFramed (a ∷ as') = IsFramed a × AllFramed as'

  Serves-Speaks :
      (calls : List Action) (n n' : Node)
      → Serves env calls n n'
      → AllFramed calls
      → n.connected ≡ true
      → Speaks n n'
  Serves-Speaks _ n _ (over _) p on = silent-Speaks n n there
  Serves-Speaks _ n _ (hangs_up _) p on = silent-Speaks n (record n { connected = false }) there
  Serves-Speaks calls n n' (takes q _ _ _ s) p on =
      let taken = record n { parser = q; worker = call read_clock n.worker } in
      Speaks-trans n taken n'
        (silent-Speaks n taken (then_call read_clock n.worker.history tt there))
        (Serves-Speaks calls taken n' s p on)
  Serves-Speaks calls n n' (looks_at_stats _ _ _ s) p on =
      let m = maybe_emit_stats env false n in
      Speaks-trans n m n' (maybe_emit_stats-Speaks false n on)
        (Serves-Speaks calls m n' s p ((maybe_emit_stats-Stays env false n).connected ∙ on))
  Serves-Speaks _ n n' (performs a calls _ _ s) p on =
      let m = perform env a n in
      Speaks-trans n m n' (perform-Speaks a n p.0 on)
        (Serves-Speaks calls m n' s p.1 ((perform-Stays env a n).connected ∙ on))

-- No reset among the commands.
abbrev pub NoReset : List Command → Type 0
NoReset [] = Unit {0}
NoReset (Command.reset ∷ cs) = ⊥
NoReset (_ ∷ cs) = NoReset cs

calls-AllFramed : (env : Env) (cs : List Command) → NoReset cs → AllFramed env (map call_of cs)
calls-AllFramed env [] h = tt
calls-AllFramed env (Command.reset ∷ cs) h = absurd h
calls-AllFramed env (Command.tx payload ∷ cs) h = (tt, calls-AllFramed env cs h)
calls-AllFramed env (Command.set_config body ∷ cs) h = (tt, calls-AllFramed env cs h)
calls-AllFramed env (Command.window body ∷ cs) h = (tt, calls-AllFramed env cs h)
calls-AllFramed env (Command.stats ∷ cs) h = (tt, calls-AllFramed env cs h)
calls-AllFramed env (Command.scan dwell freqs ∷ cs) h = (tt, calls-AllFramed env cs h)

-- A stream of commands within the limits of the protocol, with no reset among them, is all that waits
-- in the ring from the host, and the ring to the host is empty and has room for what the node will
-- write; both have flat counts, words of 32 bits; the parser is between frames and no two bytes in a
-- row are more than 100 ms apart; the server has its connection, and nothing else touches the file.
-- Given more rounds than bytes wait, a round of `pollOnce` is over, and what it leaves in the ring to
-- the host reads as a run of whole frames, to its last byte.
pub poll_ring-frames :
    (env : Env) (fuel : ℕ) (f : Bytes) (n : Node) (cs : List Command)
    → IsFlat v2r_base f
    → head_of v2r_base f < 4294967296
    → waiting v2r_base [] f ≡ stream cs
    → length (stream cs) < fuel
    → contents r2v_base f ≡ []
    → HasRoom (length (said n (poll_input env (stream cs) false n))) f
    → n.connected ≡ true
    → IsIdle n.parser
    → AllSendable cs
    → NoReset cs
    → IsPrompt (arrivals env (stream cs) n)
    → (n' : Node) × (file : Bytes) × (fs : List Frame) × (poll_ring env fuel [] f n
        ≡ some (n', file))
      × AllFit fs
      × (read_frames (length fs) (contents r2v_base file) ≡ some (fs, []))
poll_ring-frames env fuel f n cs flat small e enough empty room on idle h no_reset prompt =
    let (n', polled, serves) =
      poll_ring-stream env fuel [] f n cs flat small e enough room idle h prompt in
    let s = Serves-Speaks env (map call_of cs) n n' serves (calls-AllFramed env cs no_reset) on in
    let held : contents r2v_base polled.file ≡ all_written s.frames ++ [] =
      polled.answered
      ∙ ap (λ q. q ++ said n n') empty
      ∙ s.spoken
      ∙ sym (append-nil (all_written s.frames)) in
    (
      n',
      polled.file,
      s.frames,
      polled.returned,
      s.fit,
      ap (read_frames (length s.frames)) held ∙ read-all_written s.frames [] s.fit,
    )
