-- ===== src/System/Drains.antt =====
-- Rounds of the superloop of service/src/main.cpp in which the host is silent: the queue of the frames
-- to transmit empties.
use k230_lr2021_radio.Prelude.{
  ℕ, suc, ◌+◌, ◌-◌, ◌≡◌, ◌≤◌, inl, inr, refl, sym, ap, ◌∙◌, Bool, true, false, arith, List, [], ◌∷◌,
  length, Option, none, some, if◌then◌else◌, not, ◌&&◌, ◌||◌, leb, sub32,
}
use k230_lr2021_radio.Device.{Env, sleep_us}
use k230_lr2021_radio.Worker.State.{Worker, call, now_ms}
use k230_lr2021_radio.Worker.Calls.{terminals}
use k230_lr2021_radio.Worker.Control.{snapshot}
use k230_lr2021_radio.Worker.Thermal.Drained.{accepted}
use k230_lr2021_radio.Worker.Receive
use k230_lr2021_radio.Worker.Receive.Polls.{poll_once-IsFair}
use k230_lr2021_radio.Worker.Receive.Progress.{stuck, poll_once-Progresses}
use k230_lr2021_radio.Server.Parser.{State}
use k230_lr2021_radio.Server.Frames.{ready_frame, stats_frame}
use k230_lr2021_radio.Server.Handlers
use k230_lr2021_radio.Server.Handlers.{
  Node, with_worker, send, send_all, write_stats, maybe_emit_stats, greet, poll_input,
}
use k230_lr2021_radio.System.{Meeting, pause_us, superloop_round}

-- The queue and the terminals are left alone.
record IsIdle (n n' : Node) : Type 0 where
  queue : n'.worker.tx_q ≡ n.worker.tx_q
  told : terminals n'.worker.history ≡ terminals n.worker.history

IsIdle-refl : (n : Node) → IsIdle n n
IsIdle-refl n = record { queue = refl; told = refl }

IsIdle-trans : (l m n : Node) → IsIdle l m → IsIdle m n → IsIdle l n
IsIdle-trans l m n a b = record { queue = b.queue ∙ a.queue; told = b.told ∙ a.told }

if-IsIdle : (b : Bool) (n x y : Node) → IsIdle n x → IsIdle n y → IsIdle n (if b then x else y)
if-IsIdle true n x y p q = p
if-IsIdle false n x y p q = q

send-IsIdle : (bytes : List ℕ) (n : Node) → IsIdle n (send bytes n)
send-IsIdle bytes n =
    if-IsIdle n.connected n _ n (record { queue = refl; told = refl }) (IsIdle-refl n)

send_all-IsIdle : (ws : List (List ℕ)) (n : Node) → IsIdle n (send_all ws n)
send_all-IsIdle [] n = IsIdle-refl n
send_all-IsIdle (w ∷ ws) n =
    IsIdle-trans n (send w n) _ (send-IsIdle w n) (send_all-IsIdle ws (send w n))

module _ (env : Env) where
  write_stats-IsIdle : (n : Node) → IsIdle n (write_stats env n)
  unfolding write_stats snapshot
  write_stats-IsIdle n =
      let (now, w1) = now_ms env n.worker in
      let (c, w2) = snapshot now w1 in
      let i =
        send_all-IsIdle
          (stats_frame (record c { parser_frames_killed = n.parser.parser_frames_killed }))
          (with_worker w2 n) in
      record { queue = i.queue; told = i.told }

  maybe_emit_stats-IsIdle : (force : Bool) (n : Node) → IsIdle n (maybe_emit_stats env force n)
  unfolding maybe_emit_stats
  maybe_emit_stats-IsIdle force n =
      let (now, w) = now_ms env n.worker in
      let n' = record n { last_stats_ms = now; worker = w } in
      let i = write_stats-IsIdle n' in
      if-IsIdle (force || leb 10000 (sub32 now n.last_stats_ms)) n (write_stats env n') _
        (record { queue = i.queue; told = i.told }) (record { queue = refl; told = refl })

  silent_input-IsIdle : (hung_up : Bool) (n : Node) → IsIdle n (poll_input env [] hung_up n)
  unfolding poll_input
  silent_input-IsIdle true n = record { queue = refl; told = refl }
  silent_input-IsIdle false n = maybe_emit_stats-IsIdle false n

  greet-IsIdle : (n : Node) → IsIdle n (greet env n)
  greet-IsIdle n =
      let s = send-IsIdle (ready_frame 511) n in
      let n1 = record (send (ready_frame 511) n) { ready_sent = true } in
      let (now, w) = now_ms env n1.worker in
      let i = write_stats-IsIdle (record n1 { last_stats_ms = now; worker = w }) in
      record { queue = i.queue ∙ s.queue; told = i.told ∙ s.told }

  silent_poll-IsIdle :
      (client_waits hung_up : Bool) (n : Node)
      → IsIdle n (Handlers.poll_once env client_waits [] hung_up n)
  unfolding Handlers.poll_once
  silent_poll-IsIdle client_waits hung_up n =
      let accepting = record n {
        connected = true;
        parser = record n.parser { state = State.tag; skip_remain = 0; have = 0 };
      } in
      let g = greet-IsIdle accepting in
      let p = silent_input-IsIdle hung_up (greet env accepting) in
      if-IsIdle (n.is_tcp && not n.connected) n _ _
        (if-IsIdle client_waits n _ n (record { queue = p.queue ∙ g.queue; told = p.told ∙ g.told })
          (IsIdle-refl n))
        (if-IsIdle n.connected n _ n (silent_input-IsIdle hung_up n) (IsIdle-refl n))

  -- A round in which no byte comes in.
  abbrev pub silent : Bool → Bool → ℕ → Meeting
  silent client_waits hung_up rounds = record {
    client_waits = client_waits;
    input = [];
    hung_up = hung_up;
    rounds = rounds;
  }

  -- So many rounds of silence, behind none of which the worker is stuck.
  pub data Waits : ℕ → Node → Node → Type 0 where
    ends : (n : Node) → Waits 0 n n
    waits :
        (client_waits hung_up : Bool) (rounds k : ℕ) (n n1 n2 : Node)
        → superloop_round env (silent client_waits hung_up rounds) n ≡ some n1
        → stuck n1.worker ≡ false
        → Waits k n1 n2
        → Waits (suc k) n n2

  -- A frame leaves the queue, if one is there, and none is lost from the account.
  record Shortens (n n' : Node) : Type 0 where
    shorter : length n'.worker.tx_q ≤ length n.worker.tx_q - 1
    account : accepted n'.worker ≡ accepted n.worker

  worker_turn :
      (n0 n n' : Node) (rounds : ℕ) (o : Option Worker)
      → IsIdle n0 n
      → o ≡ Receive.poll_once env rounds n.worker
      → (elim o [ none ↦ none | some w ↦ some (with_worker (call (sleep_us (pause_us w)) w) n) ])
        ≡ some n'
      → stuck n'.worker ≡ false
      → Shortens n0 n'
  worker_turn n0 n n' rounds none i polled e free = absurd cc
  worker_turn n0 n n' rounds (some w) i polled e free =
      let slept = with_worker (call (sleep_us (pause_us w)) w) n in
      let same : slept ≡ n' = cc in
      let queue = ap (λ (x : Node). x.worker.tx_q) same in
      let told = ap (λ (x : Node). terminals x.worker.history) same in
      let free' : stuck w ≡ false = ap (λ (x : Node). stuck x.worker) same ∙ free in
      let fair = poll_once-IsFair env rounds n.worker w (sym polled) in
      let fewer : length w.tx_q ≤ length n.worker.tx_q - 1 =
        elim (poll_once-Progresses env rounds n.worker w (sym polled)) [
          | inl is_stuck ↦ absurd cc
          | inr h ↦ h
        ] in
      record {
        shorter = omega (arith, fewer, ap length queue, ap length i.queue);
        account = omega (
          arith,
          fair.accounts.accounts,
          ap length queue,
          ap length told,
          ap length i.queue,
          ap length i.told,
        );
      }

  round-Shortens :
      (client_waits hung_up : Bool) (rounds : ℕ) (n n' : Node)
      → superloop_round env (silent client_waits hung_up rounds) n ≡ some n'
      → stuck n'.worker ≡ false
      → Shortens n n'
  unfolding superloop_round
  round-Shortens client_waits hung_up rounds n n' =
      let n1 = Handlers.poll_once env client_waits [] hung_up n in
      worker_turn n n1 n' rounds (Receive.poll_once env rounds n1.worker)
        (silent_poll-IsIdle client_waits hung_up n) refl

  Waits-Shortens :
      (k : ℕ) (n n' : Node)
      → Waits k n n'
      → (length n'.worker.tx_q ≤ length n.worker.tx_q - k)
        × (accepted n'.worker ≡ accepted n.worker)
  Waits-Shortens _ n _ (ends _) = (omega arith, refl)
  Waits-Shortens _ n n' (waits c h r k _ n1 _ e free more) =
      let s = round-Shortens c h r n n1 e free in
      let (shorter, account) = Waits-Shortens k n1 n' more in
      let first = s.shorter in (omega arith, account ∙ s.account)

  -- While no byte comes from the host, and no round of the superloop leaves the worker with the radio
  -- down or only receiving, in a scan or in a thermal cutoff, as many rounds as frames are queued empty
  -- the queue, and each of these frames gets its terminal: there are so many terminals more.
  pub Waits-drains :
      (k : ℕ) (n n' : Node)
      → Waits k n n'
      → length n.worker.tx_q ≤ k
      → (n'.worker.tx_q ≡ [])
        × (length (terminals n'.worker.history)
            ≡ length (terminals n.worker.history) + length n.worker.tx_q)
  Waits-drains k n n' run enough =
      let (shorter, account) = Waits-Shortens k n n' run in
      let none_left : length n'.worker.tx_q ≤ 0 = omega arith in
      (empty n'.worker.tx_q none_left, omega arith)
    where
      empty : (q : List (List ℕ)) → length q ≤ 0 → q ≡ []
      empty [] h = refl
      empty (x ∷ q) h = absurd (omega arith)
