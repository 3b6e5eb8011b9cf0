-- ===== src/System/Exchanges.antt =====
-- A round of the superloop of service/src/main.cpp over IPC, against the round over lists of bytes.
use k230_lr2021_radio.Prelude.{
  ℕ, suc, ◌+◌, ◌≡◌, ◌≤◌, ◌<◌, refl, sym, ap, subst, ◌∙◌, Bool, true, false, List, ◌++◌, arith,
  length, length-append, append_assoc, Option, none, some, not, ◌&&◌, if◌then◌else◌,
}
use k230_lr2021_radio.Device.{Env, IsClock}
use k230_lr2021_radio.Worker.State.{Worker}
use k230_lr2021_radio.Worker.Receive
use k230_lr2021_radio.Worker.Receive.{no_burst}
use k230_lr2021_radio.Worker.Receive.Endings.{FallsSilent, silent_rounds, rx_loop-Ends}
use k230_lr2021_radio.Server.Parser.{Bytes}
use k230_lr2021_radio.Server.Ipc.{r2v_base, v2r_base}
use k230_lr2021_radio.Server.Ipc.Fifo.{head_of, contents, IsFlat}
use k230_lr2021_radio.Server.Ipc.Reads.{waiting}
use k230_lr2021_radio.Server.Ipc.Starts.{IsEmpty}
use k230_lr2021_radio.Server.Handlers
use k230_lr2021_radio.Server.Handlers.{Node, with_worker, poll_input}
use k230_lr2021_radio.Server.Exchange.{poll_ring, publish_from}
use k230_lr2021_radio.Server.Exchange.Publishing.{said, HasRoom, publish_from-IsAppended}
use k230_lr2021_radio.Server.Exchange.Regions.{outside-IsSameRing}
use k230_lr2021_radio.Server.Exchange.Polls.{IsPolled, kept-IsEmpty, poll_ring-IsPolled}
use k230_lr2021_radio.System.Runs.{poll_once-returns}
use k230_lr2021_radio.System.{
  after_turn, behind_worker, behind_server, superloop_round, superloop_ring,
}

-- A round over IPC that is over: the ring from the host is empty, and the ring to the host holds what
-- was there, what the server wrote, and what the worker reported.
pub record IsExchanged (n n1 n2 : Node) (f : Bytes) (o : Option (Node × Bytes)) : Type 0 where
  pub file : Bytes
  pub returned : o ≡ some (n2, file)
  pub left : IsEmpty v2r_base file
  pub answered : contents r2v_base file ≡ contents r2v_base f ++ (said n n1 ++ said n1 n2)
  pub flat : IsFlat r2v_base file

-- A server with a client polls its input.
connected_poll :
    (tcp on : Bool) (x y n : Node)
    → on ≡ true
    → (if tcp && not on then x else if on then y else n) ≡ y
connected_poll true true x y n e = refl
connected_poll false true x y n e = refl
connected_poll tcp false x y n e = absurd cc

-- The worker's turn, behind a round of the server that is over.
worker_turn :
    (n n1 n2 : Node) (f f1 : Bytes) (o : Option Worker)
    → (elim o [ none ↦ none | some w ↦ some (after_turn n1 w) ]) ≡ some n2
    → IsExchanged n n1 n2 f (some (n2, publish_from n1 n2 f1))
    → IsExchanged n n1 n2 f (behind_worker n1 f1 o)
worker_turn n n1 n2 f f1 none e x = absurd cc
worker_turn n n1 n2 f f1 (some w) e x =
    let same : after_turn n1 w ≡ n2 = cc in
    subst (λ m. IsExchanged n n1 n2 f (some (m, publish_from n1 m f1))) (sym same) x

published :
    (n n1 n2 : Node) (f : Bytes) (o : Option (Node × Bytes)) (p : IsPolled n n1 f o)
    → HasRoom (length (said n n1) + length (said n1 n2)) f
    → IsExchanged n n1 n2 f (some (n2, publish_from n1 n2 p.file))
published n n1 n2 f o p r =
    let i = r.fits in
    let j = r.small in
    let room : HasRoom (length (said n1 n2)) p.file = record {
      flat = p.flat;
      fits = omega (arith, ap length p.answered, length-append (contents r2v_base f) (said n n1));
      small = omega (arith, p.counted);
    } in
    let a = publish_from-IsAppended n1 n2 p.file room in
    record {
      file = publish_from n1 n2 p.file;
      returned = refl;
      left = kept-IsEmpty p.file _ (outside-IsSameRing p.file _ a.outside) p.left;
      answered =
          a.holds
          ∙ ap (λ q. q ++ said n1 n2) p.answered
          ∙ append_assoc (contents r2v_base f) (said n n1) (said n1 n2);
      flat = a.flat;
    }

module _ (env : Env) where
  -- What the round of the server leaves.
  abbrev pub polled : List ℕ → Node → Node
  polled q n = poll_input env q false n

  poll_once-polled :
      (q : List ℕ) (n : Node)
      → n.connected ≡ true
      → Handlers.poll_once env false q false n ≡ polled q n
  unfolding Handlers.poll_once
  poll_once-polled q n on = connected_poll n.is_tcp n.connected n (polled q n) n on

  -- A round of the superloop over IPC does what the round over lists of bytes does. The server
  -- has its connection, both rings have flat counts, words of 32 bits, no client is to be
  -- accepted and none hangs up, and nothing else touches the file. If the round that reads the
  -- bytes which wait, in the reader's buffer and then in the ring, ends in a node, then with
  -- more rounds of the server's loop than bytes wait the one over IPC ends in the same node. The
  -- ring from the host is empty then, and the ring to the host holds what was there, what the
  -- server wrote, and what the worker reported, in this order, if there is room for it.
  pub superloop_ring-refines :
      (fuel rounds : ℕ) (pending : List ℕ) (f : Bytes) (n n2 : Node)
      → n.connected ≡ true
      → IsFlat v2r_base f
      → head_of v2r_base f < 4294967296
      → length (waiting v2r_base pending f) < fuel
      → superloop_round env
          (record {
            client_waits = false;
            input = waiting v2r_base pending f;
            hung_up = false;
            rounds = rounds;
          })
          n
        ≡ some n2
      → let n1 = poll_input env (waiting v2r_base pending f) false n in
        HasRoom (length (said n n1) + length (said n1 n2)) f
        → IsExchanged n
            (poll_input env (waiting v2r_base pending f) false n)
            n2
            f
            (superloop_ring env fuel rounds pending f n)
  unfolding superloop_ring superloop_round
  superloop_ring-refines fuel rounds pending f n n2 on flat small enough e r =
      let q = waiting v2r_base pending f in
      let n1 = poll_input env q false n in
      let i = r.fits in
      let j = r.small in
      let p =
        poll_ring-IsPolled env fuel pending f n flat small enough
          (record { flat = r.flat; fits = omega arith; small = omega arith }) in
      let turn : Node → Option Node = λ m. elim (Receive.poll_once env rounds m.worker) [
        | none ↦ none
        | some w ↦ some (after_turn m w)
      ] in
      subst (λ o. IsExchanged n n1 n2 f (behind_server env rounds o)) (sym p.returned)
        (worker_turn n n1 n2 f p.file (Receive.poll_once env rounds n1.worker)
          (sym (ap turn (poll_once-polled q n on)) ∙ e)
          (published n n1 n2 f (poll_ring env fuel pending f n) p r))

  turn_returns :
      (n1 : Node) (f1 : Bytes) (o : Option Worker)
      → (w : Worker) × (o ≡ some w)
      → (n2 : Node) × (f2 : Bytes) × (behind_worker n1 f1 o ≡ some (n2, f2))
  turn_returns n1 f1 o (w, e) =
      (after_turn n1 w, publish_from n1 (after_turn n1 w) f1, ap (behind_worker n1 f1) e)

  -- A round of the superloop over IPC ends once the radio has fallen silent: whatever bytes wait in
  -- the ring from the host, whatever the state of the service, and whatever the radio brings up to
  -- the `k`-th call, if it has no interrupt and an empty FIFO from then on, on a clock as `IsClock`
  -- describes it. The rounds given are more of the server's loop than bytes wait, and of the
  -- reception loop one for each call up to the `k`-th and those that fit into 2^32 ms. Both rings
  -- have flat counts, words of 32 bits, the ring to the host has room for what the server answers,
  -- and nothing else touches the file.
  pub superloop_ring-returns :
      (fuel rounds k : ℕ) (pending : List ℕ) (f : Bytes) (n : Node)
      → IsClock env
      → FallsSilent env k
      → k + silent_rounds ≤ rounds
      → IsFlat v2r_base f
      → head_of v2r_base f < 4294967296
      → length (waiting v2r_base pending f) < fuel
      → HasRoom (length (said n (poll_input env (waiting v2r_base pending f) false n))) f
      → (n2 : Node) × (f2 : Bytes) × (superloop_ring env fuel (suc rounds) pending f n
          ≡ some (n2, f2))
  unfolding superloop_ring
  superloop_ring-returns fuel rounds k pending f n clock silent ample flat small enough r =
      let n1 = poll_input env (waiting v2r_base pending f) false n in
      let p = poll_ring-IsPolled env fuel pending f n flat small enough r in
      subst (λ o. (n2 : Node) × (f2 : Bytes) × (behind_server env (suc rounds) o ≡ some (n2, f2)))
        (sym p.returned)
        (turn_returns n1 p.file _ (
          poll_once-returns env (suc rounds) n1.worker
            (λ w. rx_loop-Ends env clock k silent k rounds no_burst w (omega arith) ample)))
