-- ===== src/Server/Handlers/Rounds.antt =====
-- A round of the server's `pollOnce`, byte by byte: the connection, and the books.
use k230_lr2021_radio.Prelude.{
  ℕ, ◌≡◌, ◌∙◌, refl, Bool, true, false, List, [], ◌∷◌, if◌then◌else◌, not, ◌&&◌,
}
use k230_lr2021_radio.Device.{Env, read_clock}
use k230_lr2021_radio.Worker.State.{call, now_ms}
use k230_lr2021_radio.Server.Parser.{on_byte, State}
use k230_lr2021_radio.Server.Frames.{ready_frame}
use k230_lr2021_radio.Server.Handlers.{
  Node, send, maybe_emit_stats, perform, poll_byte, poll_input, greet, poll_once,
}
use k230_lr2021_radio.Server.Handlers.Stays.{
  send-Stays, write_stats-Stays, maybe_emit_stats-Stays, perform-Stays,
}
use k230_lr2021_radio.Server.Handlers.Books.{
  IsBooked, perform-IsBooked, maybe_emit_stats-IsBooked, write_stats-IsBooked, ready-IsBooked,
}

pub if-IsBooked :
    (b : Bool) (x y : Node)
    → (b ≡ true → IsBooked x)
    → (b ≡ false → IsBooked y)
    → IsBooked (if b then x else y)
if-IsBooked true x y bx by' = bx refl
if-IsBooked false x y bx by' = by' refl

module _ (env : Env) where
  -- The node in which a byte's action is performed.
  abbrev taken_in : ℕ → Node → Node
  taken_in b n = record n {
    parser = (on_byte (now_ms env n.worker).0 b n.parser).0;
    worker = call read_clock n.worker;
  }

  taken_in-IsBooked : (b : ℕ) (n : Node) → IsBooked n → IsBooked (taken_in b n)
  taken_in-IsBooked b n k = record {
    booked = k.booked;
    safe = record { stored = k.safe.stored; set = k.safe.set };
  }

  -- A byte leaves the connection and the books in order.
  record IsServed (n n' : Node) : Type 0 where
    connected : n'.connected ≡ true
    books : IsBooked n'

  if-IsServed :
      (n x y : Node) (b : Bool) → IsServed n x → IsServed n y → IsServed n (if b then x else y)
  if-IsServed n x y true sx sy = sx
  if-IsServed n x y false sx sy = sy

  poll_byte-IsServed :
      (b : ℕ) (n : Node) → n.connected ≡ true → IsBooked n → IsServed n (poll_byte env b n)
  unfolding poll_byte
  poll_byte-IsServed b n on k =
      let out = on_byte (now_ms env n.worker).0 b n.parser in
      let m = perform env out.1 (taken_in b n) in
      let on' : m.connected ≡ true = (perform-Stays env out.1 (taken_in b n)).connected ∙ on in
      let k' = perform-IsBooked env out.1 (taken_in b n) on (taken_in-IsBooked b n k) in
      if-IsServed n (maybe_emit_stats env false m) m out.2
        (record {
          connected = (maybe_emit_stats-Stays env false m).connected ∙ on';
          books = maybe_emit_stats-IsBooked env false m k';
        })
        (record { connected = on'; books = k' })

  -- The books stay in order through a round of input, to its end or the client's.
  pub poll_input-IsBooked :
      (bs : List ℕ) (hung_up : Bool) (n : Node)
      → n.connected ≡ true
      → IsBooked n
      → IsBooked (poll_input env bs hung_up n)
  unfolding poll_input
  poll_input-IsBooked [] true n on k = record { booked = k.booked; safe = k.safe }
  poll_input-IsBooked [] false n on k = maybe_emit_stats-IsBooked env false n k
  poll_input-IsBooked (b ∷ bs) hung_up n on k =
      let s = poll_byte-IsServed b n on k in
      poll_input-IsBooked bs hung_up (poll_byte env b n) s.connected s.books

  pub greet-IsBooked : (n : Node) → IsBooked n → IsBooked (greet env n)
  greet-IsBooked n k =
      let n1 = record (send (ready_frame 511) n) { ready_sent = true } in
      let r = ready-IsBooked n k in
      write_stats-IsBooked env
        (record n1 { last_stats_ms = (now_ms env n1.worker).0; worker = call read_clock n1.worker })
        (record { booked = r.booked; safe = record { stored = r.safe.stored; set = r.safe.set } })

  greet-connected : (n : Node) → n.connected ≡ true → (greet env n).connected ≡ true
  greet-connected n on =
      let n1 = record (send (ready_frame 511) n) { ready_sent = true } in
      (write_stats-Stays env (record n1 {
        last_stats_ms = (now_ms env n1.worker).0;
        worker = call read_clock n1.worker;
      })).connected
      ∙ (send-Stays (ready_frame 511) n).connected
      ∙ on

  -- The node with which an accepted client begins.
  abbrev accepting : Node → Node
  accepting n = record n {
    connected = true;
    parser = record n.parser { state = State.tag; skip_remain = 0; have = 0 };
  }

  -- A round of the server keeps its books, whatever comes in, and whoever connects or leaves.
  pub poll_once-IsBooked :
      (client_waits : Bool) (input : List ℕ) (hung_up : Bool) (n : Node)
      → IsBooked n
      → IsBooked (poll_once env client_waits input hung_up n)
  unfolding poll_once
  poll_once-IsBooked client_waits input hung_up n k =
      if-IsBooked (n.is_tcp && not n.connected) _ _
        (λ _.
          if-IsBooked client_waits _ _
            (λ _.
              poll_input-IsBooked input hung_up (greet env (accepting n))
                (greet-connected (accepting n) refl)
                (greet-IsBooked (accepting n) (record { booked = k.booked; safe = k.safe })))
            (λ _. k))
        (λ _. if-IsBooked n.connected _ _ (λ on. poll_input-IsBooked input hung_up n on k) (λ _. k))
