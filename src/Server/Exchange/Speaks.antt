-- ===== src/Server/Exchange/Speaks.antt =====
-- What the handlers of service/src/serial_server.cpp write is a run of whole frames.
use Prim.{tt}
use k230_lr2021_radio.Prelude.{
  ℕ, ◌≡◌, refl, sym, ap, ◌∙◌, Bool, true, false, List, [], ◌∷◌, ◌++◌, arith, append-nil,
  append_assoc, if◌then◌else◌,
}
use k230_lr2021_radio.Device.{
  Event, History, write_all, on_rx_packet, on_tx_terminal, on_scan_result,
}
use k230_lr2021_radio.Worker.State.{call}
use k230_lr2021_radio.Server.Frames.{ready_frame, error_frame, writes_of}
use k230_lr2021_radio.Server.Frames.Decoding.{
  Frame, ready, error, joined, written, FitsFrame, AllFit, all_written,
}
use k230_lr2021_radio.Server.Handlers.{Node, with_worker, send, send_all}
use k230_lr2021_radio.Server.Handlers.Stays.{send-Stays}
use k230_lr2021_radio.Server.Exchange.{new_events}
use k230_lr2021_radio.Server.Exchange.Histories.{
  GoesOn, there, then_call, IsSilent, loosen, NodeGoesOn, node_steps, send_all-GoesOn,
}
use k230_lr2021_radio.Server.Exchange.Publishing.{bytes_of, said, nothing_new, one_new, bytes_trans}

silent_writes : (e : Event) → IsSilent e → joined (writes_of e) ≡ []
unfolding writes_of
silent_writes (write_all bytes) p = absurd p
silent_writes (on_rx_packet pkt rssi) p = absurd p
silent_writes (on_tx_terminal t) p = absurd p
silent_writes (on_scan_result hz frames consensus rssi) p = absurd p
silent_writes _ p = refl

silent_bytes : (h h' : History) → GoesOn IsSilent h h' → bytes_of (new_events h h') ≡ []
silent_bytes h _ there = ap bytes_of (nothing_new h)
silent_bytes h _ (then_call e h' p g) =
    ap bytes_of (one_new e h h' (loosen h h' g))
    ∙ ap (λ bs. bs ++ joined (writes_of e)) (silent_bytes h h' g)
    ∙ silent_writes e p

-- From a node to another by calls that write whole frames, with their fields in range.
pub record Speaks (n n' : Node) : Type 0 where
  pub goes : NodeGoesOn n n'
  pub frames : List Frame
  pub fit : AllFit frames
  pub spoken : said n n' ≡ all_written frames

pub silent-Speaks : (n n' : Node) → GoesOn IsSilent n.worker.history n'.worker.history → Speaks n n'
silent-Speaks n n' g = record {
  goes = loosen n.worker.history n'.worker.history g;
  frames = [];
  fit = tt;
  spoken = silent_bytes n.worker.history n'.worker.history g;
}

AllFit-append : (fs gs : List Frame) → AllFit fs → AllFit gs → AllFit (fs ++ gs)
AllFit-append [] gs p q = q
AllFit-append (f ∷ fs) gs p q = (p.0, AllFit-append fs gs p.1 q)

all_written-append :
    (fs gs : List Frame) → all_written (fs ++ gs) ≡ all_written fs ++ all_written gs
all_written-append [] gs = refl
all_written-append (f ∷ fs) gs =
    ap (λ bs. written f ++ bs) (all_written-append fs gs)
    ∙ sym (append_assoc (written f) (all_written fs) (all_written gs))

pub Speaks-trans : (l m n : Node) → Speaks l m → Speaks m n → Speaks l n
Speaks-trans l m n a b = record {
  goes = node_steps l m n a.goes b.goes;
  frames = a.frames ++ b.frames;
  fit = AllFit-append a.frames b.frames a.fit b.fit;
  spoken =
      bytes_trans l.worker.history m.worker.history n.worker.history a.goes b.goes
      ∙ ap (λ bs. bs ++ said m n) a.spoken
      ∙ ap (λ bs. all_written a.frames ++ bs) b.spoken
      ∙ sym (all_written-append a.frames b.frames);
}

pub if-Speaks : (b : Bool) (n x y : Node) → Speaks n x → Speaks n y → Speaks n (if b then x else y)
if-Speaks true n x y p q = p
if-Speaks false n x y p q = q

said_if :
    (b : Bool) (n x : Node) (bytes : List ℕ)
    → b ≡ true
    → said n x ≡ bytes
    → said n (if b then x else n) ≡ bytes
said_if true n x bytes on e = e
said_if false n x bytes on e = absurd cc

said-send : (bytes : List ℕ) (n : Node) → n.connected ≡ true → said n (send bytes n) ≡ bytes
unfolding writes_of
said-send bytes n on =
    said_if n.connected n (with_worker (call (write_all bytes) n.worker) n) bytes on (
      ap bytes_of (one_new (write_all bytes) n.worker.history n.worker.history there)
      ∙ ap (λ es. bytes_of es ++ (bytes ++ [])) (nothing_new n.worker.history)
      ∙ append-nil bytes)

said-send_all :
    (ws : List (List ℕ)) (n : Node) → n.connected ≡ true → said n (send_all ws n) ≡ joined ws
said-send_all [] n on = ap bytes_of (nothing_new n.worker.history)
said-send_all (w ∷ ws) n on =
    let on' = (send-Stays w n).connected ∙ on in
    bytes_trans n.worker.history (send w n).worker.history (send_all ws (send w n)).worker.history
      (send_all-GoesOn (w ∷ []) n) (send_all-GoesOn ws (send w n))
    ∙ ap (λ bs. bs ++ said (send w n) (send_all ws (send w n))) (said-send w n on)
    ∙ ap (λ bs. w ++ bs) (said-send_all ws (send w n) on')

-- The writes of one frame.
pub tells :
    (f : Frame) (ws : List (List ℕ)) (n : Node)
    → FitsFrame f
    → joined ws ≡ written f
    → n.connected ≡ true
    → Speaks n (send_all ws n)
tells f ws n fits e on = record {
  goes = send_all-GoesOn ws n;
  frames = f ∷ [];
  fit = (fits, tt);
  spoken = said-send_all ws n on ∙ e ∙ sym (append-nil (written f));
}

pub ready-Speaks : (n : Node) → n.connected ≡ true → Speaks n (send (ready_frame 511) n)
ready-Speaks n =
    tells (ready 511) (ready_frame 511 ∷ []) n (omega arith) (append-nil (ready_frame 511))

pub error-Speaks :
    (number : ℕ) (msg : List ℕ) (n : Node)
    → FitsFrame (error number msg)
    → n.connected ≡ true
    → Speaks n (send (error_frame number msg) n)
error-Speaks number msg n fits =
    tells (error number msg) (error_frame number msg ∷ []) n fits
      (append-nil (error_frame number msg))
