-- ===== src/Server/Exchange/Publishing.antt =====
-- What the host finds in the ring of what the handlers of service/src/serial_server.cpp wrote.
use k230_lr2021_radio.Prelude.{
  ℕ, suc, ◌+◌, ◌-◌, ◌≡◌, ◌≤◌, ◌<◌, refl, sym, ap, ◌∙◌, List, [], ◌∷◌, ◌++◌, arith, length, take,
  drop, append-nil, append_assoc, length-append, inr,
}
use k230_lr2021_radio.Device.{Event, History}
use k230_lr2021_radio.Server.Parser.{Bytes}
use k230_lr2021_radio.Server.Frames.{writes_of}
use k230_lr2021_radio.Server.Frames.Decoding.{joined}
use k230_lr2021_radio.Server.Ipc.{r2v_base, write_ring}
use k230_lr2021_radio.Server.Ipc.Fifo.{head_of, contents, IsFlat, write_ring-push, head-write_ring}
use k230_lr2021_radio.Server.Handlers.{Node}
use k230_lr2021_radio.Server.Exchange.{write_each, publish, new_events, publish_from}
use k230_lr2021_radio.Server.Exchange.Histories.{IsAny, GoesOn, there, then_call, GoesOn-trans}

-- The bytes of some calls, the oldest first, which is the last of the list.
abbrev pub bytes_of : List Event → List ℕ
bytes_of [] = []
bytes_of (e ∷ es) = bytes_of es ++ joined (writes_of e)

-- The bytes that a node wrote behind another.
abbrev pub said : Node → Node → List ℕ
said n n' = bytes_of (new_events n.worker.history n'.worker.history)

length-GoesOn : (h h' : History) → GoesOn IsAny h h' → length h ≤ length h'
length-GoesOn h _ there = omega arith
length-GoesOn h _ (then_call e h' _ g) = omega (arith, length-GoesOn h h' g)

pub nothing_new : (h : History) → new_events h h ≡ []
nothing_new h = ap (λ k. take k h) {x = length h - length h} {y = 0} (omega arith)

pub one_new :
    (e : Event) (h h' : History) → GoesOn IsAny h h' → new_events h (e ∷ h') ≡ e ∷ new_events h h'
one_new e h h' g =
    ap (λ k. take k (e ∷ h')) {x = suc (length h') - length h} {y = suc (length h' - length h)}
      (omega (arith, length-GoesOn h h' g))

pub bytes_trans :
    (h h' h'' : History)
    → GoesOn IsAny h h'
    → GoesOn IsAny h' h''
    → bytes_of (new_events h h'') ≡ bytes_of (new_events h h') ++ bytes_of (new_events h' h'')
bytes_trans h h' _ g there =
    sym (append-nil (bytes_of (new_events h h')))
    ∙ ap (λ es. bytes_of (new_events h h') ++ bytes_of es) (sym (nothing_new h'))
bytes_trans h h' _ g (then_call e h'' _ g') =
    let before = bytes_of (new_events h h') in
    ap bytes_of (one_new e h h'' (GoesOn-trans IsAny h h' h'' g g'))
    ∙ ap (λ bs. bs ++ joined (writes_of e)) (bytes_trans h h' h'' g g')
    ∙ append_assoc before (bytes_of (new_events h' h'')) (joined (writes_of e))
    ∙ ap (λ es. before ++ bytes_of es) (sym (one_new e h' h'' g'))

-- The ring to the host has so many bytes more behind it, and nothing outside of it changed.
pub record IsAppended (buf : List ℕ) (f f' : Bytes) : Type 0 where
  pub holds : contents r2v_base f' ≡ contents r2v_base f ++ buf
  pub flat : IsFlat r2v_base f'
  pub counted : head_of r2v_base f' ≡ head_of r2v_base f + length buf
  pub outside : (j : ℕ) → 65536 ≤ j → f' j ≡ f j

-- There is room for so many bytes more, and their count does not wrap.
pub record HasRoom (n : ℕ) (f : Bytes) : Type 0 where
  pub flat : IsFlat r2v_base f
  pub fits : length (contents r2v_base f) + n ≤ 65520
  pub small : head_of r2v_base f + n < 4294967296

pub nothing-IsAppended : (f : Bytes) → IsFlat r2v_base f → IsAppended [] f f
nothing-IsAppended f flat = record {
  holds = sym (append-nil (contents r2v_base f));
  flat = flat;
  counted = omega arith;
  outside = λ j p. refl;
}

pub IsAppended-trans :
    (xs ys : List ℕ) (f g h : Bytes)
    → IsAppended xs f g
    → IsAppended ys g h
    → IsAppended (xs ++ ys) f h
IsAppended-trans xs ys f g h a b = record {
  holds = b.holds ∙ ap (λ q. q ++ ys) a.holds ∙ append_assoc (contents r2v_base f) xs ys;
  flat = b.flat;
  counted = omega (arith, a.counted, b.counted, length-append xs ys);
  outside = λ j p. b.outside j p ∙ a.outside j p;
}

-- What is left of the room behind a part of it.
pub room_behind :
    (xs : List ℕ) (n m : ℕ) (f g : Bytes)
    → IsAppended xs f g
    → HasRoom m f
    → length xs + n ≤ m
    → HasRoom n g
room_behind xs n m f g a r e = record {
  flat = a.flat;
  fits = let i = r.fits in omega (arith, ap length a.holds, length-append (contents r2v_base f) xs);
  small = let i = r.small in omega (arith, a.counted);
}

write_ring-IsAppended :
    (buf : List ℕ) (f : Bytes)
    → HasRoom (length buf) f
    → IsAppended buf f (write_ring r2v_base buf f)
write_ring-IsAppended buf f r =
    let i = r.fits in
    let short : length buf ≤ 65520 = omega arith in
    let out = write_ring-push r2v_base buf f 65536 r.flat short r.small (inr (omega arith)) in
    record {
      holds =
          out.0
          ∙ ap (λ k. drop k (contents r2v_base f) ++ buf)
              {x = length (contents r2v_base f) + length buf - 65520} {y = 0} (omega arith);
      flat = out.1;
      counted = head-write_ring r2v_base buf f r.flat short r.small;
      outside =
          λ j p. (write_ring-push r2v_base buf f j r.flat short r.small (inr (omega arith))).2;
    }

write_each-IsAppended :
    (ws : List (List ℕ)) (f : Bytes)
    → HasRoom (length (joined ws)) f
    → IsAppended (joined ws) f (write_each ws f)
write_each-IsAppended [] f r = nothing-IsAppended f r.flat
write_each-IsAppended (w ∷ ws) f r =
    let l = length-append w (joined ws) in
    let first =
      write_ring-IsAppended w f
        (room_behind [] (length w) _ f f (nothing-IsAppended f r.flat) r (omega (arith, l))) in
    IsAppended-trans w (joined ws) f (write_ring r2v_base w f) _ first (
      write_each-IsAppended ws (write_ring r2v_base w f)
        (room_behind w (length (joined ws)) _ f _ first r (omega (arith, l))))

publish-IsAppended :
    (es : List Event) (f : Bytes)
    → HasRoom (length (bytes_of es)) f
    → IsAppended (bytes_of es) f (publish es f)
publish-IsAppended [] f r = nothing-IsAppended f r.flat
publish-IsAppended (e ∷ es) f r =
    let l = length-append (bytes_of es) (joined (writes_of e)) in
    let first = publish-IsAppended es f (
      room_behind [] (length (bytes_of es)) _ f f (nothing-IsAppended f r.flat) r
        (omega (arith, l))) in
    IsAppended-trans (bytes_of es) (joined (writes_of e)) f (publish es f) _ first (
      write_each-IsAppended (writes_of e) (publish es f) (
        room_behind (bytes_of es) (length (joined (writes_of e))) _ f _ first r (omega (arith, l))))

pub publish_from-IsAppended :
    (n n' : Node) (f : Bytes)
    → HasRoom (length (said n n')) f
    → IsAppended (said n n') f (publish_from n n' f)
publish_from-IsAppended n n' f r =
    publish-IsAppended (new_events n.worker.history n'.worker.history) f r
