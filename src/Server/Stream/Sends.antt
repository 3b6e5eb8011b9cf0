-- ===== src/Server/Stream/Sends.antt =====
-- The loop of `writeAll`: when it ends, and what it sent.
use k230_lr2021_radio.Prelude.{
  is_empty, ℕ, zero, suc, ◌+◌, ◌≡◌, ◌≤◌, ◌∙◌, refl, ap, Bool, true, false, ◌&&◌, arith, List, [],
  ◌∷◌, ◌++◌, Option, none, some, take, drop, take-append-drop, append_assoc,
}
use k230_lr2021_radio.Server.Stream.{
  Got, byte, end_of_file, no_byte, read_error, input_of, read_byte_stream, Written, wrote, again,
  broken, Result, behind, on_written, write_stream,
}

-- The loop is over, and what it sent is the front of the buffer: the whole, if it says so, and less,
-- if it does not.
pub record IsSent (buf : List ℕ) (o : Option Result) : Type 0 where
  pub ok : Bool
  pub sent : List ℕ
  pub rest : List ℕ
  pub returned : o ≡ some (ok, sent)
  pub front : sent ++ rest ≡ buf
  pub verdict : ok ≡ is_empty rest

abbrev pub is_again : Written → Bool
is_again again = true
is_again _ = false

-- Of any `k + 1` answers in a row that a socket gives, one is not EAGAIN or EINTR.
abbrev pub IsPatient : Bool → (ℕ → Written) → ℕ → Type 0
IsPatient is_tcp answers k =
    (i : ℕ) → (j : ℕ) × (j ≤ k) × ((is_tcp && is_again (answers (i + j))) ≡ false)

-- `k + 1` calls for each byte.
abbrev pub enough : ℕ → List ℕ → ℕ
enough k [] = 0
enough k (b ∷ bs) = suc k + enough k bs

enough-drop : (k n : ℕ) (bs : List ℕ) → enough k (drop n bs) ≤ enough k bs
enough-drop k zero bs = omega arith
enough-drop k (suc n) [] = omega arith
enough-drop k (suc n) (b ∷ bs) = omega (arith, enough-drop k n bs)

given_up : (b : ℕ) (bs : List ℕ) → IsSent (b ∷ bs) (some (false, []))
given_up b bs = record {
  ok = false;
  sent = [];
  rest = b ∷ bs;
  returned = refl;
  front = refl;
  verdict = refl;
}

behind-IsSent :
    (n : ℕ) (buf : List ℕ) (o : Option Result)
    → IsSent (drop n buf) o
    → IsSent buf (behind (take n buf) o)
behind-IsSent n buf o s = record {
  ok = s.ok;
  sent = take n buf ++ s.sent;
  rest = s.rest;
  returned = ap (behind (take n buf)) s.returned;
  front =
      append_assoc (take n buf) s.sent s.rest
      ∙ ap (λ r. take n buf ++ r) s.front
      ∙ take-append-drop n buf;
  verdict = s.verdict;
}

on_written-IsSent :
    (is_tcp : Bool) (b : ℕ) (bs : List ℕ) (more : ℕ → Option Result) (r : Written)
    → ((is_tcp && is_again r) ≡ true → IsSent (b ∷ bs) (more 0))
    → ((n : ℕ) → IsSent (drop n bs) (more (suc n)))
    → IsSent (b ∷ bs) (on_written is_tcp (b ∷ bs) more r)
on_written-IsSent true b bs more again retry next = retry refl
on_written-IsSent false b bs more again retry next = given_up b bs
on_written-IsSent is_tcp b bs more broken retry next = given_up b bs
on_written-IsSent is_tcp b bs more (wrote zero) retry next = given_up b bs
on_written-IsSent is_tcp b bs more (wrote (suc n)) retry next =
    behind-IsSent (suc n) (b ∷ bs) (more (suc n)) (next n)

-- The calls that are needed if the next one but `j` makes progress.
abbrev needed : ℕ → ℕ → List ℕ → ℕ
needed k j [] = 0
needed k j (b ∷ bs) = suc j + enough k bs

needed-le : (k j : ℕ) (bs : List ℕ) → j ≤ k → needed k j bs ≤ enough k bs
needed-le k j [] h = omega arith
needed-le k j (b ∷ bs) h = omega arith

module _ (is_tcp : Bool) (answers : ℕ → Written) (k : ℕ)
    (patient : IsPatient is_tcp answers k) where
  loop_ends :
      (fuel i j : ℕ) (bs : List ℕ)
      → (is_tcp && is_again (answers (i + j))) ≡ false
      → needed k j bs ≤ fuel
      → IsSent bs (write_stream is_tcp answers fuel i bs)
  unfolding write_stream
  loop_ends fuel i j [] free e = record {
    ok = true;
    sent = [];
    rest = [];
    returned = refl;
    front = refl;
    verdict = refl;
  }
  loop_ends zero i j (b ∷ bs) free e = absurd (omega arith)
  loop_ends (suc fuel) i zero (b ∷ bs) free e =
      let now : (is_tcp && is_again (answers i)) ≡ false =
        ap (λ x. is_tcp && is_again (answers x)) {x = i} {y = i + 0} (omega arith) ∙ free in
      on_written-IsSent is_tcp b bs
        (λ n. write_stream is_tcp answers fuel (i + 1) (drop n (b ∷ bs))) (answers i) (λ retry. cc)
        (λ n.
          let (j', h, free') = patient (i + 1) in
          loop_ends fuel (i + 1) j' (drop n bs) free'
            (omega (arith, needed-le k j' (drop n bs) h, enough-drop k n bs)))
  loop_ends (suc fuel) i (suc j) (b ∷ bs) free e =
      on_written-IsSent is_tcp b bs
        (λ n. write_stream is_tcp answers fuel (i + 1) (drop n (b ∷ bs))) (answers i)
        (λ retry.
          loop_ends fuel (i + 1) j (b ∷ bs)
            (ap (λ x. is_tcp && is_again (answers x)) {x = i + 1 + j} {y = i + suc j} (omega arith)
              ∙ free)
            (omega arith))
        (λ n.
          let (j', h, free') = patient (i + 1) in
          loop_ends fuel (i + 1) j' (drop n bs) free'
            (omega (arith, needed-le k j' (drop n bs) h, enough-drop k n bs)))

-- If of any `k + 1` answers of a socket in a row one is not EAGAIN or EINTR, then `writeAll` is over
-- after at most `k + 1` calls for each byte. It sent the front of the buffer, in order and once: the
-- whole of it if it returns true, and less if it returns false.
pub write_stream-IsSent :
    (is_tcp : Bool) (answers : ℕ → Written) (k fuel : ℕ) (buf : List ℕ)
    → IsPatient is_tcp answers k
    → enough k buf ≤ fuel
    → IsSent buf (write_stream is_tcp answers fuel 0 buf)
write_stream-IsSent is_tcp answers k fuel buf patient e =
    let (j, h, free) = patient 0 in
    loop_ends is_tcp answers k patient fuel 0 j buf free (omega (arith, needed-le k j buf h))

-- A client that stays connected and takes nothing, so that every call of `send` for one byte or more
-- returns EAGAIN, holds the loop for as long as it likes: no number of calls ends it.
pub write_stream-stalls :
    (answers : ℕ → Written) (fuel i b : ℕ) (bs : List ℕ)
    → ((n : ℕ) → answers n ≡ again)
    → write_stream true answers fuel i (b ∷ bs) ≡ none
unfolding write_stream
write_stream-stalls answers zero i b bs full = refl
write_stream-stalls answers (suc fuel) i b bs full =
    rw (full i) (write_stream-stalls answers fuel (i + 1) b bs full)

-- A port never hangs up.
input_of-port : (gs : List Got) → (input_of false gs).1 ≡ false
unfolding input_of read_byte_stream
input_of-port [] = refl
input_of-port (byte b ∷ gs) = input_of-port gs
input_of-port (end_of_file ∷ gs) = refl
input_of-port (no_byte ∷ gs) = refl
input_of-port (read_error ∷ gs) = refl
