-- ===== src/Tests/Transport.antt =====
-- The rings in shared memory, the writes to a socket, and the addresses.
use k230_lr2021_radio.Prelude.{
  ◌-◌, ℕ, zero, suc, ◌+◌, ◌≡◌, inl, refl, ap, true, false, List, [], ◌∷◌, none, some, arith,
  join32-bytes,
}
use k230_lr2021_radio.Server.Parser.{Bytes}
use k230_lr2021_radio.Server.Ipc.{
  write_word, init_file, write_ring, refill, read_byte_ipc, read_round, v2r_base,
}
use k230_lr2021_radio.Server.Ipc.Fifo.{
  cell, head_of, tail_of, contents, push, IsFlat, head-write_ring, write_ring-push,
}
use k230_lr2021_radio.Server.Ipc.Reads.{pop, waiting, read_byte_ipc-pop}
use k230_lr2021_radio.Server.Ipc.Rounds.{IsRead, read_round-IsRead}
use k230_lr2021_radio.Server.Ipc.Cells.{length-run}
use k230_lr2021_radio.Server.Ipc.Starts.{IsEmpty, init_file-IsEmpty, refill-resets}
use k230_lr2021_radio.Server.Ipc.Wraps.{refill_wrapped}
use k230_lr2021_radio.Server.Stream.{Written, wrote, again, write_stream}
use k230_lr2021_radio.Server.Stream.Sends.{
  IsSent, IsPatient, write_stream-IsSent, write_stream-stalls,
}

abbrev start : Bytes
start = init_file 0 (λ _. 7)

abbrev message : List ℕ
message = b'R' ∷ 2 ∷ 0 ∷ 255 ∷ 1 ∷ []

start_head : head_of v2r_base start ≡ 0
unfolding init_file write_word
start_head = join32-bytes 0 (omega arith)

start-IsFlat : IsFlat v2r_base start
start-IsFlat = (init_file-IsEmpty 0 (λ _. 7)).1.flat

write_ring-push_example :
    (contents v2r_base (write_ring v2r_base message start)
      ≡ push 65520 message (contents v2r_base start))
    × IsFlat v2r_base (write_ring v2r_base message start)
    × (write_ring v2r_base message start 0 ≡ start 0)
write_ring-push_example =
    write_ring-push v2r_base message start 0 start-IsFlat (omega arith) (omega (arith, start_head))
      (inl (omega arith))

abbrev written : Bytes
written = write_ring v2r_base message start

written_head : head_of v2r_base written ≡ 5
written_head = omega (
  arith,
  start_head,
  head-write_ring v2r_base message start start-IsFlat (omega arith) (omega (arith, start_head)),
)

written-IsFlat : IsFlat v2r_base written
written-IsFlat =
    (write_ring-push v2r_base message start 0 start-IsFlat (omega arith) (omega (arith, start_head))
      (inl (omega arith))).1

read_byte_ipc-pop_example :
    let out = read_byte_ipc true v2r_base [] written in
    ((out.0, waiting v2r_base out.1 out.2) ≡ pop (waiting v2r_base [] written))
    × IsFlat v2r_base out.2
    × (head_of v2r_base out.2 ≡ head_of v2r_base written)
read_byte_ipc-pop_example =
    read_byte_ipc-pop v2r_base [] written written-IsFlat (omega (arith, written_head))

read_round-IsRead_example :
    IsRead v2r_base (waiting v2r_base [] written) (read_round 10 v2r_base [] written)
read_round-IsRead_example =
    read_round-IsRead 10 v2r_base [] written written-IsFlat (omega (arith, written_head)) (
      omega (
        arith,
        written_head,
        length-run (cell v2r_base written) (tail_of v2r_base written)
            (head_of v2r_base written - tail_of v2r_base written),
      ))

-- The last count before the wrap-around.
abbrev at_the_end : Bytes
at_the_end = write_word 4 4294967295 (write_word 0 4294967295 (λ _. 9))

at_the_end_counts : (head_of 0 at_the_end ≡ 4294967295) × (tail_of 0 at_the_end ≡ 4294967295)
unfolding write_word
at_the_end_counts = (join32-bytes 4294967295 (omega arith), join32-bytes 4294967295 (omega arith))

refill_wrapped_example :
    (refill 0 (write_ring 0 (3 ∷ []) (write_ring 0 (1 ∷ 2 ∷ []) at_the_end))).0
    ≡ some (1 ∷ 2 ∷ at_the_end 273 ∷ [])
refill_wrapped_example = refill_wrapped 0 1 2 3 at_the_end at_the_end_counts.0 at_the_end_counts.1

-- A ring that was overwritten.
abbrev corrupt : Bytes
corrupt = write_word 4 0 (write_word 0 100000 (λ _. 9))

corrupt_counts : (head_of 0 corrupt ≡ 100000) × (tail_of 0 corrupt ≡ 0)
unfolding write_word
corrupt_counts = (join32-bytes 100000 (omega arith), join32-bytes 0 (omega arith))

refill-resets_example :
    let out = read_byte_ipc true 0 [] corrupt in (out.0 ≡ none) × (out.1 ≡ []) × IsEmpty 0 out.2
refill-resets_example =
    refill-resets 0 corrupt (omega (arith, corrupt_counts.0))
      (omega (arith, corrupt_counts.0, corrupt_counts.1))

-- Two bytes, then EAGAIN, then the rest byte by byte.
abbrev answers : ℕ → Written
answers zero = wrote 2
answers (suc zero) = again
answers (suc (suc i)) = wrote 1

answers-IsPatient : IsPatient true answers 1
answers-IsPatient zero = (0, omega arith, refl)
answers-IsPatient (suc zero) = (1, omega arith, refl)
answers-IsPatient (suc (suc i)) = (
  0,
  omega arith,
  ap (λ n. elim (answers n) [ Written.again ↦ true | _ ↦ false ]) {x = suc (suc i) + 0}
      {y = suc (suc i)} (omega arith),
)

write_stream-IsSent_example : IsSent message (write_stream true answers 10 0 message)
write_stream-IsSent_example =
    write_stream-IsSent true answers 1 10 message answers-IsPatient (omega arith)

write_stream-stalls_example : write_stream true (λ _. again) 1000 0 (5 ∷ 6 ∷ []) ≡ none
write_stream-stalls_example = write_stream-stalls (λ _. again) 1000 0 5 (6 ∷ []) (λ _. refl)
