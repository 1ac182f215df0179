-- ===== src/CircularQueue/Tests.antt =====
-- Runs of the ring, and its theorems at concrete states.
use flimg.Prelude.{◌≡◌, refl, arith, true, false, List, [], ◌∷◌, codes}
use flimg.Crc16.{reset, crc16}
use flimg.CircularQueue.{
  CircularQueue, set_up, add_to_queue, adjust_read_que_index, look_ahead_bytes, look_ahead_crc,
  look_ahead_to_terminator,
}
use flimg.CircularQueue.Valid.{IsValid, adjust_read_que_index-IsValid}
use flimg.CircularQueue.Contents.{contents, contents-add_to_queue}
use flimg.CircularQueue.Search.{look_ahead_to_terminator_lem, look_ahead_crc_lem}
use flimg.CircularQueue.Trace.{
  Call, add, look, look_crc, look_terminator, look_character, adjust, run, queue_run, run_refines,
}
use flimg.CircularQueue.Garbage.{set_up_lost}

-- A ring of eight bytes that holds `b<D>` round its end.
abbrev wrapped : CircularQueue
wrapped = record {
  buffer = b'<' ∷ b'D' ∷ b'>' ∷ 0 ∷ 0 ∷ 0 ∷ 0 ∷ b'b' ∷ [];
  buffer_size = 8;
  buffer_count = 4;
  exit_thread = false;
  index_mask = 7;
  read_index = 7;
  stalled = false;
  write_index = 3;
  crc_validate = reset;
}

wrapped-IsValid : IsValid 3 wrapped
wrapped-IsValid = record {
  sized = refl;
  allocated = refl;
  mask = refl;
  running = refl;
  fits = omega arith;
  apart = refl;
}

abbrev calls : List Call
calls =
    look_character b'<' []
    ∷ adjust 0 []
    ∷ look 3 (codes "ATA")
    ∷ look_terminator b'>' 9 []
    ∷ look_crc 2 []
    ∷ add (codes "too long for it")
    ∷ adjust 7 []
    ∷ []

contents-wrapped : contents wrapped ≡ codes "b<D>"
contents-wrapped = refl

wrapped_adjusted-IsValid : IsValid 3 (adjust_read_que_index wrapped 2 (codes "xy")).1
wrapped_adjusted-IsValid = adjust_read_que_index-IsValid 2 (codes "xy") wrapped-IsValid

wrapped_arrivals : contents (add_to_queue wrapped (codes "12345")) ≡ codes "b<D>1234"
wrapped_arrivals = contents-add_to_queue (codes "12345") wrapped-IsValid

wrapped_to_terminator : (look_ahead_to_terminator wrapped b'D' 20 []).0 ≡ codes "b<D"
wrapped_to_terminator = look_ahead_to_terminator_lem b'D' 20 [] wrapped-IsValid (omega arith)

wrapped_crc :
    ((look_ahead_crc wrapped 3 true 0 []).0 ≡ codes "b<D")
    × ((look_ahead_crc wrapped 3 true 0 []).1 ≡ crc16 (codes "b<D"))
wrapped_crc = look_ahead_crc_lem 2 0 [] wrapped-IsValid

run_refines_example : run wrapped calls ≡ queue_run 8 (codes "b<D>") calls
run_refines_example = run_refines calls wrapped-IsValid

set_up_lost_example : look_ahead_bytes (add_to_queue (set_up 4 0 5 false) (b'<' ∷ [])) 1 ≡ 0 ∷ []
set_up_lost_example = set_up_lost 4 0 5 false (omega arith) b'<' (omega arith)
