-- ===== src/Frames/Tests.antt =====
-- `process_que` at a ring that holds a frame of five bytes.
use flimg.Prelude.{◌≡◌, refl, ◌++◌, arith, Bool, true, false, [], ◌∷◌, codes, length, ◌≤◌}
use flimg.Crc16.{scrc16}
use flimg.Amp.{frame, same_text}
use flimg.CircularQueue.{CircularQueue, set_up, add_to_queue}
use flimg.CircularQueue.Valid.{IsValid, set_up-IsValid, add_to_queue-IsValid}
use flimg.Frames.{Result, gave_up, skipped, passed, process_que}
use flimg.CircularQueue.Contents.{contents}
use flimg.Frames.Tag.{IsName, tag_for}
use flimg.Frames.Passing.{Holds, process_que-passes}
use flimg.Frames.Sound.{IsSound, process_que-IsSound}

abbrev arrived : CircularQueue
arrived = add_to_queue (set_up 5 0 0 false) (frame (codes "<DATA ") (codes "hello"))

frame_passed : Result → Bool
frame_passed (gave_up q) = false
frame_passed (skipped q) = false
frame_passed (passed missing text q) = true

it_passes : frame_passed (process_que arrived ([] ∷ [] ∷ [] ∷ [] ∷ [])) ≡ true
unfolding frame_passed process_que flimg.Frames.read_frame flimg.Frames.tag_loop
    flimg.CircularQueue.look_ahead_to_terminator flimg.CircularQueue.to_terminator_bytes
    add_to_queue frame set_up flimg.CircularQueue.store flimg.Cstd.print_int scrc16
    flimg.Frames.ends_tag flimg.Frames.scan_tag flimg.Amp.Headers.some_word flimg.Cstd.take_word
    flimg.Cstd.skip_spaces flimg.Cstd.scan_int_rest flimg.Cstd.scan_int flimg.Amp.same_text
    flimg.CircularQueue.adjust_count flimg.CircularQueue.adjust_locked
    flimg.CircularQueue.adjust_read_que_index flimg.CircularQueue.crc_bytes
    flimg.CircularQueue.look_ahead_bytes flimg.CircularQueue.look_ahead_crc
    flimg.CircularQueue.read_que_data flimg.CircularQueue.refill flimg.CircularQueue.settle
    flimg.CircularQueue.take_out flimg.CircularQueue.unstall flimg.Crc16.val flimg.Cstd.drop_digits
    flimg.Cstd.drop_sign flimg.Frames.arriving flimg.Frames.behind_prefix flimg.Frames.bounded
    flimg.Frames.data_loop flimg.Frames.hand_over flimg.Frames.hex_digits flimg.Frames.hex_number
    flimg.Frames.hex_of flimg.Frames.is_hex flimg.Frames.scan_hex flimg.Frames.skip_one
    flimg.Crc16.crc16 flimg.Crc16.update_all flimg.CircularQueue.add_to_queue_null_filtered
it_passes = refl

arrived-IsValid : IsValid 5 arrived
arrived-IsValid =
    add_to_queue-IsValid (frame (codes "<DATA ") (codes "hello"))
      (set_up-IsValid 5 0 0 false (omega arith) refl)

process_que-IsSound_example : IsSound 5 (process_que arrived ([] ∷ [] ∷ [] ∷ [] ∷ []))
process_que-IsSound_example = process_que-IsSound arrived ([] ∷ [] ∷ [] ∷ [] ∷ []) arrived-IsValid

data-IsName : IsName (codes "DATA")
data-IsName = record {
  some_name = omega arith;
  short = omega arith;
  plain = (refl, (refl, (refl, (refl, tt))));
  open_ = (refl, (refl, (refl, (refl, tt))));
}

data_tag : length (tag_for (codes "DATA") (codes "hello")) ≤ 20
unfolding tag_for scrc16 flimg.Cstd.print_nat
data_tag = omega arith

in_front : contents arrived ≡ frame (codes "<DATA ") (codes "hello") ++ []
unfolding add_to_queue frame set_up flimg.CircularQueue.store flimg.Cstd.print_int scrc16
in_front = refl

-- More has begun to arrive during the second callback.
process_que-passes_example :
    (next : CircularQueue) × (process_que arrived ([] ∷ codes "<DA" ∷ [] ∷ [])
      ≡ passed
          (same_text (codes "DATA") (codes "MISSING"))
          (tag_for (codes "DATA") (codes "hello") ++ codes "hello")
          next)
    × Holds 5 (10 ∷ []) next
process_que-passes_example =
    process_que-passes 5 arrived (codes "DATA") (codes "hello") [] [] (codes "<DA") [] []
      arrived-IsValid data-IsName (omega arith) (omega arith) data_tag in_front
