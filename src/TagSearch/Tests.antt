-- ===== src/TagSearch/Tests.antt =====
-- A turn of the parser at a ring with a byte in front of a tag.
use flimg.Prelude.{◌≡◌, refl, arith, Bool, true, false, [], ◌∷◌, codes}
use flimg.CircularQueue.{CircularQueue, set_up, add_to_queue}
use flimg.CircularQueue.Valid.{set_up-IsValid, add_to_queue-IsValid}
use flimg.TagSearch.{Turn, advanced, inhibited, at_tag, tag_turn}
use flimg.TagSearch.Sound.{IsSoundTurn, tag_turn-IsSoundTurn}

abbrev tagged : CircularQueue
tagged = add_to_queue (set_up 4 0 0 false) (codes "x<DATA 5 ")

stands_at_tag : Turn → Bool
stands_at_tag (advanced q) = false
stands_at_tag (inhibited q) = false
stands_at_tag (at_tag q) = true

it_stands : stands_at_tag (tag_turn true tagged ([] ∷ [] ∷ [] ∷ [])) ≡ true
unfolding stands_at_tag tag_turn flimg.CircularQueue.look_ahead_for_character add_to_queue set_up
    flimg.CircularQueue.store flimg.TagSearch.look_at_tag flimg.TagSearch.is_listed
    flimg.TagSearch.match_entry flimg.TagSearch.match_loop flimg.TagSearch.shift_loop
    flimg.CircularQueue.look_ahead flimg.CircularQueue.look_ahead_bytes
    flimg.CircularQueue.adjust_count flimg.CircularQueue.adjust_locked
    flimg.CircularQueue.adjust_read_que_index flimg.CircularQueue.read_que_data
    flimg.CircularQueue.refill flimg.CircularQueue.settle flimg.CircularQueue.take_out
    flimg.CircularQueue.unstall flimg.CircularQueue.add_to_queue_null_filtered
    flimg.CircularQueue.for_character_loop flimg.Frames.arriving
it_stands = refl

tag_turn-IsSoundTurn_example : IsSoundTurn 4 (tag_turn true tagged ([] ∷ [] ∷ [] ∷ []))
tag_turn-IsSoundTurn_example =
    tag_turn-IsSoundTurn true tagged ([] ∷ [] ∷ [] ∷ [])
      (add_to_queue-IsValid (codes "x<DATA 5 ") (set_up-IsValid 4 0 0 false (omega arith) refl))
