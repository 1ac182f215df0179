-- ===== src/TagSearch.antt =====
-- Class `TagSearch` of src/utils/tagSearch.cxx: the table of tags, and one turn of the loop of
-- `tag_search_parser`, which looks for a tag in the ring. Sleeping has no part in it.
--
-- Each call on the ring takes the next of the `deliveries`, what fldigi delivers in its callback;
-- where the list ends, the wait for four bytes runs into its time-out. What the parser calls at a
-- tag is `process_que` (the module Frames).
pub mod Match
pub mod Sound
mod Tests
use flimg.Prelude.{
  ℕ, zero, suc, ◌-◌, ◌*◌, ◌%◌, ◌^◌, bit_and, bit_or, Bool, true, false, ◌||◌, List, [], ◌∷◌,
}
use flimg.Prelude.{leb, ◌==◌, if◌then◌else◌, take, drop, length, codes}
use flimg.CircularQueue.{CircularQueue, look_ahead_for_character, look_ahead, adjust_read_que_index}
use flimg.Frames.{arriving}

abbrev pub search_tags : List (List ℕ)
search_tags =
    codes "<FILE "
    ∷ codes "<ID "
    ∷ codes "<DESC "
    ∷ codes "<DATA "
    ∷ codes "<PROG "
    ∷ codes "<CNTL "
    ∷ codes "<SIZE "
    ∷ codes "<MISSING "
    ∷ []

-- The loop that packs bytes into a `uint32_t`, the first one highest.
unfoldable pub match_loop : ℕ → List ℕ → ℕ
match_loop match [] = match
match_loop match (c ∷ []) = bit_or match (bit_and c 0xff)
match_loop match (c ∷ d ∷ ds) = match_loop (bit_or match (bit_and c 0xff) * 2 ^ 8 % 2 ^ 32) (d ∷ ds)

-- The entry that `stringMatchingList` makes of a tag.
unfoldable pub match_entry : List ℕ → ℕ
match_entry tag = match_loop 0 (take 4 tag)

-- The loop over the table.
unfoldable pub is_listed : ℕ → List (List ℕ) → Bool
is_listed match [] = false
is_listed match (tag ∷ tags) = let rest = is_listed match tags in (match_entry tag == match) || rest

-- The wait for four bytes: what the last call has seen.
pub record Shifted : Type 0 where
  pub bytes : List ℕ
  pub ring : CircularQueue
  pub rest : List (List ℕ)

unfoldable pub shift_loop : List ℕ → CircularQueue → List (List ℕ) → Shifted
shift_loop seen q [] = record { bytes = seen; ring = q; rest = [] }
shift_loop seen q (incoming ∷ more) =
    let (bytes, next) = look_ahead q 4 incoming in
    let later = shift_loop bytes next more in
    if leb 4 (length bytes) then record { bytes = bytes; ring = next; rest = more } else later

-- A turn of the loop takes bytes out, or stands at a tag, where it makes its call unless data are
-- inhibited.
pub data Turn : Type 0 where
  advanced inhibited at_tag : CircularQueue → Turn

-- The part behind the search for `<`, in a ring that begins with it.
unfoldable pub look_at_tag : Bool → Shifted → Turn
look_at_tag resume s =
    if is_listed (match_loop 0 s.bytes) search_tags
    then if resume then at_tag s.ring else inhibited s.ring
    else advanced (adjust_read_que_index s.ring 1 (arriving s.rest)).1

unfoldable pub tag_turn : Bool → CircularQueue → List (List ℕ) → Turn
tag_turn resume q deliveries =
    let ((read_count, found), next) = look_ahead_for_character q b'<' false (arriving deliveries) in
    if found
    then look_at_tag resume (
        shift_loop [] (adjust_read_que_index next (read_count - 1) (arriving (drop 1 deliveries))).1
          (drop 2 deliveries))
    else advanced (adjust_read_que_index next read_count (arriving (drop 1 deliveries))).1
