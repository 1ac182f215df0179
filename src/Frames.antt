-- ===== src/Frames.antt =====
-- `process_que` of src/flimg.cxx: a frame at the front of the ring is read, checked and passed on.
--
-- Each call on the ring takes the next of the `deliveries`, what fldigi delivers in its callback.
-- A list that ends stands for the time-out of the loops, or for callbacks that deliver nothing.
-- The search thread goes on running.
pub mod Tag
pub mod Passing
pub mod Sound
mod Tests
use flimg.Prelude.{
  ℕ, zero, suc, ◌+◌, ◌-◌, ◌*◌, ◌%◌, ◌^◌, min, Bool, true, false, not, ◌&&◌, ◌||◌, List, [], ◌∷◌,
  ◌++◌, Option, none, some,
}
use flimg.Prelude.{ltb, leb, ◌==◌, if◌then◌else◌, drop, length, codes}
use flimg.Cstd.{ℤ, pos, negsuc, is_digit, skip_spaces, take_word, scan_int_rest}
use flimg.Amp.{same_text}
use flimg.Amp.Headers.{some_word}
use flimg.CircularQueue.{
  CircularQueue, look_ahead_to_terminator, look_ahead_crc, adjust_read_que_index,
}

-- What the next callback delivers.
unfoldable pub arriving : List (List ℕ) → List ℕ
arriving [] = []
arriving (incoming ∷ rest) = incoming

-- `tagBuffer[readCount - 1] == '>'`
unfoldable pub ends_tag : List ℕ → Bool
ends_tag [] = false
ends_tag (c ∷ []) = c == b'>'
ends_tag (c ∷ d ∷ ds) = ends_tag (d ∷ ds)

-- `%x`: an optional sign, an optional `0x`, and digits; the value is kept in 32 bits.
unfoldable pub is_hex : ℕ → Bool
is_hex c = is_digit c || (leb b'A' c && leb c b'F') || (leb b'a' c && leb c b'f')

unfoldable pub hex_of : ℕ → ℕ
hex_of c = if is_digit c then c - b'0' else if leb c b'F' then c - b'A' + 10 else c - b'a' + 10

unfoldable pub hex_digits : ℕ → List ℕ → ℕ
hex_digits n [] = n
hex_digits n (c ∷ cs) = let rest = hex_digits (n * 16 + hex_of c) cs in if is_hex c then rest else n

unfoldable pub hex_number : List ℕ → Option ℕ
hex_number [] = none
hex_number (c ∷ cs) = if is_hex c then some (hex_digits 0 (c ∷ cs) % 2 ^ 32) else none

unfoldable pub behind_prefix : List ℕ → List ℕ
behind_prefix [] = []
behind_prefix (c ∷ []) = c ∷ []
behind_prefix (c ∷ x ∷ rest) =
    if (c == b'0') && ((x == b'x') || (x == b'X')) then rest else c ∷ x ∷ rest

unfoldable pub scan_hex : List ℕ → Option ℕ
scan_hex [] = none
scan_hex (c ∷ cs) =
    if c == b'+'
    then hex_number (behind_prefix cs)
    else if c == b'-'
    then elim (hex_number (behind_prefix cs)) [
      | none ↦ none
      | some n ↦ some ((2 ^ 32 - n) % 2 ^ 32)
    ]
    else hex_number (behind_prefix (c ∷ cs))

-- `sscanf(tagBuffer, "<%s %d %x>", aTag, &temp, &chksum)`, where it converts all three.
unfoldable pub scan_tag : List ℕ → Option (List ℕ × ℤ × ℕ)
scan_tag [] = none
scan_tag (c ∷ cs) =
    if not (c == b'<') then none else elim (some_word (take_word 32 (skip_spaces cs))) [
      | none ↦ none
      | some (a_tag, s) ↦ elim (scan_int_rest s) [
        | none ↦ none
        | some (temp, t) ↦ elim (scan_hex (skip_spaces t)) [
          | none ↦ none
          | some chksum ↦ some (a_tag, temp, chksum)
        ]
      ]
    ]

-- `count = temp`, as a number without sign, cut to what the buffer of 2176 bytes holds.
unfoldable pub bounded : ℤ → ℕ
bounded (pos n) = min n 2175
bounded (negsuc n) = 2175

-- A loop of look-aheads: what it ends with, the ring, and what is still to be delivered.
pub record Waited (A : Type 0) : Type 0 where
  pub got : Option A
  pub ring : CircularQueue
  pub rest : List (List ℕ)

unfoldable pub tag_loop : CircularQueue → List (List ℕ) → Waited (List ℕ)
tag_loop q [] = record { got = none; ring = q; rest = [] }
tag_loop q (incoming ∷ more) =
    let (tag, next) = look_ahead_to_terminator q b'>' 20 incoming in
    let later = tag_loop next more in
    if leb 20 (length tag) || ends_tag tag
    then record { got = some tag; ring = next; rest = more }
    else later

unfoldable pub data_loop : ℕ → CircularQueue → List (List ℕ) → Waited (List ℕ × ℕ)
data_loop count q [] = record { got = none; ring = q; rest = [] }
data_loop count q (incoming ∷ more) =
    let (bytes, crc_val, next) = look_ahead_crc q count true 0 incoming in
    let later = data_loop count next more in
    if leb count (length bytes)
    then record { got = some (bytes, crc_val); ring = next; rest = more }
    else later

-- What `process_que` does: it gives up, it passes over bytes, or it hands the frame over to
-- `process_missing_stream` (true) or to `process_data_stream` (false).
pub data Result : Type 0 where
  gave_up skipped : CircularQueue → Result
  passed : Bool → List ℕ → CircularQueue → Result

unfoldable pub skip_one : CircularQueue → List (List ℕ) → Result
skip_one q deliveries = skipped (adjust_read_que_index q 1 (arriving deliveries)).1

-- The part behind the second loop. The ring is fed without null characters, so that
-- `tmp_buffer.assign(tagBuffer)` takes the tag whole.
unfoldable pub hand_over : List ℕ → List ℕ → ℕ → Waited (List ℕ × ℕ) → Result
hand_over tag_buffer a_tag chksum w = elim w.got [
  | none ↦ gave_up w.ring
  | some (bytes, crc_val) ↦
      if not (chksum == crc_val)
      then skip_one w.ring w.rest
      else passed (same_text a_tag (codes "MISSING")) (tag_buffer ++ bytes)
          (adjust_read_que_index w.ring (length bytes) (arriving w.rest)).1
]

-- The part behind the first loop.
unfoldable pub read_frame : Waited (List ℕ) → Result
read_frame w = elim w.got [
  | none ↦ gave_up w.ring
  | some tag_buffer ↦
      if not (ends_tag tag_buffer) then skip_one w.ring w.rest else elim (scan_tag tag_buffer) [
        | none ↦ skip_one w.ring w.rest
        | some (a_tag, temp, chksum) ↦
            if bounded temp == 0
            then skip_one w.ring w.rest
            else hand_over tag_buffer a_tag chksum (
                data_loop (bounded temp)
                  (adjust_read_que_index w.ring (length tag_buffer) (arriving w.rest)).1
                  (drop 1 w.rest))
      ]
]

unfoldable pub process_que : CircularQueue → List (List ℕ) → Result
process_que q deliveries = read_frame (tag_loop q deliveries)
