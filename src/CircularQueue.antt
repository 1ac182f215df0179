-- ===== src/CircularQueue.antt =====
-- `Circular_queue` (src/utils/circular_queue.cxx): the ring of bytes between fldigi and the search
-- for block tags. Each operation is the body between the mutex calls, as one step; what the
-- callback `readData` (`receive_data_stream` of src/flimg.cxx) delivers is an argument.
pub mod Window
pub mod Valid
pub mod Contents
pub mod Search
pub mod Trace
pub mod Garbage
mod Tests
use flimg.Prelude.{
  ℕ, zero, suc, ◌+◌, ◌-◌, ◌*◌, ◌%◌, ◌^◌, bit_and, bit_or, Bool, true, false, not, ◌&&◌, List, [],
  ◌∷◌,
}
use flimg.Prelude.{ltb, leb, ◌==◌, if◌then◌else◌, get_or, set, length, replicate}
use flimg.Crc16.{Ccrc16, reset, val, update}

-- The members that the operations use. The indices are `int`s that are masked before each use, so
-- a value is its bit pattern.
pub record CircularQueue : Type 0 where
  pub buffer : List ℕ
  pub buffer_size : ℕ
  pub buffer_count : ℕ
  pub exit_thread : Bool
  pub index_mask : ℕ
  pub read_index : ℕ
  pub stalled : Bool
  pub write_index : ℕ
  pub crc_validate : Ccrc16

-- `index_mask |= (index_mask << 1)`, `n` times.
unfoldable pub widen_mask : ℕ → ℕ → ℕ
widen_mask zero mask = mask
widen_mask (suc n) mask = widen_mask n (bit_or mask (mask * 2))

-- `setUp` assigns neither index nor `stalled`, and the constructor does not either: they are what
-- the memory held, the arguments. `memset` clears the buffer.
unfoldable pub set_up : ℕ → ℕ → ℕ → Bool → CircularQueue
unfolding widen_mask reset
set_up po2 read_garbage write_garbage stalled_garbage = record {
  buffer = replicate (2 ^ po2) 0;
  buffer_size = 2 ^ po2;
  buffer_count = 0;
  exit_thread = false;
  index_mask = widen_mask (po2 - 1) 1;
  read_index = read_garbage;
  stalled = stalled_garbage;
  write_index = write_garbage;
  crc_validate = reset;
}

-- The body of the loop of `addToQueue` for a byte that there is room for.
unfoldable pub store : CircularQueue → ℕ → CircularQueue
store q c =
    let at = bit_and q.write_index q.index_mask in
    record q { buffer = set q.buffer at c; write_index = at + 1; buffer_count = q.buffer_count + 1 }

-- `addToQueue`; the list is the buffer with its size. A null buffer and a size below 1 do nothing,
-- like the empty list.
unfoldable pub add_to_queue : CircularQueue → List ℕ → CircularQueue
add_to_queue q [] = q
add_to_queue q (c ∷ cs) =
    let rest = add_to_queue (store q c) cs in
    if leb q.buffer_size q.buffer_count then record q { stalled = true } else rest

-- `addToQueueNullFiltered`: a null character is passed over, with the index masked all the same.
unfoldable pub store_non_null : CircularQueue → ℕ → CircularQueue
store_non_null q c =
    if c == 0 then record q { write_index = bit_and q.write_index q.index_mask } else store q c

unfoldable pub add_to_queue_null_filtered : CircularQueue → List ℕ → CircularQueue
add_to_queue_null_filtered q [] = q
add_to_queue_null_filtered q (c ∷ cs) =
    let rest = add_to_queue_null_filtered (store_non_null q c) cs in
    if leb q.buffer_size q.buffer_count then record q { stalled = true } else rest

-- The two halves of `readQueData`: the callback, where `incoming` is what fldigi delivers in it,
-- and the block that ends a stall.
unfoldable pub refill : CircularQueue → ℕ → List ℕ → CircularQueue
refill q buffer_count incoming =
    if ltb buffer_count 32 then add_to_queue_null_filtered q incoming else q

unfoldable pub unstall : CircularQueue → ℕ → CircularQueue
unstall q buffer_count =
    if q.stalled && ltb buffer_count q.buffer_size then record q { stalled = false } else q

unfoldable pub read_que_data : CircularQueue → ℕ → List ℕ → CircularQueue
read_que_data q buffer_count incoming = unstall (refill q buffer_count incoming) buffer_count

-- The byte at an index of the loops, after `temp_index &= index_mask`.
abbrev pub byte_at : CircularQueue → ℕ → ℕ
byte_at q temp_index = get_or q.buffer (bit_and temp_index q.index_mask) 0

-- The loop of `lookAhead`: what it copies, for `size` more bytes at most and `count` in the ring.
unfoldable pub look_ahead_loop : CircularQueue → (size count temp_index : ℕ) → List ℕ
look_ahead_loop q zero count temp_index = []
look_ahead_loop q (suc size) zero temp_index = []
look_ahead_loop q (suc size) (suc count) temp_index =
    byte_at q temp_index ∷ look_ahead_loop q size count (bit_and temp_index q.index_mask + 1)

-- The bytes that `lookAhead` puts out; their number is the result.
unfoldable pub look_ahead_bytes : CircularQueue → ℕ → List ℕ
unfolding look_ahead_loop
look_ahead_bytes q size =
    if q.exit_thread then [] else look_ahead_loop q size q.buffer_count q.read_index

unfoldable pub look_ahead : CircularQueue → ℕ → List ℕ → List ℕ × CircularQueue
look_ahead q zero incoming = ([], q)
look_ahead q (suc size) incoming =
    let bytes = look_ahead_bytes q (suc size) in
    (bytes, read_que_data q (q.buffer_count - length bytes) incoming)

-- The CRC of the bytes that `lookAheadCRC` goes over.
unfoldable pub crc_bytes : Ccrc16 → List ℕ → Ccrc16
crc_bytes s [] = s
crc_bytes s (c ∷ cs) = crc_bytes (update s c) cs

-- `lookAheadCRC`: the bytes, the value left in `*crcVal`, which held `crc_val`, and the state. A
-- size below 1 does nothing; otherwise `*reset` is 0 afterwards.
unfoldable pub look_ahead_crc : CircularQueue → ℕ → Bool → ℕ → List ℕ → List ℕ × ℕ × CircularQueue
look_ahead_crc q zero reset_flag crc_val incoming = ([], crc_val, q)
look_ahead_crc q (suc size) reset_flag crc_val incoming =
    let bytes = look_ahead_bytes q (suc size) in
    let start = if reset_flag then reset else q.crc_validate in
    let crc = crc_bytes start bytes in
    let q' =
      read_que_data (record q { crc_validate = crc }) (q.buffer_count - length bytes) incoming in
    (bytes, val crc, q')

-- The part of `adjustReadQueIndex` under the mutex, for `count` ≥ 1, with the clamped count.
unfoldable pub adjust_count : CircularQueue → ℕ → ℕ
adjust_count q count =
    if ltb 0 q.buffer_count && leb q.buffer_count count then q.buffer_count else count

-- Its two statements: taking `n` bytes out, and setting the indices of an empty ring alike.
unfoldable pub take_out : CircularQueue → ℕ → CircularQueue
take_out q n =
    if ltb 0 q.buffer_count
    then record q {
      buffer_count = q.buffer_count - n;
      read_index = bit_and (q.read_index + n) q.index_mask;
    }
    else q

unfoldable pub settle : CircularQueue → CircularQueue
settle q =
    if ltb q.buffer_count 1 then record q { buffer_count = 0; write_index = q.read_index } else q

unfoldable pub adjust_locked : CircularQueue → ℕ → CircularQueue
adjust_locked q count = settle (take_out q (adjust_count q count))

unfoldable pub adjust_read_que_index : CircularQueue → ℕ → List ℕ → ℕ × CircularQueue
adjust_read_que_index q zero incoming = (0, q)
adjust_read_que_index q (suc n) incoming =
    let q' = adjust_locked q (suc n) in
    (adjust_count q (suc n), read_que_data q' q'.buffer_count incoming)

-- The loop of `lookAheadToTerminator`.
unfoldable pub to_terminator_loop : CircularQueue → ℕ → (max_len count temp_index : ℕ) → List ℕ
to_terminator_loop q terminator zero count temp_index = []
to_terminator_loop q terminator (suc max_len) zero temp_index = []
to_terminator_loop q terminator (suc max_len) (suc count) temp_index =
    let c = byte_at q temp_index in
    let rest =
      to_terminator_loop q terminator max_len count (bit_and temp_index q.index_mask + 1) in
    c ∷ (if c == terminator then [] else rest)

unfoldable pub to_terminator_bytes : CircularQueue → ℕ → ℕ → List ℕ
unfolding to_terminator_loop
to_terminator_bytes q terminator max_len =
    if q.exit_thread
    then []
    else to_terminator_loop q terminator max_len q.buffer_count q.read_index

unfoldable pub look_ahead_to_terminator : CircularQueue → ℕ → ℕ → List ℕ → List ℕ × CircularQueue
look_ahead_to_terminator q terminator zero incoming = ([], q)
look_ahead_to_terminator q terminator (suc n) incoming =
    let bytes = to_terminator_bytes q terminator (suc n) in
    (bytes, read_que_data q (q.buffer_count - length bytes) incoming)

-- The loop of `lookAheadForCharacter`: how far it goes, and whether the character was found.
unfoldable pub for_character_loop : CircularQueue → ℕ → (count temp_index seen : ℕ) → ℕ × Bool
for_character_loop q character zero temp_index seen = (seen, false)
for_character_loop q character (suc count) temp_index seen =
    let rest =
      for_character_loop q character count (bit_and temp_index q.index_mask + 1) (seen + 1) in
    if byte_at q temp_index == character then (seen + 1, true) else rest

-- `found` is written only where the ring holds a byte.
unfoldable pub look_ahead_for_character :
    CircularQueue → ℕ → Bool → List ℕ → (ℕ × Bool) × CircularQueue
look_ahead_for_character q character found incoming =
    let result =
      if q.buffer_count == 0
      then (0, found)
      else if q.exit_thread
      then (0, false)
      else for_character_loop q character q.buffer_count q.read_index 0 in
    (result, read_que_data q (q.buffer_count - result.0) incoming)
