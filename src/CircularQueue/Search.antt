-- ===== src/CircularQueue/Search.antt =====
-- The look-ahead operations that stop at a character, and the one that sums up.
use flimg.Prelude.{
  ℕ, zero, suc, ◌+◌, ◌%◌, ◌^◌, ◌<◌, ◌≡◌, ◌≢◌, refl, sym, ap, ap₂, ◌∙◌, arith, bit_and, bit_xor,
  Bool, true, false,
}
use flimg.Prelude.{List, [], ◌∷◌, ◌++◌, All, length, length-append, take, drop_all, get_or}
use flimg.Prelude.{◌==◌, if◌then◌else◌}
use native.Mathlib.Decide.{dec_lt}
use native.Mathlib.Nat.{mod-mod, mod-add-mod}
use flimg.Prelude.Bits.{bit_and_low}
use flimg.Crc16.{Ccrc16, reset, val, update, update_all, crc16, shift_rounds}
use flimg.CircularQueue.{
  CircularQueue, to_terminator_loop, to_terminator_bytes, for_character_loop,
  look_ahead_for_character, crc_bytes, look_ahead_crc, look_ahead_bytes, look_ahead_to_terminator,
}
use flimg.CircularQueue.Window.{window}
use flimg.CircularQueue.Valid.{IsValid, masked}
use flimg.CircularQueue.Contents.{contents, length-contents, look_ahead_bytes-eq-take}

-- Up to the first terminator, which is the last character put out.
abbrev pub until : ℕ → List ℕ → List ℕ
until terminator [] = []
until terminator (c ∷ cs) =
    let rest = until terminator cs in c ∷ (if c == terminator then [] else rest)

-- How many characters are looked at for the first `character`, behind `seen`, and if it is there.
abbrev pub position : ℕ → ℕ → List ℕ → ℕ × Bool
position character seen [] = (seen, false)
position character seen (c ∷ cs) =
    let rest = position character (seen + 1) cs in if c == character then (seen + 1, true) else rest

module _ {po2 : ℕ} {q : CircularQueue} (v : IsValid po2 q) where
  here :
      (h k : ℕ) → h % q.buffer_size ≡ k % q.buffer_size → bit_and h q.index_mask ≡ k % q.buffer_size
  here h k e = masked v h ∙ ap (λ s. h % s) (sym v.sized) ∙ e

  next :
      (h k : ℕ)
      → h % q.buffer_size ≡ k % q.buffer_size
      → (bit_and h q.index_mask + 1) % q.buffer_size ≡ (k + 1) % q.buffer_size
  next h k e = ap (λ t. (t + 1) % q.buffer_size) (here h k e) ∙ mod-add-mod k q.buffer_size 1

  to_terminator_loop-until :
      (terminator size count h k : ℕ)
      → h % q.buffer_size ≡ k % q.buffer_size
      → to_terminator_loop q terminator size count h
        ≡ until terminator (take size (window q.buffer q.buffer_size k count))
  unfolding to_terminator_loop
  to_terminator_loop-until terminator zero count h k e = refl
  to_terminator_loop-until terminator (suc size) zero h k e = refl
  to_terminator_loop-until terminator (suc size) (suc count) h k e =
      ap₂ (λ c rest. c ∷ (if c == terminator then [] else rest))
        (ap (λ i. get_or q.buffer i 0) (here h k e))
        (to_terminator_loop-until terminator size count (bit_and h q.index_mask + 1) (k + 1)
          (next h k e))

  for_character_loop-position :
      (character count h k seen : ℕ)
      → h % q.buffer_size ≡ k % q.buffer_size
      → for_character_loop q character count h seen
        ≡ position character seen (window q.buffer q.buffer_size k count)
  unfolding for_character_loop
  for_character_loop-position character zero h k seen e = refl
  for_character_loop-position character (suc count) h k seen e =
      ap₂ {B = ℕ × Bool} (λ c rest. if c == character then (seen + 1, true) else rest)
        (ap (λ i. get_or q.buffer i 0) (here h k e))
        (for_character_loop-position character count (bit_and h q.index_mask + 1) (k + 1) (seen + 1)
          (next h k e))

pub until_found :
    (t : ℕ) (front rest : List ℕ)
    → All (λ c. c ≢ t) front
    → until t (front ++ t ∷ rest) ≡ front ++ t ∷ []
until_found t [] rest h = ground arith
until_found t (c ∷ front) rest (h, hs) = ground (arith, until_found t front rest hs)

until_absent : (t : ℕ) (cs : List ℕ) → All (λ c. c ≢ t) cs → until t cs ≡ cs
until_absent t [] h = refl
until_absent t (c ∷ cs) (h, hs) = ground (arith, until_absent t cs hs)

position_found :
    (t seen : ℕ) (front rest : List ℕ)
    → All (λ c. c ≢ t) front
    → position t seen (front ++ t ∷ rest) ≡ (seen + length front + 1, true)
position_found t seen [] rest h = ground arith
position_found t seen (c ∷ front) rest (h, hs) =
    ground (arith, position_found t (seen + 1) front rest hs)

position_absent :
    (t seen : ℕ) (cs : List ℕ)
    → All (λ c. c ≢ t) cs
    → position t seen cs ≡ (seen + length cs, false)
position_absent t seen [] h = ground arith
position_absent t seen (c ∷ cs) (h, hs) = ground (arith, position_absent t (seen + 1) cs hs)

pub to_terminator_bytes-until :
    {po2 : ℕ} {q : CircularQueue} (terminator n : ℕ)
    → IsValid po2 q
    → to_terminator_bytes q terminator n ≡ until terminator (take n (contents q))
unfolding to_terminator_bytes
to_terminator_bytes-until {po2} {q} terminator n v =
    rw v.running
      (to_terminator_loop-until v terminator n q.buffer_count q.read_index q.read_index refl)

-- `lookAheadToTerminator` puts out the bytes up to the first terminator, with it, if it is among
-- the first `n` bytes; otherwise the first `n` bytes, or all if there are no more.
pub look_ahead_to_terminator_lem :
    {po2 : ℕ} {q : CircularQueue} (terminator n : ℕ) (incoming : List ℕ)
    → IsValid po2 q
    → 0 < n
    → (look_ahead_to_terminator q terminator n incoming).0 ≡ until terminator (take n (contents q))
unfolding look_ahead_to_terminator
look_ahead_to_terminator_lem terminator zero incoming v pos = elim pos [ ]
look_ahead_to_terminator_lem terminator (suc n) incoming v pos =
    to_terminator_bytes-until terminator (suc n) v

-- `lookAheadForCharacter` on a ring that holds a byte: how many bytes it has looked at, up to the
-- first that fits, and whether there is one.
pub look_ahead_for_character_lem :
    {po2 : ℕ} {q : CircularQueue} (character : ℕ) (found : Bool) (incoming : List ℕ)
    → IsValid po2 q
    → 0 < q.buffer_count
    → (look_ahead_for_character q character found incoming).0 ≡ position character 0 (contents q)
unfolding look_ahead_for_character
look_ahead_for_character_lem {po2} {q} character found incoming v pos =
    let held : (q.buffer_count == 0) ≡ false = ground arith in
    simp (held, v.running)
      (for_character_loop-position v character q.buffer_count q.read_index q.read_index 0 refl)

nothing_seen :
    (q : CircularQueue) (character : ℕ) (incoming : List ℕ)
    → q.buffer_count ≡ 0
    → (look_ahead_for_character q character false incoming).0 ≡ (0, false)
unfolding look_ahead_for_character
nothing_seen q character incoming e =
    let empty : (q.buffer_count == 0) ≡ true = ground arith in simp empty

-- With its flag cleared the same holds of an empty ring.
pub look_ahead_for_character_cleared :
    {po2 : ℕ} {q : CircularQueue} (character : ℕ) (incoming : List ℕ)
    → IsValid po2 q
    → (look_ahead_for_character q character false incoming).0 ≡ position character 0 (contents q)
look_ahead_for_character_cleared {po2} {q} character incoming v = elim (dec_lt 0 q.buffer_count) [
  | yes held ↦ look_ahead_for_character_lem character false incoming v held
  | no empty ↦
      nothing_seen q character incoming (omega arith)
      ∙ sym (
          ap {B = ℕ × Bool} (position character 0)
            (drop_all 0 (contents q) (omega (arith, length-contents q))))
]

-- The count and the flag of `lookAheadForCharacter` say where the first such character stands: if
-- it stands behind `front`, the count is one more than the length of `front`.
pub look_ahead_for_character_found :
    {po2 : ℕ} {q : CircularQueue} (character : ℕ) (found : Bool) (incoming front rest : List ℕ)
    → IsValid po2 q
    → contents q ≡ front ++ character ∷ rest
    → All (λ c. c ≢ character) front
    → (look_ahead_for_character q character found incoming).0 ≡ (length front + 1, true)
look_ahead_for_character_found {po2} {q} character found incoming front rest v e h =
    look_ahead_for_character_lem character found incoming v held
    ∙ ap {B = ℕ × Bool} (position character 0) e
    ∙ position_found character 0 front rest h
    ∙ ap {B = ℕ × Bool} (λ n. (n + 1, true)) (omega arith)
  where
    held : 0 < q.buffer_count
    held = omega (arith, length-contents q, ap length e, length-append front (character ∷ rest))

crc_bytes-eq-update_all : (bytes : List ℕ) (s : Ccrc16) → crc_bytes s bytes ≡ update_all s bytes
unfolding crc_bytes update_all
crc_bytes-eq-update_all [] s = refl
crc_bytes-eq-update_all (c ∷ cs) s =
    ap (λ t. crc_bytes t cs) masked_once ∙ crc_bytes-eq-update_all cs (update s (bit_and c 0xFF))
  where
    masked_twice : bit_and c 0xFF ≡ bit_and (bit_and c 0xFF) 0xFF
    masked_twice = sym (
        bit_and_low 8 (bit_and c 0xFF) 0xFF refl
        ∙ ap (λ t. t % 2 ^ 8) (bit_and_low 8 c 0xFF refl)
        ∙ mod-mod c (2 ^ 8)
        ∙ sym (bit_and_low 8 c 0xFF refl))

    masked_once : update s c ≡ update s (bit_and c 0xFF)
    masked_once =
        unfold update in
        ap (λ t. record { crcval = shift_rounds 8 (bit_xor s.crcval t) }) masked_twice

-- `lookAheadCRC` of a size above 0 with its reset flag set puts out that many bytes, or all if there are no
-- more, and the CRC of just these bytes.
pub look_ahead_crc_lem :
    {po2 : ℕ} {q : CircularQueue} (size crc_val : ℕ) (incoming : List ℕ)
    → IsValid po2 q
    → ((look_ahead_crc q (suc size) true crc_val incoming).0 ≡ take (suc size) (contents q))
      × ((look_ahead_crc q (suc size) true crc_val incoming).1
          ≡ crc16 (take (suc size) (contents q)))
unfolding look_ahead_crc crc16
look_ahead_crc_lem {po2} {q} size crc_val incoming v =
    let bytes = look_ahead_bytes-eq-take (suc size) v in
    (
      bytes,
      ap val (
          crc_bytes-eq-update_all (look_ahead_bytes q (suc size)) reset
          ∙ ap (update_all reset) bytes),
    )
