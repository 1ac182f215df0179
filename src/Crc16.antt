-- ===== src/Crc16.antt =====
-- The CRC of an Amp block: class `Ccrc16` of src/include/crc16.h.
pub mod Rounds
pub mod Detect
mod Tests
use flimg.Prelude.{
  ℕ, zero, suc, ◌+◌, ◌-◌, ◌/◌, ◌%◌, bit_and, bit_xor, List, [], ◌∷◌, ◌==◌, ltb, if◌then◌else◌,
}

-- The object's one word of state, `crcval`: an `unsigned int` of 32 bits.
pub record Ccrc16 : Type 0 where
  pub crcval : ℕ

-- The constructor, and `reset`.
unfoldable pub reset : Ccrc16
reset = record { crcval = 0xFFFF }

-- `crcval & 0xFFFF`
unfoldable pub val : Ccrc16 → ℕ
val c = bit_and c.crcval 0xFFFF

-- One round of the loop in `update`.
unfoldable pub shift_round : ℕ → ℕ
shift_round crcval = if bit_and crcval 1 == 1 then bit_xor (crcval / 2) 0xA001 else crcval / 2

unfoldable pub shift_rounds : ℕ → ℕ → ℕ
shift_rounds zero crcval = crcval
shift_rounds (suc n) crcval = shift_rounds n (shift_round crcval)

unfoldable pub update : Ccrc16 → ℕ → Ccrc16
update s c = record { crcval = shift_rounds 8 (bit_xor s.crcval (bit_and c 0xFF)) }

-- The loop over the characters of `crc16(string)`.
unfoldable pub update_all : Ccrc16 → List ℕ → Ccrc16
update_all s [] = s
update_all s (c ∷ cs) = update_all (update s (bit_and c 0xFF)) cs

-- `crc16(string)`: the object's state is reset first.
unfoldable pub crc16 : List ℕ → ℕ
unfolding reset val update_all update shift_rounds shift_round
crc16 s = val (update_all reset s)

-- One digit of the `%X` conversion.
unfoldable pub hex_digit : ℕ → ℕ
hex_digit d = if ltb d 10 then b'0' + d else b'A' - 10 + d

-- `sval`: the `%04X` print of a value of sixteen bits.
unfoldable pub sval : ℕ → List ℕ
unfolding hex_digit
sval v =
    hex_digit (v / 4096 % 16)
    ∷ hex_digit (v / 256 % 16)
    ∷ hex_digit (v / 16 % 16)
    ∷ hex_digit (v % 16)
    ∷ []

unfoldable pub scrc16 : List ℕ → List ℕ
unfolding sval crc16
scrc16 s = sval (crc16 s)
