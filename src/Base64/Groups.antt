-- ===== src/Base64/Groups.antt =====
-- One group of `base64`: three bytes, four characters, and back.
use flimg.Prelude.{
  ℕ, ◌+◌, ◌*◌, ◌/◌, ◌%◌, ◌^◌, ◌<◌, bit_and, bit_or, ◌≡◌, refl, arith, [], ◌∷◌, ◌==◌, false, ap, ◌∙◌,
}
use flimg.Prelude.Bits.{bit_or_beside, bit_and_low}
use flimg.Base64.{etable, dtable, group_bytes}

-- A character of the table.
pub dtable-etable : (unset i : ℕ) → i < 64 → dtable unset (etable i) ≡ i
unfolding dtable etable
dtable-etable unset i h = ground arith

pub etable_is_no_pad : (i : ℕ) → i < 64 → (etable i == b'=') ≡ false
unfolding etable
etable_is_no_pad i h = ground arith

-- The index of a character: `k` low bits of one byte in front of the `j` high bits of the next.
index_of :
    (k M m j x y : ℕ)
    → M + 1 ≡ 2 ^ m
    → y / 2 ^ j < 2 ^ k
    → bit_or (bit_and x M * 2 ^ k) (y / 2 ^ j) ≡ x % 2 ^ m * 2 ^ k + y / 2 ^ j
index_of k M m j x y e h =
    ap (λ t. bit_or (t * 2 ^ k) (y / 2 ^ j)) (bit_and_low m x M e)
    ∙ bit_or_beside k (x % 2 ^ m) (y / 2 ^ j) h

abbrev pub second_index : ℕ → ℕ → ℕ
second_index x y = x % 4 * 16 + y / 16

abbrev pub third_index : ℕ → ℕ → ℕ
third_index y z = y % 16 * 4 + z / 64

pub second_lem : (x y : ℕ) → y < 256 → bit_or (bit_and x 3 * 2 ^ 4) (y / 2 ^ 4) ≡ second_index x y
second_lem x y h = index_of 4 3 2 4 x y refl (omega arith)

pub third_lem : (y z : ℕ) → z < 256 → bit_or (bit_and y 0xF * 2 ^ 2) (z / 2 ^ 6) ≡ third_index y z
third_lem y z h = index_of 2 0xF 4 6 y z refl (omega arith)

first_byte :
    (x y : ℕ) → x < 256 → y < 256 → bit_or (x / 4 * 2 ^ 2) (second_index x y / 2 ^ 4) % 256 ≡ x
first_byte x y h l = omega (arith, bit_or_beside 2 (x / 4) (second_index x y / 2 ^ 4) (omega arith))

second_byte :
    (x y z : ℕ)
    → y < 256
    → z < 256
    → bit_or (second_index x y * 2 ^ 4) (third_index y z / 2 ^ 2) % 256 ≡ y
second_byte x y z h l =
    omega (arith, bit_or_beside 4 (second_index x y) (third_index y z / 2 ^ 2) (omega arith))

third_byte : (y z : ℕ) → z < 256 → bit_or (third_index y z * 2 ^ 6) (z % 64) % 256 ≡ z
third_byte y z h = omega (arith, bit_or_beside 6 (third_index y z) (z % 64) (omega arith))

-- The characters of a group, without the bit operations.
pub four_bytes :
    (unset x y z : ℕ)
    → x < 256
    → y < 256
    → z < 256
    → group_bytes unset
        (etable (x / 4))
        (etable (second_index x y))
        (etable (third_index y z))
        (etable (z % 64))
      ≡ x ∷ y ∷ z ∷ []
unfolding group_bytes
four_bytes unset x y z hx hy hz =
    rw
      (
        etable_is_no_pad (third_index y z) (omega arith),
        etable_is_no_pad (z % 64) (omega arith),
        dtable-etable unset (x / 4) (omega arith),
        dtable-etable unset (second_index x y) (omega arith),
        dtable-etable unset (third_index y z) (omega arith),
        dtable-etable unset (z % 64) (omega arith),
        first_byte x y hx hy,
        second_byte x y z hy hz,
        third_byte y z hz,
      )
      refl

pub three_bytes :
    (unset x y : ℕ)
    → x < 256
    → y < 256
    → group_bytes unset (etable (x / 4)) (etable (second_index x y)) (etable (third_index y 0)) b'='
      ≡ x ∷ y ∷ []
unfolding group_bytes
three_bytes unset x y hx hy =
    rw
      (
        etable_is_no_pad (third_index y 0) (omega arith),
        dtable-etable unset (x / 4) (omega arith),
        dtable-etable unset (second_index x y) (omega arith),
        dtable-etable unset (third_index y 0) (omega arith),
        first_byte x y hx hy,
        second_byte x y 0 hy (omega arith),
      )
      refl

pub two_bytes :
    (unset x : ℕ)
    → x < 256
    → group_bytes unset (etable (x / 4)) (etable (second_index x 0)) b'=' b'=' ≡ x ∷ []
unfolding group_bytes
two_bytes unset x hx =
    rw
      (
        dtable-etable unset (x / 4) (omega arith),
        dtable-etable unset (second_index x 0) (omega arith),
        first_byte x 0 hx (omega arith),
      )
      refl
