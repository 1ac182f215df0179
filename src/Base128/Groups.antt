-- ===== src/Base128/Groups.antt =====
-- One group of `base128`: seven bytes, eight 7-bit values, and back.
use flimg.Prelude.{
  ℕ, ◌+◌, ◌*◌, ◌/◌, ◌%◌, ◌^◌, ◌<◌, bit_and, bit_or, ◌≡◌, refl, arith, [], ◌∷◌, ◌==◌, true, ap, ◌∙◌,
}
use native.Mathlib.Nat.{mod-lt, one-le-pow}
use flimg.Prelude.Table.{each_below, eq_by_table}
use flimg.Prelude.Bits.{bit_or_beside, bit_and_low}
use flimg.Base128.{pack, unpack}

-- `((a << k) & M) | r` for a byte `a` and `k` low bits `r`: the mask keeps `m` values of `a`.
joined :
    (k M m : ℕ)
    → each_below 256 (λ a. bit_and (a * 2 ^ k) M == a % m * 2 ^ k) ≡ true
    → (a r : ℕ) → a < 256
    → r < 2 ^ k
    → bit_or (bit_and (a * 2 ^ k) M) r ≡ a % m * 2 ^ k + r
joined k M m table a r p q =
    ap (λ t. bit_or t r)
      (eq_by_table (λ a. bit_and (a * 2 ^ k) M) (λ a. a % m * 2 ^ k) 256 table a p)
    ∙ bit_or_beside k (a % m) r q

-- `((a << j) & M) | ((b >> k) & L)` for bytes.
field :
    (j M m k L : ℕ)
    → each_below 256 (λ a. bit_and (a * 2 ^ j) M == a % m * 2 ^ j) ≡ true
    → L + 1 ≡ 2 ^ j
    → (a b : ℕ) → a < 256
    → bit_or (bit_and (a * 2 ^ j) M) (bit_and (b / 2 ^ k) L) ≡ a % m * 2 ^ j + b / 2 ^ k % 2 ^ j
field j M m k L table e a b p =
    joined j M m table a (bit_and (b / 2 ^ k) L) p
      (rw low (mod-lt (b / 2 ^ k) (one-le-pow j 2 (omega arith))))
    ∙ ap (λ (t : ℕ). a % m * 2 ^ j + t) low
  where
    low : bit_and (b / 2 ^ k) L ≡ b / 2 ^ k % 2 ^ j
    low = bit_and_low j (b / 2 ^ k) L e

-- The eight values as sums.
pub pack_lem :
    (a b c d e f g : ℕ)
    → a < 256
    → b < 256
    → c < 256
    → d < 256
    → e < 256
    → f < 256
    → g < 256
    → pack a b c d e f g
      ≡ (a / 2 % 128)
        ∷ (a % 2 * 64 + b / 4 % 64)
        ∷ (b % 4 * 32 + c / 8 % 32)
        ∷ (c % 8 * 16 + d / 16 % 16)
        ∷ (d % 16 * 8 + e / 32 % 8)
        ∷ (e % 32 * 4 + f / 64 % 4)
        ∷ (f % 64 * 2 + g / 128 % 2)
        ∷ (g % 128)
        ∷ []
unfolding pack each_below
pack_lem a b c d e f g ha hb hc hd he hf hg = cc (
  bit_and_low 7 (a / 2) 0x7F refl,
  field 6 0x40 2 2 0x3F refl refl a b ha,
  field 5 0x60 4 3 0x1F refl refl b c hb,
  field 4 0x70 8 4 0x0F refl refl c d hc,
  field 3 0x78 16 5 0x07 refl refl d e hd,
  field 2 0x7C 32 6 0x03 refl refl e f he,
  field 1 0x7E 64 7 0x01 refl refl f g hf,
  bit_and_low 7 g 0x7F refl,
)

-- The seven bytes as sums.
unpack_lem :
    (a b c d e f g h : ℕ)
    → a < 128
    → b < 128
    → c < 128
    → d < 128
    → e < 128
    → f < 128
    → g < 128
    → h < 128
    → unpack a b c d e f g h
      ≡ (a % 128 * 2 + b / 64 % 2)
        ∷ (b % 64 * 4 + c / 32 % 4)
        ∷ (c % 32 * 8 + d / 16 % 8)
        ∷ (d % 16 * 16 + e / 8 % 16)
        ∷ (e % 8 * 32 + f / 4 % 32)
        ∷ (f % 4 * 64 + g / 2 % 64)
        ∷ (g % 2 * 128 + h)
        ∷ []
unfolding unpack each_below
unpack_lem a b c d e f g h ha hb hc hd he hf hg hh = cc (
  field 1 0xFE 128 6 0x01 refl refl a b (omega arith),
  field 2 0xFC 64 5 0x03 refl refl b c (omega arith),
  field 3 0xF8 32 4 0x07 refl refl c d (omega arith),
  field 4 0xF0 16 3 0x0F refl refl d e (omega arith),
  field 5 0xE0 8 2 0x1F refl refl e f (omega arith),
  field 6 0xC0 4 1 0x3F refl refl f g (omega arith),
  joined 7 0x80 2 refl g h (omega arith) hh,
  seven_bits,
)
  where
    seven_bits : bit_and h 0x7F ≡ h
    seven_bits = omega (arith, bit_and_low 7 h 0x7F refl)

-- One byte from the values on its two sides.
byte_1 : (a b : ℕ) → a < 256 → a / 2 % 128 % 128 * 2 + (a % 2 * 64 + b / 4 % 64) / 64 % 2 ≡ a
byte_1 a b h = omega arith

byte_2 :
    (a b c : ℕ)
    → b < 256
    → (a % 2 * 64 + b / 4 % 64) % 64 * 4 + (b % 4 * 32 + c / 8 % 32) / 32 % 4 ≡ b
byte_2 a b c h = omega arith

byte_3 :
    (b c d : ℕ)
    → c < 256
    → (b % 4 * 32 + c / 8 % 32) % 32 * 8 + (c % 8 * 16 + d / 16 % 16) / 16 % 8 ≡ c
byte_3 b c d h = omega arith

byte_4 :
    (c d e : ℕ)
    → d < 256
    → (c % 8 * 16 + d / 16 % 16) % 16 * 16 + (d % 16 * 8 + e / 32 % 8) / 8 % 16 ≡ d
byte_4 c d e h = omega arith

byte_5 :
    (d e f : ℕ)
    → e < 256
    → (d % 16 * 8 + e / 32 % 8) % 8 * 32 + (e % 32 * 4 + f / 64 % 4) / 4 % 32 ≡ e
byte_5 d e f h = omega arith

byte_6 :
    (e f g : ℕ)
    → f < 256
    → (e % 32 * 4 + f / 64 % 4) % 4 * 64 + (f % 64 * 2 + g / 128 % 2) / 2 % 64 ≡ f
byte_6 e f g h = omega arith

byte_7 : (f g : ℕ) → g < 256 → (f % 64 * 2 + g / 128 % 2) % 2 * 128 + g % 128 ≡ g
byte_7 f g h = omega arith

-- Unpacking gives the seven bytes back.
pub unpack_sums :
    (a b c d e f g : ℕ)
    → a < 256
    → b < 256
    → c < 256
    → d < 256
    → e < 256
    → f < 256
    → g < 256
    → unpack
        (a / 2 % 128)
        (a % 2 * 64 + b / 4 % 64)
        (b % 4 * 32 + c / 8 % 32)
        (c % 8 * 16 + d / 16 % 16)
        (d % 16 * 8 + e / 32 % 8)
        (e % 32 * 4 + f / 64 % 4)
        (f % 64 * 2 + g / 128 % 2)
        (g % 128)
      ≡ a ∷ b ∷ c ∷ d ∷ e ∷ f ∷ g ∷ []
unpack_sums a b c d e f g ha hb hc hd he hf hg =
    unpack_lem _ _ _ _ _ _ _ _ (omega arith) (omega arith) (omega arith) (omega arith) (omega arith)
      (omega arith) (omega arith) (omega arith)
    ∙ cc (
      byte_1 a b ha,
      byte_2 a b c hb,
      byte_3 b c d hc,
      byte_4 c d e hd,
      byte_5 d e f he,
      byte_6 e f g hf,
      byte_7 f g hg,
    )
