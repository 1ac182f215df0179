-- ===== src/Crc16/Detect.antt =====
-- What the CRC of a text tells: damage to one byte or to two neighbours always shows.
use flimg.Prelude.{
  ℕ, ◌+◌, ◌*◌, ◌/◌, ◌%◌, ◌^◌, ◌<◌, bit_and, bit_xor, ◌≡◌, refl, sym, ap, ap₂, ◌∙◌, arith,
}
use flimg.Prelude.{◌≢◌, ◌⊎◌, inl, inr, List, [], ◌∷◌, ◌++◌}
use flimg.Prelude.Bits.{
  bit_xor_injective, bit_xor_comm, bit_xor-lt, bit_and_low, bit_xor_right_comm, bit_xor_beside,
}
use flimg.Crc16.{
  Ccrc16, reset, val, update, update_all, shift_rounds, crc16, hex_digit, sval, scrc16,
}
use flimg.Crc16.Rounds.{shift_rounds-lt, shift_rounds_injective, shift_rounds-bit_xor}

-- The register holds sixteen bits.
abbrev pub IsWord : Ccrc16 → Type 0
IsWord s = s.crcval < 2 ^ 16

byte_mask : (c : ℕ) → bit_and c 0xFF ≡ c % 256
byte_mask c = bit_and_low 8 c 0xFF refl

xor_byte-lt : (x c : ℕ) → x < 2 ^ 16 → bit_xor x (bit_and c 0xFF) < 2 ^ 16
xor_byte-lt x c h = bit_xor-lt 16 x (bit_and c 0xFF) h (omega (arith, byte_mask c))

pub update-IsWord : (s : Ccrc16) (c : ℕ) → IsWord s → IsWord (update s c)
unfolding update
update-IsWord s c h = shift_rounds-lt 8 _ (xor_byte-lt s.crcval c h)

pub update_all-IsWord : (cs : List ℕ) (s : Ccrc16) → IsWord s → IsWord (update_all s cs)
unfolding update_all
update_all-IsWord [] s h = h
update_all-IsWord (c ∷ cs) s h = update_all-IsWord cs _ (update-IsWord s (bit_and c 0xFF) h)

pub reset-IsWord : IsWord reset
unfolding reset
reset-IsWord = omega arith

-- Behind equal bytes the registers are equal only if they were before.
update_injective :
    (s t : Ccrc16) (c : ℕ)
    → IsWord s
    → IsWord t
    → (update s c).crcval ≡ (update t c).crcval
    → s.crcval ≡ t.crcval
unfolding update
update_injective s t c p q e =
    bit_xor_injective s.crcval t.crcval (bit_and c 0xFF)
      (shift_rounds_injective 8 _ _ (xor_byte-lt s.crcval c p) (xor_byte-lt t.crcval c q) e)

pub update_all_injective :
    (cs : List ℕ) (s t : Ccrc16)
    → IsWord s
    → IsWord t
    → (update_all s cs).crcval ≡ (update_all t cs).crcval
    → s.crcval ≡ t.crcval
unfolding update_all
update_all_injective [] s t p q e = e
update_all_injective (c ∷ cs) s t p q e =
    let m = bit_and c 0xFF in
    update_injective s t m p q
      (update_all_injective cs _ _ (update-IsWord s m p) (update-IsWord t m q) e)

pub update_all-append :
    (xs ys : List ℕ) (s : Ccrc16) → update_all s (xs ++ ys) ≡ update_all (update_all s xs) ys
unfolding update_all
update_all-append [] ys s = refl
update_all-append (x ∷ xs) ys s = update_all-append xs ys (update s (bit_and x 0xFF))

-- Two bytes as the one number that the register is joined with.
two_updates :
    (s : Ccrc16) (a b : ℕ)
    → a < 256
    → b < 256
    → (update (update s a) b).crcval
      ≡ shift_rounds 8 (shift_rounds 8 (bit_xor (b * 2 ^ 8 + a) s.crcval))
unfolding update
two_updates s a b p q = ap (shift_rounds 8) (
    ap (λ t. bit_xor (shift_rounds 8 (bit_xor s.crcval (bit_and a 0xFF))) t)
      (omega (arith, byte_mask b))
    ∙ sym (shift_rounds-bit_xor 8 (bit_xor s.crcval (bit_and a 0xFF)) b)
    ∙ ap (shift_rounds 8) joined)
  where
    joined :
        bit_xor (bit_xor s.crcval (bit_and a 0xFF)) (b * 2 ^ 8) ≡ bit_xor (b * 2 ^ 8 + a) s.crcval
    joined = cc (
      bit_xor_right_comm s.crcval (bit_and a 0xFF) (b * 2 ^ 8),
      bit_xor_comm s.crcval (b * 2 ^ 8),
      bit_xor_right_comm (b * 2 ^ 8) s.crcval (bit_and a 0xFF),
      bit_xor_beside 8 b a p,
      let e : bit_and a 0xFF ≡ a = omega (arith, byte_mask a) in e,
    )

two_updates_injective :
    (s : Ccrc16) (a b c d : ℕ)
    → IsWord s
    → a < 256
    → b < 256
    → c < 256
    → d < 256
    → (update (update s a) b).crcval ≡ (update (update s c) d).crcval
    → (a ≡ c) × (b ≡ d)
two_updates_injective s a b c d w p q r t e =
    let ab = bit_xor (b * 2 ^ 8 + a) s.crcval in
    let cd = bit_xor (d * 2 ^ 8 + c) s.crcval in
    let abw : ab < 2 ^ 16 = bit_xor-lt 16 (b * 2 ^ 8 + a) s.crcval (omega arith) w in
    let cdw : cd < 2 ^ 16 = bit_xor-lt 16 (d * 2 ^ 8 + c) s.crcval (omega arith) w in
    let rounds =
      shift_rounds_injective 8 _ _ (shift_rounds-lt 8 ab abw) (shift_rounds-lt 8 cd cdw)
        (sym (two_updates s a b p q) ∙ e ∙ two_updates s c d r t) in
    let sums =
      bit_xor_injective (b * 2 ^ 8 + a) (d * 2 ^ 8 + c) s.crcval
        (shift_rounds_injective 8 ab cd abw cdw rounds) in
    omega arith

val_lem : (s : Ccrc16) → IsWord s → val s ≡ s.crcval
unfolding val
val_lem s h = omega (arith, bit_and_low 16 s.crcval 0xFFFF refl)

-- A text's CRC has sixteen bits.
pub crc16-lt : (s : List ℕ) → crc16 s < 2 ^ 16
unfolding crc16 val
crc16-lt s = omega (arith, bit_and_low 16 (update_all reset s).crcval 0xFFFF refl)

-- Equal checksums of two texts are equal registers.
crc16_register :
    (s t : List ℕ) → crc16 s ≡ crc16 t → (update_all reset s).crcval ≡ (update_all reset t).crcval
unfolding crc16
crc16_register s t e =
    sym (val_lem (update_all reset s) (update_all-IsWord s reset reset-IsWord))
    ∙ e
    ∙ val_lem (update_all reset t) (update_all-IsWord t reset reset-IsWord)

hex_digit_injective : (x y : ℕ) → x < 16 → y < 16 → hex_digit x ≡ hex_digit y → x ≡ y
unfolding hex_digit
hex_digit_injective x y p q e = ground arith

cons-eq : {x y : ℕ} {xs ys : List ℕ} → x ∷ xs ≡ y ∷ ys → (x ≡ y) × (xs ≡ ys)
cons-eq e = ground arith

-- Four hex digits tell any two sixteen-bit values apart.
pub sval_injective : (x y : ℕ) → x < 2 ^ 16 → y < 2 ^ 16 → sval x ≡ sval y → x ≡ y
unfolding sval
sval_injective x y p q e = ground (
  arith,
  hex_digit_injective (x / 4096 % 16) (y / 4096 % 16),
  hex_digit_injective (x / 256 % 16) (y / 256 % 16),
  hex_digit_injective (x / 16 % 16) (y / 16 % 16),
  hex_digit_injective (x % 16) (y % 16),
)

-- The register behind a text with the bytes `a b` in it.
register_at :
    (xs ys : List ℕ) (a b : ℕ)
    → a < 256
    → b < 256
    → update_all reset (xs ++ a ∷ b ∷ ys)
      ≡ update_all (update (update (update_all reset xs) a) b) ys
unfolding update_all
register_at xs ys a b p q =
    update_all-append xs (a ∷ b ∷ ys) reset
    ∙ ap₂ (λ m n. update_all (update (update (update_all reset xs) m) n) ys)
        (byte_mask a ∙ omega arith) (byte_mask b ∙ omega arith)

same_print :
    (xs ys : List ℕ) (a b c d : ℕ)
    → a < 256
    → b < 256
    → c < 256
    → d < 256
    → scrc16 (xs ++ a ∷ b ∷ ys) ≡ scrc16 (xs ++ c ∷ d ∷ ys)
    → (a ≡ c) × (b ≡ d)
unfolding scrc16
same_print xs ys a b c d p q r t e =
    let s = update_all reset xs in
    let w : IsWord s = update_all-IsWord xs reset reset-IsWord in
    let registers =
      crc16_register (xs ++ a ∷ b ∷ ys) (xs ++ c ∷ d ∷ ys)
        (sval_injective _ _ (crc16-lt (xs ++ a ∷ b ∷ ys)) (crc16-lt (xs ++ c ∷ d ∷ ys)) e) in
    let behind =
      ap (λ (u : Ccrc16). u.crcval) (sym (register_at xs ys a b p q))
      ∙ registers
      ∙ ap (λ (u : Ccrc16). u.crcval) (register_at xs ys c d r t) in
    two_updates_injective s a b c d w p q r t (
      update_all_injective ys (update (update s a) b) (update (update s c) d)
        (update-IsWord _ b (update-IsWord s a w)) (update-IsWord _ d (update-IsWord s c w)) behind)

-- Damage to one byte, or to two bytes that stand side by side, changes the CRC print of a text.
pub scrc16_burst :
    (xs ys : List ℕ) (a b c d : ℕ)
    → a < 256
    → b < 256
    → c < 256
    → d < 256
    → (a ≢ c) ⊎ (b ≢ d)
    → scrc16 (xs ++ a ∷ b ∷ ys) ≢ scrc16 (xs ++ c ∷ d ∷ ys)
scrc16_burst xs ys a b c d p q r t (inl ne) e = ne (same_print xs ys a b c d p q r t e).0
scrc16_burst xs ys a b c d p q r t (inr ne) e = ne (same_print xs ys a b c d p q r t e).1
