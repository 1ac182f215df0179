-- ===== src/Util/Digits.antt =====
-- What `uint2bin` and `str2hex` print reads back.
use flimg.Prelude.{
  ℕ, zero, suc, ◌+◌, ◌-◌, ◌*◌, ◌/◌, ◌%◌, ◌^◌, bit_and, ◌<◌, ◌≡◌, refl, sym, ap, ap₂, ◌∙◌, List, [],
  ◌∷◌,
}
use flimg.Prelude.{All, ltb, if◌then◌else◌, length}
use native.Mathlib.Nat.{one-le-pow, two-pow-succ}
use native.Mathlib.Omega.{arith}
use flimg.Prelude.Bits.{bit_and_low, mod-double}
use flimg.Crc16.{hex_digit}
use flimg.Util.{hex_loop, str2hex, bin_loop, uint2bin}

-- A text of binary digits, read from the left.
unfoldable pub read_bin : ℕ → List ℕ → ℕ
read_bin n [] = n
read_bin n (c ∷ cs) = read_bin (n * 2 + (c - b'0')) cs

low_bit : (u : ℕ) → bit_and u 1 ≡ u % 2
low_bit u = bit_and_low 1 u 1 refl

high_first : (u len : ℕ) → u / 2 % 2 ^ len * 2 + u % 2 ≡ u % 2 ^ suc len
high_first u len =
    sym (mod-double u (2 ^ len) (one-le-pow len 2 (omega arith)))
    ∙ ap (λ k. u % k) (omega (arith, two-pow-succ len))

bin_loop_lem :
    (len u : ℕ) (filled : List ℕ)
    → read_bin 0 (bin_loop len u filled) ≡ read_bin (u % 2 ^ len) filled
unfolding bin_loop read_bin
bin_loop_lem zero u filled = ap (λ k. read_bin k filled) (none u)
  where
    none : (u : ℕ) → 0 ≡ u % 2 ^ 0
    none u = omega arith
bin_loop_lem (suc len) u filled =
    bin_loop_lem len (u / 2) ((b'0' + bit_and u 1) ∷ filled)
    ∙ ap (λ k. read_bin k filled) (omega (arith, low_bit u, high_first u len))

length-bin_loop :
    (len u : ℕ) (filled : List ℕ) → length (bin_loop len u filled) ≡ len + length filled
unfolding bin_loop
length-bin_loop zero u filled = omega arith
length-bin_loop (suc len) u filled =
    omega (arith, length-bin_loop len (u / 2) ((b'0' + bit_and u 1) ∷ filled))

width : (u len : ℕ) → 0 < len → uint2bin u len ≡ bin_loop len u []
unfolding uint2bin
width u len h = ap (λ k. bin_loop k u []) (ground arith)

-- `uint2bin` of a number and a width above 0 prints as many binary digits as the width says, and
-- they read back as the number modulo 2 to the power of the width.
pub uint2bin_lem :
    (u len : ℕ)
    → 0 < len
    → (length (uint2bin u len) ≡ len) × (read_bin 0 (uint2bin u len) ≡ u % 2 ^ len)
unfolding read_bin
uint2bin_lem u len h = (
  ap length (width u len h) ∙ length-bin_loop len u [] ∙ no_more len,
  ap (read_bin 0) (width u len h) ∙ bin_loop_lem len u [],
)
  where
    no_more : (n : ℕ) → n + 0 ≡ n
    no_more n = omega arith

-- A text of hexadecimal digits, two for a byte and a blank between.
unfoldable pub hex_value : ℕ → ℕ
hex_value c = if ltb c b'A' then c - b'0' else c - b'A' + 10

unfoldable pub read_hex : List ℕ → List ℕ
read_hex (a ∷ b ∷ c ∷ cs) = (hex_value a * 16 + hex_value b) ∷ read_hex cs
read_hex (a ∷ b ∷ []) = (hex_value a * 16 + hex_value b) ∷ []
read_hex (a ∷ []) = []
read_hex [] = []

value_digit : (d : ℕ) → d < 16 → hex_value (hex_digit d) ≡ d
unfolding hex_value hex_digit
value_digit d h = ground arith

byte_back :
    (b : ℕ)
    → b < 2 ^ 8
    → hex_value (hex_digit (b / 2 ^ 4)) * 16 + hex_value (hex_digit (bit_and b 15)) ≡ b
byte_back b h =
    let low = bit_and_low 4 b 15 refl in
    omega (
      arith,
      value_digit (b / 2 ^ 4) (omega arith),
      value_digit (bit_and b 15) (omega (arith, low)),
      low,
    )

-- The bytes of a text read back from what `str2hex` prints of it.
pub read_hex-str2hex : (s : List ℕ) → All (λ b. b < 2 ^ 8) s → read_hex (str2hex s) ≡ s
unfolding str2hex hex_loop read_hex
read_hex-str2hex [] a = refl
read_hex-str2hex (b ∷ []) (h, a) = ap (λ k. k ∷ []) (byte_back b h)
read_hex-str2hex (b ∷ c ∷ cs) (h, a) =
    ap₂ (λ k t. k ∷ t) (byte_back b h) (read_hex-str2hex (c ∷ cs) a)
