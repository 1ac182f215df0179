-- ===== src/Crc16/Rounds.antt =====
-- One byte of `Ccrc16::update`: its rounds keep sixteen bits and lose nothing.
use flimg.Prelude.{ℕ, zero, suc, ◌*◌, ◌/◌, ◌%◌, ◌^◌, ◌<◌, ◌≤◌, bit_xor, ◌≡◌, refl, ap, arith}
use flimg.Prelude.{◌==◌, leb, leb→le, if◌then◌else◌}
use flimg.Prelude.Bits.{bit_xor_injective, bit_xor_right_comm, bit_xor-lt, xor_parts, bit_and_low}
use flimg.Prelude.Table.{each_below, each_below_lookup}
use native.Mathlib.Nat.{two-pow-succ}
use flimg.Crc16.{shift_round, shift_rounds}

shift_round_lem : (x : ℕ) → shift_round x ≡ (if x % 2 == 1 then bit_xor (x / 2) 0xA001 else x / 2)
unfolding shift_round
shift_round_lem x = rw (bit_and_low 1 x 1 refl) refl

pub shift_round-lt : (x : ℕ) → x < 2 ^ 16 → shift_round x < 2 ^ 16
shift_round-lt x h = ground (arith, shift_round_lem x, bit_xor-lt 16 (x / 2) 0xA001)

-- `h` has fifteen bits, so the top bit of the mask shows which branch was taken.
top_bit_set : (h : ℕ) → h < 2 ^ 15 → 2 ^ 15 ≤ bit_xor h 0xA001
unfolding each_below
top_bit_set h lt =
    leb→le _ _ (each_below_lookup (λ h. leb (2 ^ 15) (bit_xor h 0xA001)) h (2 ^ 15) refl lt)

-- The last bit that a round drops can be read off its result.
pub shift_round_injective :
    (x y : ℕ) → x < 2 ^ 16 → y < 2 ^ 16 → shift_round x ≡ shift_round y → x ≡ y
shift_round_injective x y p q e = ground (
  arith,
  shift_round_lem x,
  shift_round_lem y,
  top_bit_set (x / 2),
  top_bit_set (y / 2),
  bit_xor_injective (x / 2) (y / 2) 0xA001,
)

pub shift_rounds-lt : (n x : ℕ) → x < 2 ^ 16 → shift_rounds n x < 2 ^ 16
unfolding shift_rounds
shift_rounds-lt zero x h = h
shift_rounds-lt (suc n) x h = shift_rounds-lt n (shift_round x) (shift_round-lt x h)

pub shift_rounds_injective :
    (n x y : ℕ) → x < 2 ^ 16 → y < 2 ^ 16 → shift_rounds n x ≡ shift_rounds n y → x ≡ y
unfolding shift_rounds
shift_rounds_injective zero x y p q e = e
shift_rounds_injective (suc n) x y p q e = shift_round_injective x y p q (
    shift_rounds_injective n (shift_round x) (shift_round y) (shift_round-lt x p)
      (shift_round-lt y q) e)

-- A round passes over bits above the last one.
shift_round-bit_xor : (x m : ℕ) → shift_round (bit_xor x (2 * m)) ≡ bit_xor (shift_round x) m
shift_round-bit_xor x m =
    let half : 2 * m / 2 ≡ m = omega arith in
    ground (
      arith,
      half,
      shift_round_lem x,
      shift_round_lem (bit_xor x (2 * m)),
      xor_parts x (2 * m),
      bit_xor_right_comm (x / 2) 0xA001 m,
    )

pub shift_rounds-bit_xor :
    (n x m : ℕ) → shift_rounds n (bit_xor x (m * 2 ^ n)) ≡ bit_xor (shift_rounds n x) m
unfolding shift_rounds
shift_rounds-bit_xor zero x m = ap (bit_xor x) (omega arith)
shift_rounds-bit_xor (suc n) x m =
    let double : m * 2 ^ suc n ≡ 2 * (m * 2 ^ n) =
      omega (arith, ap (λ (t : ℕ). m * t) (two-pow-succ n)) in
    rw (double, shift_round-bit_xor x (m * 2 ^ n)) (shift_rounds-bit_xor n (shift_round x) m)
