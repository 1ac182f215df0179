-- ===== src/Prelude/Bits.antt =====
-- `bit_xor` and `bit_and` at variables: the equation for the lowest digit, and what follows.
use Prim.Native.Nat.{
  ℕ, zero, suc, ◌+◌, ◌-◌, ◌*◌, ◌/◌, ◌%◌, ◌^◌, ◌≤◌, ◌<◌, min, max, differ, bit_and, bit_or, bit_xor,
  digits, bitwise, bit_and-bitwise, bit_or-bitwise, bit_xor-bitwise,
}
use mathlib.Core.Path.{◌≡◌, refl, sym, ap, ◌∙◌}
use native.Mathlib.Nat.{le_refl, pow-suc, two-pow-succ, one-le-pow, mod-lt, mod-eq_of_lt}
use native.Mathlib.Nat.{div-add-mod, mul-add-mod_self_left}
use native.Mathlib.Omega.{arith}

-- Fuel beyond the number itself changes nothing: first one unit, then any number of them.
module _ (left_out : ℕ → ℕ) (bit_of : ℕ → ℕ → ℕ) where
  digits-suc :
      (x y fuel : ℕ)
      → x ≤ fuel
      → digits left_out bit_of (suc fuel) x y ≡ digits left_out bit_of fuel x y
  digits-suc zero y zero enough = refl
  digits-suc zero y (suc fuel) enough = refl
  digits-suc (suc x) y zero enough = absurd (omega arith)
  digits-suc (suc x) y (suc fuel) enough = rw (digits-suc (suc x / 2) (y / 2) fuel (omega arith))

  digits-add :
      (spare x y : ℕ) → digits left_out bit_of (spare + x) x y ≡ digits left_out bit_of x x y
  digits-add zero x y = ap (λ fuel. digits left_out bit_of fuel x y) (none_spare x)
    where
      none_spare : (n : ℕ) → 0 + n ≡ n
      none_spare n = omega arith
  digits-add (suc spare) x y =
      ap (λ fuel. digits left_out bit_of fuel x y) (one_spare spare x)
      ∙ (digits-suc x y (spare + x) (omega arith) ∙ digits-add spare x y)
    where
      one_spare : (m n : ℕ) → suc m + n ≡ suc (m + n)
      one_spare m n = omega arith

  bitwise_step :
      (y x : ℕ)
      → bitwise left_out bit_of (suc x) y
        ≡ bitwise left_out bit_of (suc x / 2) (y / 2) * 2 + bit_of (suc x % 2) (y % 2)
  bitwise_step y x =
      ap (λ top. top * 2 + bit_of (suc x % 2) (y % 2))
        (ap (λ fuel. digits left_out bit_of fuel (suc x / 2) (y / 2)) (halves x)
          ∙ digits-add (x - suc x / 2) (suc x / 2) (y / 2))
    where
      halves : (n : ℕ) → n ≡ (n - suc n / 2) + suc n / 2
      halves n = omega arith

differ_parity : (a b : ℕ) → a < 2 → b < 2 → differ a b ≡ (a + b) % 2
differ_parity zero zero p q = refl
differ_parity zero (suc zero) p q = refl
differ_parity (suc zero) zero p q = refl
differ_parity (suc zero) (suc zero) p q = refl
differ_parity zero (suc (suc b)) p q = absurd (omega arith)
differ_parity (suc zero) (suc (suc b)) p q = absurd (omega arith)
differ_parity (suc (suc a)) b p q = absurd (omega arith)

zero-bit_xor : (b : ℕ) → bit_xor 0 b ≡ b
zero-bit_xor b = bit_xor-bitwise 0 b

zero-bit_or : (b : ℕ) → bit_or 0 b ≡ b
zero-bit_or b = bit_or-bitwise 0 b

pub bit_xor_step : (a b : ℕ) → bit_xor a b ≡ bit_xor (a / 2) (b / 2) * 2 + (a + b) % 2
bit_xor_step zero b = omega (arith, zero-bit_xor b, zero-bit_xor (b / 2))
bit_xor_step (suc a) b = omega (
  arith,
  bit_xor-bitwise (suc a) b,
  bit_xor-bitwise (suc a / 2) (b / 2),
  bitwise_step (λ y. y) differ b a,
  differ_parity (suc a % 2) (b % 2) (omega arith) (omega arith),
)

pub bit_or_step : (x y : ℕ) → bit_or x y ≡ bit_or (x / 2) (y / 2) * 2 + max (x % 2) (y % 2)
bit_or_step zero y = omega (arith, zero-bit_or y, zero-bit_or (y / 2))
bit_or_step (suc x) y = omega (
  bitwise_step (λ d. d) max y x,
  bit_or-bitwise (suc x) y,
  bit_or-bitwise (suc x / 2) (y / 2),
  arith,
)

bit_xor-zero : (n a : ℕ) → a ≤ n → bit_xor a 0 ≡ a
bit_xor-zero n zero h = refl
bit_xor-zero zero (suc a) h = absurd (omega arith)
bit_xor-zero (suc n) (suc a) h =
    omega (arith, bit_xor_step (suc a) 0, bit_xor-zero n (suc a / 2) (omega arith))

bit_or-zero : (n a : ℕ) → a ≤ n → bit_or a 0 ≡ a
bit_or-zero n zero h = refl
bit_or-zero zero (suc a) h = absurd (omega arith)
bit_or-zero (suc n) (suc a) h =
    omega (arith, bit_or_step (suc a) 0, bit_or-zero n (suc a / 2) (omega arith))

-- The last digit and the other digits of `a ^ b`.
pub xor_parts :
    (a b : ℕ) → (bit_xor a b / 2 ≡ bit_xor (a / 2) (b / 2)) × (bit_xor a b % 2 ≡ (a + b) % 2)
xor_parts a b = omega (arith, bit_xor_step a b)

xor_twice_step :
    (a b : ℕ) → bit_xor (bit_xor (a / 2) (b / 2)) (b / 2) ≡ a / 2 → bit_xor (bit_xor a b) b ≡ a
xor_twice_step a b ih = ground (arith, bit_xor_step (bit_xor a b) b, xor_parts a b)

xor_twice : (n a b : ℕ) → a + b ≤ n → bit_xor (bit_xor a b) b ≡ a
xor_twice n zero zero h = refl
xor_twice zero zero (suc b) h = absurd (omega arith)
xor_twice zero (suc a) b h = absurd (omega arith)
xor_twice (suc n) zero (suc b) h =
    xor_twice_step zero (suc b) (xor_twice n 0 (suc b / 2) (omega arith))
xor_twice (suc n) (suc a) b h =
    xor_twice_step (suc a) b (xor_twice n (suc a / 2) (b / 2) (omega arith))

pub bit_xor_cancel : (a b : ℕ) → bit_xor (bit_xor a b) b ≡ a
bit_xor_cancel a b = xor_twice (a + b) a b (le_refl _)

xor_right_comm_step :
    (a b c : ℕ)
    → bit_xor (bit_xor (a / 2) (b / 2)) (c / 2) ≡ bit_xor (bit_xor (a / 2) (c / 2)) (b / 2)
    → bit_xor (bit_xor a b) c ≡ bit_xor (bit_xor a c) b
xor_right_comm_step a b c ih = ground (
  arith,
  bit_xor_step (bit_xor a b) c,
  bit_xor_step (bit_xor a c) b,
  xor_parts a b,
  xor_parts a c,
)

xor_right_comm_fuel :
    (n a b c : ℕ) → a + b + c ≤ n → bit_xor (bit_xor a b) c ≡ bit_xor (bit_xor a c) b
xor_right_comm_fuel zero zero zero zero h = refl
xor_right_comm_fuel zero zero zero (suc c) h = absurd (omega arith)
xor_right_comm_fuel zero zero (suc b) c h = absurd (omega arith)
xor_right_comm_fuel zero (suc a) b c h = absurd (omega arith)
xor_right_comm_fuel (suc n) zero zero zero h = refl
xor_right_comm_fuel (suc n) zero zero (suc c) h =
    xor_right_comm_step zero zero (suc c) (xor_right_comm_fuel n 0 0 (suc c / 2) (omega arith))
xor_right_comm_fuel (suc n) zero (suc b) c h =
    xor_right_comm_step zero (suc b) c (xor_right_comm_fuel n 0 (suc b / 2) (c / 2) (omega arith))
xor_right_comm_fuel (suc n) (suc a) b c h =
    xor_right_comm_step (suc a) b c
      (xor_right_comm_fuel n (suc a / 2) (b / 2) (c / 2) (omega arith))

-- Two numbers that are joined by `^` to a third can change places.
pub bit_xor_right_comm : (a b c : ℕ) → bit_xor (bit_xor a b) c ≡ bit_xor (bit_xor a c) b
bit_xor_right_comm a b c = xor_right_comm_fuel (a + b + c) a b c (le_refl _)

pub bit_xor_comm : (a b : ℕ) → bit_xor a b ≡ bit_xor b a
bit_xor_comm a b = cc (bit_xor_right_comm 0 a b, zero-bit_xor a, zero-bit_xor b)

-- Equal results of `^` with one number come from equal numbers.
pub bit_xor_injective : (a b c : ℕ) → bit_xor a c ≡ bit_xor b c → a ≡ b
bit_xor_injective a b c e = sym (bit_xor_cancel a c) ∙ ap (λ t. bit_xor t c) e ∙ bit_xor_cancel b c

pub bit_xor-lt : (k a b : ℕ) → a < 2 ^ k → b < 2 ^ k → bit_xor a b < 2 ^ k
bit_xor-lt zero zero b p q = omega (arith, zero-bit_xor b)
bit_xor-lt zero (suc a) b p q = absurd (omega arith)
bit_xor-lt (suc k) a b p q = omega (
  arith,
  bit_xor_step a b,
  pow-suc 2 k,
  bit_xor-lt k (a / 2) (b / 2) (omega (arith, pow-suc 2 k)) (omega (arith, pow-suc 2 k)),
)

bit_or_double : (m r : ℕ) → bit_or (2 * m) r ≡ bit_or m (r / 2) * 2 + r % 2
bit_or_double m r =
    let half : 2 * m / 2 ≡ m = omega arith in ground (arith, bit_or_step (2 * m) r, half)

-- A field of `k` bits beside a higher one: `|` adds them.
pub bit_or_beside : (k q r : ℕ) → r < 2 ^ k → bit_or (q * 2 ^ k) r ≡ q * 2 ^ k + r
bit_or_beside zero q zero h = omega (arith, bit_or-zero (q * 1) (q * 1) (le_refl _))
bit_or_beside zero q (suc r) h = absurd (omega arith)
bit_or_beside (suc k) q r h =
    let double : q * 2 ^ suc k ≡ 2 * (q * 2 ^ k) =
      omega (arith, ap (λ (t : ℕ). q * t) (pow-suc 2 k)) in
    rw double (
      omega (
        arith,
        bit_or_double (q * 2 ^ k) r,
        bit_or_beside k q (r / 2) (omega (arith, pow-suc 2 k)),
      ))

bit_xor_double : (m r : ℕ) → bit_xor (2 * m) r ≡ bit_xor m (r / 2) * 2 + r % 2
bit_xor_double m r =
    let half : 2 * m / 2 ≡ m = omega arith in ground (arith, bit_xor_step (2 * m) r, half)

-- The same for `^`.
pub bit_xor_beside : (k q r : ℕ) → r < 2 ^ k → bit_xor (q * 2 ^ k) r ≡ q * 2 ^ k + r
bit_xor_beside zero q zero h = omega (arith, bit_xor-zero (q * 1) (q * 1) (le_refl _))
bit_xor_beside zero q (suc r) h = absurd (omega arith)
bit_xor_beside (suc k) q r h =
    let double : q * 2 ^ suc k ≡ 2 * (q * 2 ^ k) =
      omega (arith, ap (λ (t : ℕ). q * t) (pow-suc 2 k)) in
    rw double (
      omega (
        arith,
        bit_xor_double (q * 2 ^ k) r,
        bit_xor_beside k q (r / 2) (omega (arith, pow-suc 2 k)),
      ))

pub bit_and_step : (x y : ℕ) → bit_and x y ≡ bit_and (x / 2) (y / 2) * 2 + min (x % 2) (y % 2)
bit_and_step zero y = omega (arith, bit_and-bitwise 0 y, bit_and-bitwise 0 (y / 2))
bit_and_step (suc x) y = omega (
  bitwise_step (λ d. 0) min y x,
  bit_and-bitwise (suc x) y,
  bit_and-bitwise (suc x / 2) (y / 2),
  arith,
)

bit_and-zero : (n a : ℕ) → a ≤ n → bit_and a 0 ≡ 0
bit_and-zero n zero h = refl
bit_and-zero zero (suc a) h = absurd (omega arith)
bit_and-zero (suc n) (suc a) h =
    omega (arith, bit_and_step (suc a) 0, bit_and-zero n (suc a / 2) (omega arith))

pub mod-double : (a n : ℕ) → 0 < n → a % (2 * n) ≡ a / 2 % n * 2 + a % 2
mod-double a n pos =
    let r : ℕ = a / 2 % n * 2 + a % 2 in
    let small : r < 2 * n = omega (arith, mod-lt (a / 2) pos) in
    let parts : a ≡ 2 * n * (a / 2 / n) + r =
      omega (arith, ap (λ (t : ℕ). 2 * t) (div-add-mod (a / 2) n)) in
    ap (λ t. t % (2 * n)) parts ∙ mul-add-mod_self_left (2 * n) (a / 2 / n) r ∙ mod-eq_of_lt small

-- A mask `m` of the `k` low bits is a remainder.
pub bit_and_low : (k a m : ℕ) → m + 1 ≡ 2 ^ k → bit_and a m ≡ a % 2 ^ k
bit_and_low zero a zero e = omega (arith, bit_and-zero a a (le_refl _))
bit_and_low zero a (suc m) e = absurd (omega arith)
bit_and_low (suc k) a m e =
    let half : m / 2 + 1 ≡ 2 ^ k = omega (arith, two-pow-succ k, one-le-pow k 2 (omega arith)) in
    let double : 2 ^ suc k ≡ 2 * 2 ^ k = omega (arith, two-pow-succ k) in
    rw double (
      omega (
        arith,
        bit_and_step a m,
        bit_and_low k (a / 2) (m / 2) half,
        mod-double a (2 ^ k) (one-le-pow k 2 (omega arith)),
      ))
