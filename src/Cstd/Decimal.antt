-- ===== src/Cstd/Decimal.antt =====
-- A number that `%d` printed is read back by `%d`.
use flimg.Prelude.{
  ℕ, zero, suc, ◌+◌, ◌-◌, ◌*◌, ◌/◌, ◌%◌, ◌≤◌, ◌^◌, ◌<◌, ◌≡◌, refl, sym, ap, ◌∙◌, arith, true, false,
}
use flimg.Prelude.{
  List, [], ◌∷◌, ◌++◌, append_assoc, some, ltb, All, All-append, length, Bool-cases, inl, inr,
  lt→ltb, length-append,
}
use native.Mathlib.Nat.{le_refl, pow-suc}
use flimg.Cstd.{
  is_digit, is_space, print_digits, print_nat, scan_digits, starts_with_digit, scan_signed,
  skip_spaces, scan_int, pos, negsuc, find_char, ℤ, print_int, to_int,
}

-- What follows a number does not continue it.
abbrev pub EndsNumber : List ℕ → Type 0
EndsNumber rest = starts_with_digit rest ≡ false

scan_last :
    (n : ℕ) (rest : List ℕ) → scan_digits (n / 10) ((b'0' + n % 10) ∷ rest) ≡ scan_digits n rest
unfolding scan_digits
scan_last n rest =
    let whole : n / 10 * 10 + (b'0' + n % 10 - b'0') ≡ n = omega arith in ground (arith, whole)

scan_print :
    (fuel n : ℕ) (rest : List ℕ)
    → n ≤ fuel
    → scan_digits 0 (print_digits fuel n ++ rest) ≡ scan_digits n rest
unfolding print_digits scan_digits
scan_print zero n rest h = ground arith
scan_print (suc fuel) n rest h = elim (Bool-cases (ltb n 10)) [
  | inl small ↦ ground arith
  | inr big ↦
      rw (big, append_assoc)
        (scan_print fuel (n / 10) ((b'0' + n % 10) ∷ rest) (omega arith) ∙ scan_last n rest)
]

scan_stops : (n : ℕ) (rest : List ℕ) → EndsNumber rest → scan_digits n rest ≡ n
unfolding scan_digits
scan_stops n [] h = refl
scan_stops n (c ∷ cs) h = rw h

-- The print is a first digit and more digits.
print_first :
    (fuel n : ℕ) → (c : ℕ) × (cs : List ℕ) × (print_digits fuel n ≡ c ∷ cs) × (is_digit c ≡ true)
unfolding print_digits
print_first zero n = (b'0' + n % 10, [], refl, ground arith)
print_first (suc fuel) n = elim (Bool-cases (ltb n 10)) [
  | inl small ↦ (b'0' + n, [], rw small, ground arith)
  | inr big ↦
      let (c, cs, e, d) = print_first fuel (n / 10) in
      (c, cs ++ ((b'0' + n % 10) ∷ []), rw (big, e), d)
]

skip_none : (c : ℕ) (cs : List ℕ) → is_space c ≡ false → skip_spaces (c ∷ cs) ≡ c ∷ cs
unfolding skip_spaces
skip_none c cs h = rw h

scan_digit_first :
    (c : ℕ) (cs : List ℕ)
    → is_digit c ≡ true
    → scan_int (c ∷ cs) ≡ some (pos (scan_digits 0 (c ∷ cs)))
unfolding scan_int
scan_digit_first c cs h =
    let printing : is_space c ≡ false = ground arith in
    ap scan_signed (skip_none c cs printing) ∙ rw h

-- `%d` reads back what `%d` printed, up to the first character that is no digit.
pub scan_int-print_nat :
    (n : ℕ) (rest : List ℕ) → EndsNumber rest → scan_int (print_nat n ++ rest) ≡ some (pos n)
unfolding print_nat
scan_int-print_nat n rest h =
    let (c, cs, e, d) = print_first n n in
    ap scan_int (ap (λ t. t ++ rest) e)
    ∙ scan_digit_first c (cs ++ rest) d
    ∙ ap (λ t. some (pos (scan_digits 0 (t ++ rest)))) (sym e)
    ∙ ap (λ t. some (pos t)) (scan_print n n rest (le_refl n) ∙ scan_stops n rest h)

print_digits-IsDigit : (fuel n : ℕ) → All (λ c. is_digit c ≡ true) (print_digits fuel n)
unfolding print_digits
print_digits-IsDigit zero n = ground arith
print_digits-IsDigit (suc fuel) n = elim (Bool-cases (ltb n 10)) [
  | inl small ↦ rw small (ground arith)
  | inr big ↦ rw big (
      All-append (λ c. is_digit c ≡ true) (print_digits fuel (n / 10)) _
        (print_digits-IsDigit fuel (n / 10)) (ground arith))
]

find_after_digits :
    (ds rest : List ℕ)
    → All (λ c. is_digit c ≡ true) ds
    → find_char 10 (ds ++ 10 ∷ rest) ≡ some (length ds)
unfolding find_char
find_after_digits [] rest h = refl
find_after_digits (d ∷ ds) rest (h, hs) = ground (arith, find_after_digits ds rest hs)

-- The first line feed behind a printed number is the one that was put there.
pub find_char-print_nat :
    (n : ℕ) (rest : List ℕ) → find_char 10 (print_nat n ++ 10 ∷ rest) ≡ some (length (print_nat n))
unfolding print_nat
find_char-print_nat n rest = find_after_digits (print_digits n n) rest (print_digits-IsDigit n n)

-- The same of any `int`.
pub find_char-print_int :
    (z : ℤ) (rest : List ℕ) → find_char 10 (print_int z ++ 10 ∷ rest) ≡ some (length (print_int z))
unfolding print_int
find_char-print_int (pos n) rest = find_char-print_nat n rest
find_char-print_int (negsuc n) rest = unfold find_char in rw (find_char-print_nat (n + 1) rest)

-- `%d` reads back what `%d` printed of a number that is not negative, up to the next character that
-- is no digit.
pub scan_int-print_int :
    (n : ℕ) (rest : List ℕ) → EndsNumber rest → scan_int (print_int (pos n) ++ rest) ≡ some (pos n)
unfolding print_int
scan_int-print_int n rest h = scan_int-print_nat n rest h

pub to_int-pos : (n : ℕ) → n < 2 ^ 31 → to_int n ≡ pos n
to_int-pos n h = ground arith

pub print_nat-IsDigit : (n : ℕ) → All (λ c. is_digit c ≡ true) (print_nat n)
unfolding print_nat
print_nat-IsDigit n = print_digits-IsDigit n n

length-print_digits : (k fuel n : ℕ) → n < 10 ^ suc k → length (print_digits fuel n) ≤ suc k
unfolding print_digits
length-print_digits k zero n h = omega arith
length-print_digits zero (suc fuel) n h = rw (lt→ltb n 10 (omega arith)) (omega arith)
length-print_digits (suc k) (suc fuel) n h = elim (Bool-cases (ltb n 10)) [
  | inl small ↦ rw small (omega arith)
  | inr big ↦
      let front = print_digits fuel (n / 10) in
      let less : n / 10 < 10 ^ suc k = omega (arith, pow-suc 10 (suc k)) in
      rw big (
        omega (
          arith,
          length-append front ((b'0' + n % 10) ∷ []),
          length-print_digits k fuel (n / 10) less,
        ))
]

-- A number below `10 ^ k` has at most `k` digits.
pub length-print_nat : (k n : ℕ) → n < 10 ^ suc k → length (print_nat n) ≤ suc k
unfolding print_nat
length-print_nat k n h = length-print_digits k n n h

-- The print of a number starts with a digit.
pub print_nat-cons :
    (n : ℕ) → (c : ℕ) × (cs : List ℕ) × (print_nat n ≡ c ∷ cs) × (is_digit c ≡ true)
unfolding print_nat
print_nat-cons n = print_first n n
