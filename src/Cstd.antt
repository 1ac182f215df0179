-- ===== src/Cstd.antt =====
-- What the sources use of the C and C++ libraries on texts: `%d` of snprintf and sscanf, `find`,
-- `substr` and the character classes. A text is the list of its bytes.
pub mod Decimal
pub mod Finding
use flimg.Prelude.{
  ℕ, zero, suc, ◌+◌, ◌-◌, ◌*◌, ◌/◌, ◌%◌, ◌^◌, Bool, true, false, ◌&&◌, ◌||◌, List, [], ◌∷◌, ◌++◌,
  Option, none, some,
}
use flimg.Prelude.{ltb, leb, ◌==◌, if◌then◌else◌, drop}

-- A C `int`; `negsuc n` is -(n + 1).
pub data ℤ : Type 0 where
  pos : ℕ → ℤ
  negsuc : ℕ → ℤ

abbrev pub is_digit : ℕ → Bool
is_digit c = leb b'0' c && leb c b'9'

-- `isspace` in the C locale.
abbrev pub is_space : ℕ → Bool
is_space c = (leb 9 c && leb c 13) || c == b' '

print_digits : ℕ → ℕ → List ℕ
print_digits zero n = (b'0' + n % 10) ∷ []
print_digits (suc fuel) n =
    let front = print_digits fuel (n / 10) in
    if ltb n 10 then (b'0' + n) ∷ [] else front ++ ((b'0' + n % 10) ∷ [])

-- The digits of a number. There are at most `n` behind the first.
unfoldable pub print_nat : ℕ → List ℕ
unfolding print_digits
print_nat n = print_digits n n

-- `%d` of an `int`.
unfoldable pub print_int : ℤ → List ℕ
unfolding print_nat
print_int (pos n) = print_nat n
print_int (negsuc n) = b'-' ∷ print_nat (n + 1)

-- `(int)n` of a 64-bit size.
abbrev pub to_int : ℕ → ℤ
to_int n = let m = n % 2 ^ 32 in if ltb m (2 ^ 31) then pos m else negsuc (2 ^ 32 - 1 - m)

-- The digits of a `%d` conversion, behind the value read so far.
unfoldable pub scan_digits : ℕ → List ℕ → ℕ
scan_digits acc [] = acc
scan_digits acc (c ∷ cs) = if is_digit c then scan_digits (acc * 10 + (c - b'0')) cs else acc

negate : ℕ → ℤ
negate zero = pos zero
negate (suc n) = negsuc n

abbrev pub starts_with_digit : List ℕ → Bool
starts_with_digit [] = Bool.false
starts_with_digit (c ∷ cs) = is_digit c

-- An optional sign, then at least one digit. Values outside `int` are undefined in C.
scan_signed : List ℕ → Option ℤ
unfolding negate scan_digits
scan_signed [] = none
scan_signed (c ∷ cs) =
    if is_digit c
    then some (pos (scan_digits 0 (c ∷ cs)))
    else if (c == b'-' || c == b'+') && starts_with_digit cs
    then if c == b'-' then some (negate (scan_digits 0 cs)) else some (pos (scan_digits 0 cs))
    else none

unfoldable pub skip_spaces : List ℕ → List ℕ
skip_spaces [] = []
skip_spaces (c ∷ cs) = if is_space c then skip_spaces cs else c ∷ cs

-- `sscanf(s, "%d", &x)`: `none` when nothing is converted. A number that exceeds an `int` is
-- undefined in C, and kept whole here.
unfoldable pub scan_int : List ℕ → Option ℤ
unfolding skip_spaces scan_signed
scan_int s = scan_signed (skip_spaces s)

-- `s.find(c)`: the position of the first `c`.
unfoldable pub find_char : ℕ → List ℕ → Option ℕ
find_char c [] = none
find_char c (x ∷ xs) =
    if x == c then some 0 else elim (find_char c xs) [ none ↦ none | some i ↦ some (suc i) ]

-- `%Ns`: at most `limit` characters up to a blank or the end of the C string, and what follows.
unfoldable pub take_word : ℕ → List ℕ → List ℕ × List ℕ
take_word zero s = ([], s)
take_word (suc limit) [] = ([], [])
take_word (suc limit) (c ∷ cs) =
    let more = take_word limit cs in
    if is_space c || c == 0 then ([], c ∷ cs) else (c ∷ more.0, more.1)

-- The text behind the number that `%d` reads.
unfoldable pub drop_digits : List ℕ → List ℕ
drop_digits [] = []
drop_digits (c ∷ cs) = if is_digit c then drop_digits cs else c ∷ cs

unfoldable pub drop_sign : List ℕ → List ℕ
drop_sign [] = []
drop_sign (c ∷ cs) = if c == b'-' || c == b'+' then cs else c ∷ cs

-- `%d` in a format with more behind it.
unfoldable pub scan_int_rest : List ℕ → Option (ℤ × List ℕ)
scan_int_rest s = elim (scan_int s) [
  | none ↦ none
  | some z ↦ some (z, drop_digits (drop_sign (skip_spaces s)))
]

-- `find` of a text, from a position on.
unfoldable pub starts_with : List ℕ → List ℕ → Bool
starts_with [] s = true
starts_with (n ∷ ns) [] = false
starts_with (n ∷ ns) (c ∷ cs) = (n == c) && starts_with ns cs

unfoldable pub find_text : List ℕ → List ℕ → Option ℕ
find_text needle [] = if starts_with needle [] then some 0 else none
find_text needle (c ∷ cs) =
    if starts_with needle (c ∷ cs)
    then some 0
    else elim (find_text needle cs) [ none ↦ none | some p ↦ some (suc p) ]

-- A position that was found in the text behind the first `n` bytes.
unfoldable pub found_behind : ℕ → Option ℕ → Option ℕ
found_behind n none = none
found_behind n (some p) = some (n + p)

-- The text of a C string.
unfoldable pub c_str : List ℕ → List ℕ
c_str [] = []
c_str (c ∷ cs) = if c == 0 then [] else c ∷ c_str cs
