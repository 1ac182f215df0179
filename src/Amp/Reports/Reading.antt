-- ===== src/Amp/Reports/Reading.antt =====
-- The loops of a report and of its reader: the numbers that one writes, the other collects.
use flimg.Prelude.{
  ℕ, zero, suc, ◌+◌, ◌^◌, ◌≤◌, ◌<◌, ◌≡◌, refl, sym, ap, ap₂, ◌∙◌, arith, true, false, List, [], ◌∷◌,
  ◌++◌, map, append_assoc, append-nil, some, if◌then◌else◌,
}
use flimg.Prelude.{take, length, All, take_all, length-append, Bool-cases, inl, inr}
use flimg.Cstd.{ℤ, pos, print_int, print_nat, scan_int, is_digit}
use flimg.Cstd.Decimal.{scan_int-print_nat, print_nat-cons, print_nat-IsDigit, length-print_nat}
use flimg.IntMap.{IntMap, eqb_int}
use flimg.Amp.Reports.{
  is_missing, rx_report_loop, erase_digits, erase_others, has_block, push_block, read_blocks,
}

-- The numbers of the `k` blocks from `i` on that are not in the map.
unfoldable pub missing_from : IntMap → ℕ → ℕ → List ℕ
missing_from m zero i = []
missing_from m (suc k) i =
    let rest = missing_from m k (suc i) in if is_missing m i then i ∷ rest else rest

-- Each number with a space behind it.
unfoldable pub spaced : List ℕ → List ℕ
spaced [] = []
spaced (n ∷ ns) = print_nat n ++ b' ' ∷ spaced ns

-- Each number is above `i` and the numbers in front of it.
unfoldable pub IsAscending : ℕ → List ℕ → Type 0
IsAscending i [] = All (λ n. n ≡ n) (i ∷ [])
IsAscending i (n ∷ ns) = (i < n) × IsAscending n ns

pub missing_from-IsAscending : (m : IntMap) (k i j : ℕ) → j < i → IsAscending j (missing_from m k i)
unfolding missing_from IsAscending
missing_from-IsAscending m zero i j h = (refl, tt)
missing_from-IsAscending m (suc k) i j h = elim (Bool-cases (is_missing m i)) [
  | inl e ↦ rw e (h, missing_from-IsAscending m k (suc i) i (omega arith))
  | inr e ↦ rw e (missing_from-IsAscending m k (suc i) j (omega arith))
]

pub missing_from-lt :
    (m : IntMap) (k i bound : ℕ) → i + k ≤ bound → All (λ n. n < bound) (missing_from m k i)
unfolding missing_from
missing_from-lt m zero i bound h = tt
missing_from-lt m (suc k) i bound h = elim (Bool-cases (is_missing m i)) [
  | inl e ↦ rw e (omega arith, missing_from-lt m k (suc i) bound (omega arith))
  | inr e ↦ rw e (missing_from-lt m k (suc i) bound (omega arith))
]

-- Numbers of at most eight digits are printed whole.
report_number :
    (n : ℕ) → n < 10 ^ 8 → take 9 (print_int (pos n) ++ b' ' ∷ []) ≡ print_nat n ++ b' ' ∷ []
unfolding print_int
report_number n h =
    take_all 9 _ (omega (arith, length-append (print_nat n) (b' ' ∷ []), length-print_nat 7 n h))

pub send_number : (n : ℕ) → n < 10 ^ 8 → take 9 (print_int (pos n)) ≡ print_nat n
unfolding print_int
send_number n h = take_all 9 (print_nat n) (omega (arith, length-print_nat 7 n h))

pub rx_report_loop-missing_from :
    (m : IntMap) (k i : ℕ) (acc : List ℕ)
    → i + k ≤ 10 ^ 8
    → rx_report_loop m k i acc ≡ acc ++ spaced (missing_from m k i)
unfolding rx_report_loop missing_from spaced
rx_report_loop-missing_from m zero i acc h = sym (append-nil acc)
rx_report_loop-missing_from m (suc k) i acc h = elim (Bool-cases (is_missing m i)) [
  | inl e ↦ rw e (
      rx_report_loop-missing_from m k (suc i) _ (omega arith)
      ∙ ap (λ t. (acc ++ t) ++ spaced (missing_from m k (suc i))) (report_number i (omega arith))
      ∙ simp append_assoc refl)
  | inr e ↦ rw e (rx_report_loop-missing_from m k (suc i) acc (omega arith))
]

pub erase_digits_lem :
    (ds : List ℕ) (c : ℕ) (cs : List ℕ)
    → All (λ d. is_digit d ≡ true) ds
    → is_digit c ≡ false
    → erase_digits (ds ++ c ∷ cs) ≡ c ∷ cs
unfolding erase_digits
erase_digits_lem [] c cs a h = rw h
erase_digits_lem (d ∷ ds) c cs (b, a) h = rw b (erase_digits_lem ds c cs a h)

pub erase_others_digit : (c : ℕ) (cs : List ℕ) → is_digit c ≡ true → erase_others (c ∷ cs) ≡ c ∷ cs
unfolding erase_others
erase_others_digit c cs h = rw h refl

pub erase_others-spaced : (ns : List ℕ) → erase_others (b' ' ∷ spaced ns) ≡ spaced ns
unfolding erase_others spaced
erase_others-spaced [] = refl
erase_others-spaced (n ∷ ns) =
    let (c, cs, e, d) = print_nat-cons n in
    ap (λ t. erase_others (t ++ b' ' ∷ spaced ns)) e
    ∙ erase_others_digit c (cs ++ b' ' ∷ spaced ns) d
    ∙ ap (λ t. t ++ b' ' ∷ spaced ns) (sym e)

pub read_blocks-cons :
    (fuel : ℕ) (text : List ℕ) (iblocks : List ℤ)
    → 0 < length text
    → read_blocks (suc fuel) text iblocks
      ≡ read_blocks fuel (erase_others (erase_digits text)) (push_block (scan_int text) iblocks)
unfolding read_blocks
read_blocks-cons fuel [] iblocks h = absurd (omega arith)
read_blocks-cons fuel (c ∷ cs) iblocks h = refl

-- One turn of the loop takes one number.
pub read_one :
    (fuel n : ℕ) (ns : List ℕ) (iblocks : List ℤ)
    → read_blocks (suc fuel) (spaced (n ∷ ns)) iblocks
      ≡ read_blocks fuel (spaced ns) (push_block (some (pos n)) iblocks)
unfolding spaced
read_one fuel n ns iblocks =
    let rest : List ℕ = b' ' ∷ spaced ns in
    read_blocks-cons fuel (print_nat n ++ rest) iblocks
      (omega (arith, length-append (print_nat n) rest))
    ∙ ap₂ (λ t o. read_blocks fuel t (push_block o iblocks))
        (ap erase_others
            (erase_digits_lem (print_nat n) b' ' (spaced ns) (print_nat-IsDigit n) refl)
          ∙ erase_others-spaced ns)
        (scan_int-print_nat n rest refl)

not_in_rest :
    (z x : ℤ) (xs : List ℤ)
    → has_block z (x ∷ xs) ≡ false
    → (eqb_int x z ≡ false) × (has_block z xs ≡ false)
unfolding has_block
not_in_rest z x xs h = ground arith

pub has_block-append :
    (z y : ℤ) (zs : List ℤ)
    → has_block z zs ≡ false
    → eqb_int y z ≡ false
    → has_block z (zs ++ y ∷ []) ≡ false
unfolding has_block
has_block-append z y [] h e = rw e refl
has_block-append z y (x ∷ xs) h e =
    let (f, g) = not_in_rest z x xs h in rw f (has_block-append z y xs g e)

pub above_is_new : (n k : ℕ) → n < k → eqb_int (pos n) (pos k) ≡ false
unfolding eqb_int
above_is_new n k h = ground arith

push_new : (z : ℤ) (zs : List ℤ) → has_block z zs ≡ false → push_block (some z) zs ≡ zs ++ z ∷ []
unfolding push_block
push_new z zs h = rw h refl

pub read_blocks-spaced :
    (ns : List ℕ) (i : ℕ) (iblocks : List ℤ) (fuel : ℕ)
    → IsAscending i ns
    → ((n : ℕ) → i < n → has_block (pos n) iblocks ≡ false)
    → length ns ≤ fuel
    → read_blocks fuel (spaced ns) iblocks ≡ iblocks ++ map pos ns
unfolding IsAscending read_blocks spaced
read_blocks-spaced [] i iblocks zero a new h = sym (append-nil iblocks)
read_blocks-spaced [] i iblocks (suc fuel) a new h = sym (append-nil iblocks)
read_blocks-spaced (n ∷ ns) i iblocks zero a new h = absurd (omega arith)
read_blocks-spaced (n ∷ ns) i iblocks (suc fuel) (p, a) new h =
    read_one fuel n ns iblocks
    ∙ ap (read_blocks fuel (spaced ns)) (push_new (pos n) iblocks (new n p))
    ∙ read_blocks-spaced ns n (iblocks ++ pos n ∷ []) fuel a
        (λ k q. has_block-append (pos k) (pos n) iblocks (new k (omega arith)) (above_is_new n k q))
        (omega arith)
    ∙ simp append_assoc refl

pub length-spaced : (ns : List ℕ) → length ns ≤ length (spaced ns)
unfolding spaced
length-spaced [] = omega arith
length-spaced (n ∷ ns) =
    omega (arith, length-append (print_nat n) (b' ' ∷ spaced ns), length-spaced ns)
