-- ===== src/Amp/Headers/Words.antt =====
-- What `sscanf` and `find` read in the text of a header.
use flimg.Prelude.{
  ℕ, suc, ◌^◌, ◌/◌, ◌%◌, ◌≤◌, ◌<◌, ◌≡◌, refl, sym, ap, ◌∙◌, arith, true, false, ◌||◌, List, [], ◌∷◌,
  ◌++◌, append-nil, some, ◌==◌,
}
use flimg.Prelude.{All, length, length-append, take_all, drop, drop_behind}
use flimg.Cstd.{
  pos, is_digit, is_space, print_nat, print_int, scan_int, scan_int_rest, drop_digits, drop_sign,
  skip_spaces, take_word, find_char,
}
use flimg.Cstd.Decimal.{
  EndsNumber, scan_int-print_nat, print_nat-cons, print_nat-IsDigit, length-print_nat, to_int-pos,
}
use flimg.Crc16.{hex_digit, sval, scrc16, crc16}
use flimg.Amp.{TxAmp, hash_of}
use flimg.Amp.Blocks.{IsHash, hash_of-IsHash, find_char_behind}
use flimg.Amp.Headers.{braced, sz_size, some_word, scan_braced, behind_brace, scan_sizes}

-- Neither a blank nor the end of a C string.
abbrev pub IsPlain : ℕ → Type 0
IsPlain c = (is_space c || c == 0) ≡ false

hex_digit-IsPlain : (d : ℕ) → d < 16 → IsPlain (hex_digit d)
unfolding hex_digit
hex_digit-IsPlain d h = ground arith

pub scrc16-IsPlain : (s : List ℕ) → All IsPlain (scrc16 s)
unfolding scrc16 sval
scrc16-IsPlain s = (
  hex_digit-IsPlain (crc16 s / 4096 % 16) (omega arith),
  (
    hex_digit-IsPlain (crc16 s / 256 % 16) (omega arith),
    (
      hex_digit-IsPlain (crc16 s / 16 % 16) (omega arith),
      (hex_digit-IsPlain (crc16 s % 16) (omega arith), tt),
    ),
  ),
)

-- A hash that `%4s` reads whole.
abbrev pub IsWord : List ℕ → Type 0
IsWord hash = IsHash hash × All IsPlain hash

pub hash_of-IsWord : (tx : TxAmp) → IsWord (hash_of tx)
unfolding hash_of
hash_of-IsWord tx = (hash_of-IsHash tx, scrc16-IsPlain _)

pub skip_spaces-plain : (c : ℕ) (cs : List ℕ) → IsPlain c → skip_spaces (c ∷ cs) ≡ c ∷ cs
unfolding skip_spaces
skip_spaces-plain c cs h = ground arith

pub take_word-append :
    (w rest : List ℕ) → All IsPlain w → take_word (length w) (w ++ rest) ≡ (w, rest)
unfolding take_word
take_word-append [] rest h = refl
take_word-append (c ∷ cs) rest (h, hs) = rw (h, take_word-append cs rest hs) refl

pub scan_braced-braced :
    (hash rest : List ℕ) → IsWord hash → scan_braced (braced hash rest) ≡ some (hash, b'}' ∷ rest)
unfolding scan_braced braced some_word
scan_braced-braced [] rest ((e, b), p) = absurd (omega arith)
scan_braced-braced (h ∷ hs) rest ((e, b), (p, ps)) =
    ap (λ s. some_word (take_word 4 s)) (skip_spaces-plain h (hs ++ b'}' ∷ rest) p)
    ∙ ap (λ n. some_word (take_word n (h ∷ (hs ++ b'}' ∷ rest)))) (sym e)
    ∙ ap some_word (take_word-append (h ∷ hs) (b'}' ∷ rest) (p, ps))

pub find_char-braced :
    (hash rest : List ℕ)
    → IsHash hash
    → find_char b'}' (braced hash rest) ≡ some (suc (length hash))
unfolding braced
find_char-braced hash rest (e, b) = find_char_behind b'}' (b'{' ∷ hash) rest (refl, b)

pub drop-braced : (hash rest : List ℕ) → drop (suc (suc (length hash))) (braced hash rest) ≡ rest
unfolding braced
drop-braced hash rest = drop_behind (b'{' ∷ hash) b'}' rest

pub behind_brace-braced :
    (hash rest : List ℕ) → IsHash hash → behind_brace (braced hash rest) ≡ rest
unfolding behind_brace
behind_brace-braced hash rest h =
    rw (find_char-braced hash rest h, behind_brace) (drop-braced hash rest)

-- A printed number is read, and what follows it is left.
drop_digits-append :
    (ds rest : List ℕ)
    → All (λ d. is_digit d ≡ true) ds
    → EndsNumber rest
    → drop_digits (ds ++ rest) ≡ rest
unfolding drop_digits
drop_digits-append [] [] h e = refl
drop_digits-append [] (c ∷ cs) h e = rw e refl
drop_digits-append (d ∷ ds) rest (h, hs) e = rw h (drop_digits-append ds rest hs e)

digit_first : (c : ℕ) (cs : List ℕ) → is_digit c ≡ true → drop_sign (skip_spaces (c ∷ cs)) ≡ c ∷ cs
unfolding drop_sign skip_spaces
digit_first c cs h = ground arith

unsigned_first :
    (n : ℕ) (rest : List ℕ) → drop_sign (skip_spaces (print_nat n ++ rest)) ≡ print_nat n ++ rest
unsigned_first n rest =
    let (c, cs, e, d) = print_nat-cons n in
    ap (λ t. drop_sign (skip_spaces (t ++ rest))) e
    ∙ digit_first c (cs ++ rest) d
    ∙ ap (λ t. t ++ rest) (sym e)

pub scan_int_rest-print_nat :
    (n : ℕ) (rest : List ℕ)
    → EndsNumber rest
    → scan_int_rest (print_nat n ++ rest) ≡ some (pos n, rest)
unfolding scan_int_rest
scan_int_rest-print_nat n rest e =
    rw (scan_int-print_nat n rest e, scan_int_rest)
      (ap (λ t. some (pos n, drop_digits t)) (unsigned_first n rest)
        ∙ ap (λ t. some (pos n, t)) (drop_digits-append (print_nat n) rest (print_nat-IsDigit n) e))

-- A blank in front of a number is skipped.
pub scan_int_rest-blank : (s : List ℕ) → scan_int_rest (b' ' ∷ s) ≡ scan_int_rest s
unfolding scan_int_rest scan_int skip_spaces
scan_int_rest-blank s = refl

-- A file below 2 GiB in blocks below 2 GiB: the sizes fit the buffer.
abbrev pub IsSmall : TxAmp → Type 0
IsSmall tx = (length tx.xmtdata < 2 ^ 31) × (tx.xmtnumblocks < 2 ^ 31) × (tx.xmtblocksize < 2 ^ 31)

three_numbers : ℕ → ℕ → ℕ → List ℕ
three_numbers a b c = print_nat a ++ b' ' ∷ (print_nat b ++ b' ' ∷ print_nat c)

length-three_numbers :
    (a b c : ℕ) → a < 2 ^ 31 → b < 2 ^ 31 → c < 2 ^ 31 → length (three_numbers a b c) ≤ 38
unfolding three_numbers
length-three_numbers a b c ha hb hc = omega (
  arith,
  length-append (print_nat a) (b' ' ∷ (print_nat b ++ b' ' ∷ print_nat c)),
  length-append (print_nat b) (b' ' ∷ print_nat c),
  length-print_nat 9 a (omega arith),
  length-print_nat 9 b (omega arith),
  length-print_nat 9 c (omega arith),
)

sz_size_lem :
    (tx : TxAmp)
    → IsSmall tx
    → sz_size tx ≡ three_numbers (length tx.xmtdata) tx.xmtnumblocks tx.xmtblocksize
unfolding sz_size print_int three_numbers
sz_size_lem tx (a, b, c) = rw (to_int-pos (length tx.xmtdata) a) (
    take_all 38 (three_numbers (length tx.xmtdata) tx.xmtnumblocks tx.xmtblocksize)
      (length-three_numbers (length tx.xmtdata) tx.xmtnumblocks tx.xmtblocksize a b c))

scan_last_number : (n : ℕ) → scan_int_rest (b' ' ∷ print_nat n) ≡ some (pos n, [])
scan_last_number n =
    scan_int_rest-blank (print_nat n)
    ∙ ap scan_int_rest (sym (append-nil (print_nat n)))
    ∙ scan_int_rest-print_nat n [] refl

scan_next_number :
    (n : ℕ) (rest : List ℕ)
    → scan_int_rest (b' ' ∷ (print_nat n ++ b' ' ∷ rest)) ≡ some (pos n, b' ' ∷ rest)
scan_next_number n rest =
    scan_int_rest-blank (print_nat n ++ b' ' ∷ rest) ∙ scan_int_rest-print_nat n (b' ' ∷ rest) refl

pub scan_sizes-braced :
    (hash : List ℕ) (tx : TxAmp)
    → IsWord hash
    → IsSmall tx
    → scan_sizes (braced hash (sz_size tx))
      ≡ some (hash, pos (length tx.xmtdata), pos tx.xmtnumblocks, pos tx.xmtblocksize)
unfolding scan_sizes three_numbers
scan_sizes-braced hash tx w h =
    let a = length tx.xmtdata in
    let b = tx.xmtnumblocks in
    let c = tx.xmtblocksize in
    rw
      (
        sz_size_lem tx h,
        scan_braced-braced hash (three_numbers a b c) w,
        scan_int_rest-print_nat a (b' ' ∷ (print_nat b ++ b' ' ∷ print_nat c)) refl,
        scan_next_number b (print_nat c),
        scan_last_number c,
        scan_sizes,
      )
      refl
