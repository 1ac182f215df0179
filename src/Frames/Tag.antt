-- ===== src/Frames/Tag.antt =====
-- The tag in front of a frame is read as it was printed.
use flimg.Prelude.{
  ℕ, zero, suc, ◌+◌, ◌*◌, ◌/◌, ◌%◌, ◌^◌, ◌<◌, ◌≤◌, ◌≡◌, refl, ap, ◌∙◌, arith, true, false, ◌||◌,
  List, [], ◌∷◌, ◌++◌, some,
}
use flimg.Prelude.{All, length, ◌==◌}
use flimg.Cstd.{pos, is_space, print_nat, skip_spaces, take_word}
use flimg.Crc16.{hex_digit, sval, crc16, scrc16}
use flimg.Crc16.Detect.{crc16-lt}
use flimg.Amp.Headers.{some_word}
use flimg.Amp.Headers.Words.{
  IsPlain, scan_int_rest-print_nat, scan_int_rest-blank, skip_spaces-plain,
}
use flimg.Frames.{is_hex, hex_of, hex_digits, hex_number, behind_prefix, scan_hex, scan_tag}

hex_of-hex_digit : (d : ℕ) → d < 16 → (is_hex (hex_digit d) ≡ true) × (hex_of (hex_digit d) ≡ d)
unfolding is_hex hex_of hex_digit
hex_of-hex_digit d h = ground arith

-- Digits are no signs, blanks or `x`.
digit_first :
    (d : ℕ)
    → d < 16
    → ((hex_digit d == b'+') ≡ false)
      × ((hex_digit d == b'-') ≡ false)
      × ((hex_digit d == b'x') ≡ false)
      × ((hex_digit d == b'X') ≡ false)
      × (is_space (hex_digit d) ≡ false)
unfolding hex_digit
digit_first d h = ground arith

one_digit :
    (n d : ℕ) (rest : List ℕ)
    → d < 16
    → hex_digits n (hex_digit d ∷ rest) ≡ hex_digits (n * 16 + d) rest
unfolding hex_digits
one_digit n d rest h = let (a, b) = hex_of-hex_digit d h in rw (a, b, hex_digits) refl

module _ (a b c d : ℕ) (ha : a < 16) (hb : b < 16) (hc : c < 16) (hd : d < 16) where
  digits : List ℕ
  digits = hex_digit a ∷ hex_digit b ∷ hex_digit c ∷ hex_digit d ∷ b'>' ∷ []

  digits_value : hex_digits 0 digits ≡ ((a * 16 + b) * 16 + c) * 16 + d
  unfolding digits
  digits_value =
      one_digit 0 a _ ha
      ∙ one_digit (0 * 16 + a) b _ hb
      ∙ one_digit ((0 * 16 + a) * 16 + b) c _ hc
      ∙ one_digit (((0 * 16 + a) * 16 + b) * 16 + c) d _ hd
      ∙ stops _
      ∙ same
    where
      same : (((0 * 16 + a) * 16 + b) * 16 + c) * 16 + d ≡ ((a * 16 + b) * 16 + c) * 16 + d
      same = omega arith

      stops : (n : ℕ) → hex_digits n (b'>' ∷ []) ≡ n
      stops n = unfold hex_digits is_hex in refl

  no_prefix : behind_prefix digits ≡ digits
  unfolding behind_prefix digits
  no_prefix =
      let (p, m, x, y, s) = digit_first b hb in
      let plain : ((hex_digit b == b'x') || (hex_digit b == b'X')) ≡ false = rw (x, y) refl in
      ground arith

  number_lem : hex_number digits ≡ some ((((a * 16 + b) * 16 + c) * 16 + d) % 2 ^ 32)
  unfolding hex_number digits
  number_lem =
      let (h, v) = hex_of-hex_digit a ha in
      rw (h, hex_number) (ap (λ n. some (n % 2 ^ 32)) digits_value)

  scan_hex-digits :
      scan_hex (skip_spaces (b' ' ∷ digits)) ≡ some ((((a * 16 + b) * 16 + c) * 16 + d) % 2 ^ 32)
  unfolding scan_hex skip_spaces digits
  scan_hex-digits =
      let (p, m, x, y, s) = digit_first a ha in
      rw (s, p, m, scan_hex) (ap hex_number no_prefix ∙ number_lem)

-- The CRC that `scrc16` prints.
scan_hex-scrc16 :
    (text : List ℕ) → scan_hex (skip_spaces (b' ' ∷ (scrc16 text ++ b'>' ∷ []))) ≡ some (crc16 text)
unfolding scrc16 sval digits
scan_hex-scrc16 text =
    let v = crc16 text in
    scan_hex-digits (v / 4096 % 16) (v / 256 % 16) (v / 16 % 16) (v % 16) (omega arith)
      (omega arith) (omega arith) (omega arith)
    ∙ ap some whole
  where
    whole :
        (((crc16 text / 4096 % 16 * 16 + crc16 text / 256 % 16) * 16 + crc16 text / 16 % 16) * 16
            + crc16 text % 16)
          % 2 ^ 32
        ≡ crc16 text
    whole = omega (arith, crc16-lt text)

-- The name in a tag.
pub record IsName (name : List ℕ) : Type 0 where
  pub some_name : 0 < length name
  pub short : length name ≤ 31
  pub plain : All IsPlain name
  pub open_ : All (λ c. (b'>' == c) ≡ false) name

take_name :
    (limit : ℕ) (name rest : List ℕ)
    → length name < limit
    → All IsPlain name
    → take_word limit (name ++ b' ' ∷ rest) ≡ (name, b' ' ∷ rest)
unfolding take_word
take_name zero name rest h a = absurd (omega arith)
take_name (suc limit) [] rest h a = refl
take_name (suc limit) (c ∷ cs) rest h (p, a) = rw (p, take_name limit cs rest (omega arith) a) refl

-- The tag as it is printed for a text.
unfoldable pub tag_for : List ℕ → List ℕ → List ℕ
tag_for name text =
    b'<' ∷ (name ++ b' ' ∷ (print_nat (length text) ++ b' ' ∷ (scrc16 text ++ b'>' ∷ [])))

pub scan_tag-tag_for :
    (name text : List ℕ)
    → IsName name
    → scan_tag (tag_for name text) ≡ some (name, pos (length text), crc16 text)
unfolding scan_tag tag_for some_word
scan_tag-tag_for [] text n = absurd (omega (arith, n.some_name))
scan_tag-tag_for (c ∷ cs) text n =
    let behind = print_nat (length text) ++ b' ' ∷ (scrc16 text ++ b'>' ∷ []) in
    let start = skip_spaces-plain c (cs ++ b' ' ∷ behind) n.plain.0 in
    let word = take_name 32 (c ∷ cs) behind (omega (arith, n.short)) n.plain in
    let number =
      scan_int_rest-blank behind
      ∙ scan_int_rest-print_nat (length text) (b' ' ∷ (scrc16 text ++ b'>' ∷ [])) refl in
    rw (start, word, number, scan_hex-scrc16 text, scan_tag) refl
