-- ===== src/Base128.antt =====
-- `base128` (src/utils/base128.cxx): a decimal count, a line feed, and the text as groups of eight
-- 7-bit values for seven bytes, escaped.
pub mod Groups
pub mod RoundTrip
pub mod Overrun
mod Tests
use flimg.Prelude.{
  ℕ, zero, suc, ◌+◌, ◌-◌, ◌*◌, ◌/◌, ◌%◌, ◌^◌, bit_and, bit_or, List, [], ◌∷◌, ◌++◌, Bool, Option,
  none, some, true, false,
}
use flimg.Prelude.{codes, take, drop, length, ltb, ◌==◌, if◌then◌else◌}
use flimg.Cstd.{ℤ, pos, negsuc, print_int, to_int, find_char, scan_int}
use flimg.Escape.{escape, unescape}

-- The eight values of `ogroup` for the seven bytes of `igroup`.
unfoldable pub pack : (a b c d e f g : ℕ) → List ℕ
pack a b c d e f g =
    bit_and (a / 2) 0x7F
    ∷ bit_or (bit_and (a * 2 ^ 6) 0x40) (bit_and (b / 2 ^ 2) 0x3F)
    ∷ bit_or (bit_and (b * 2 ^ 5) 0x60) (bit_and (c / 2 ^ 3) 0x1F)
    ∷ bit_or (bit_and (c * 2 ^ 4) 0x70) (bit_and (d / 2 ^ 4) 0x0F)
    ∷ bit_or (bit_and (d * 2 ^ 3) 0x78) (bit_and (e / 2 ^ 5) 0x07)
    ∷ bit_or (bit_and (e * 2 ^ 2) 0x7C) (bit_and (f / 2 ^ 6) 0x03)
    ∷ bit_or (bit_and (f * 2) 0x7E) (bit_and (g / 2 ^ 7) 0x01)
    ∷ bit_and g 0x7F
    ∷ []

-- The loop of `encode` over the input: a last group that is not full is filled with zeros.
unfoldable pub encode_groups : List ℕ → List ℕ
encode_groups [] = []
encode_groups (a ∷ []) = pack a 0 0 0 0 0 0
encode_groups (a ∷ b ∷ []) = pack a b 0 0 0 0 0
encode_groups (a ∷ b ∷ c ∷ []) = pack a b c 0 0 0 0
encode_groups (a ∷ b ∷ c ∷ d ∷ []) = pack a b c d 0 0 0
encode_groups (a ∷ b ∷ c ∷ d ∷ e ∷ []) = pack a b c d e 0 0
encode_groups (a ∷ b ∷ c ∷ d ∷ e ∷ f ∷ []) = pack a b c d e f 0
encode_groups (a ∷ b ∷ c ∷ d ∷ e ∷ f ∷ g ∷ rest) = pack a b c d e f g ++ encode_groups rest

unfoldable pub encode : List ℕ → List ℕ
encode in_text = print_int (to_int (length in_text)) ++ 10 ∷ escape (encode_groups in_text)

-- The seven bytes of `o` for the eight values of `b`.
unfoldable pub unpack : (a b c d e f g h : ℕ) → List ℕ
unpack a b c d e f g h =
    bit_or (bit_and (a * 2) 0xFE) (bit_and (b / 2 ^ 6) 0x01)
    ∷ bit_or (bit_and (b * 2 ^ 2) 0xFC) (bit_and (c / 2 ^ 5) 0x03)
    ∷ bit_or (bit_and (c * 2 ^ 3) 0xF8) (bit_and (d / 2 ^ 4) 0x07)
    ∷ bit_or (bit_and (d * 2 ^ 4) 0xF0) (bit_and (e / 2 ^ 3) 0x0F)
    ∷ bit_or (bit_and (e * 2 ^ 5) 0xE0) (bit_and (f / 2 ^ 2) 0x1F)
    ∷ bit_or (bit_and (f * 2 ^ 6) 0xC0) (bit_and (g / 2) 0x3F)
    ∷ bit_or (bit_and (g * 2 ^ 7) 0x80) (bit_and h 0x7F)
    ∷ []

-- `if (iocp++ < nbr) output += o[i];` over the seven bytes.
unfoldable pub keep : ℕ → ℕ → List ℕ → List ℕ
keep iocp nbr [] = []
keep iocp nbr (o ∷ os) =
    let more = keep (iocp + 1) nbr os in if ltb iocp nbr then o ∷ more else more

-- The loop of `decode`. A text is read eight values at a time with no look at its end: `none` is a
-- read behind it.
unfoldable pub decode_groups : ℕ → ℕ → List ℕ → Option (List ℕ)
decode_groups iocp nbr (a ∷ b ∷ c ∷ d ∷ e ∷ f ∷ g ∷ h ∷ rest) =
    let more = decode_groups (iocp + 7) nbr rest in
    if ltb iocp nbr
    then elim more [ none ↦ none | some out ↦ some (keep iocp nbr (unpack a b c d e f g h) ++ out) ]
    else some []
decode_groups iocp nbr _ = if ltb iocp nbr then none else some []

-- `nbr = itemp`, an `int` stored in a `size_t`.
abbrev pub to_size : ℤ → ℕ
to_size (pos n) = n
to_size (negsuc n) = 2 ^ 64 - 1 - n

-- What `decode` returns, with the flag that it sets by reference.
pub record Decoded : Type 0 where
  pub output : List ℕ
  pub decode_error : Bool

-- A result; or a read of memory that the program has not set: behind the end of the text, or of
-- the count where `sscanf` finds none.
pub data Outcome : Type 0 where
  returns : Decoded → Outcome
  undefined : Outcome

abbrev failure : List ℕ → Outcome
failure message = returns (record { output = message; decode_error = true })

unfoldable pub decode_body : ℕ → List ℕ → Outcome
decode_body nbr temp =
    if length temp % 8 == 0
    then elim (decode_groups 0 nbr temp) [
      | none ↦ undefined
      | some out ↦ returns (record { output = out; decode_error = false })
    ]
    else failure (codes "ERROR: b128 file length error.\n")

-- Behind the search for the line feed: `itemp` is what `sscanf` has stored, if anything.
unfoldable pub decode_counted : Option ℤ → List ℕ → Outcome
decode_counted none temp = undefined
decode_counted (some itemp) temp = decode_body (to_size itemp) temp

unfoldable pub decode : List ℕ → Outcome
decode in_text = elim (find_char 10 in_text) [
  | none ↦ failure (codes "ERROR: b128 missing character count")
  | some p ↦ decode_counted (scan_int (take p in_text)) (unescape (drop (suc p) in_text))
]
