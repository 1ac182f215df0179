-- ===== src/Escape/RoundTrip.antt =====
-- Escaped text passes the modems and comes back.
use flimg.Prelude.{
  ℕ, ◌+◌, ◌*◌, ◌≤◌, ◌<◌, ◌≡◌, ◌≢◌, refl, ap, ◌∙◌, arith, List, [], ◌∷◌, ◌++◌, All, All-append,
  length, length-append,
}
use flimg.Prelude.{◌==◌, false}
use flimg.Escape.{escape_char, escape, unescape_char, unescape}

abbrev pub IsByte : ℕ → Type 0
IsByte c = c < 256

-- A byte that the modems pass on: none of the control codes 0 to 10 and 13, `^`, 0x7F and 0xFF.
abbrev pub PassesModem : ℕ → Type 0
PassesModem c = (10 < c) × (c ≢ 13) × (c ≢ b'^') × (c ≢ 0x7F) × (c ≢ 0xFF)

unescape_plain :
    (c : ℕ) (rest : List ℕ) → (c == b':') ≡ false → unescape (c ∷ rest) ≡ c ∷ unescape rest
unfolding unescape
unescape_plain c [] h = rw h
unescape_plain c (d ∷ rest) h = rw (h, unescape)

unescape_pair :
    (d : ℕ) (rest : List ℕ) → unescape (b':' ∷ d ∷ rest) ≡ unescape_char d ++ unescape rest
unfolding unescape
unescape_pair d rest = refl

-- One character of the source, and what follows.
unescape-escape_char :
    (c : ℕ) (rest : List ℕ) → unescape (escape_char c ++ rest) ≡ c ∷ unescape rest
unfolding escape_char unescape_char
unescape-escape_char c rest = ground (
  arith,
  unescape_plain c rest,
  unescape_pair b':' rest,
  unescape_pair (b'0' + c) rest,
  unescape_pair b'A' rest,
  unescape_pair b'B' rest,
  unescape_pair b'C' rest,
  unescape_pair b'D' rest,
  unescape_pair b'E' rest,
)

-- Decoding undoes encoding on every text.
pub unescape-escape : (s : List ℕ) → unescape (escape s) ≡ s
unfolding escape unescape
unescape-escape [] = refl
unescape-escape (c ∷ cs) = unescape-escape_char c (escape cs) ∙ ap (λ t. c ∷ t) (unescape-escape cs)

escape_char-PassesModem : (c : ℕ) → IsByte c → All PassesModem (escape_char c)
unfolding escape_char
escape_char-PassesModem c h = ground arith

-- The escape of a text of bytes holds no byte that a modem or fldigi would act on.
pub escape-PassesModem : (s : List ℕ) → All IsByte s → All PassesModem (escape s)
unfolding escape
escape-PassesModem [] h = tt
escape-PassesModem (c ∷ cs) (h, hs) =
    All-append PassesModem (escape_char c) (escape cs) (escape_char-PassesModem c h)
      (escape-PassesModem cs hs)

-- Nothing gets shorter, and no more than twice as long.
pub length-escape :
    (s : List ℕ) → (length s ≤ length (escape s)) × (length (escape s) ≤ 2 * length s)
unfolding escape escape_char
length-escape [] = omega arith
length-escape (c ∷ cs) = ground (arith, length-append (escape_char c) (escape cs), length-escape cs)
