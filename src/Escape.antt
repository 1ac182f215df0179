-- ===== src/Escape.antt =====
-- The two-character escapes that `base128::escape` (src/utils/base128.cxx) and `base256::escape`
-- (src/utils/base256.cxx) put in place of the bytes that fldigi and the modems do not pass on.
pub mod RoundTrip
mod Tests
use flimg.Prelude.{ℕ, ◌+◌, ◌-◌, ◌&&◌, List, [], ◌∷◌, ◌++◌, true, false}
use flimg.Prelude.{leb, ◌==◌, if◌then◌else◌}

-- The switch of the encoding branch, for one character.
unfoldable pub escape_char : ℕ → List ℕ
escape_char c =
    if c == b':'
    then b':' ∷ b':' ∷ []
    else if leb c 9
    then b':' ∷ (b'0' + c) ∷ []
    else if c == 10
    then b':' ∷ b'A' ∷ []
    else if c == 13
    then b':' ∷ b'B' ∷ []
    else if c == b'^'
    then b':' ∷ b'C' ∷ []
    else if c == 0x7F
    then b':' ∷ b'D' ∷ []
    else if c == 0xFF
    then b':' ∷ b'E' ∷ []
    else c ∷ []

-- `escape(in, true)`
unfoldable pub escape : List ℕ → List ℕ
unfolding escape_char
escape [] = []
escape (c ∷ cs) = escape_char c ++ escape cs

-- The switch of the decoding branch, for the character behind a colon; others put out nothing.
unfoldable pub unescape_char : ℕ → List ℕ
unescape_char d =
    if d == b':'
    then b':' ∷ []
    else if leb b'0' d && leb d b'9'
    then (d - b'0') ∷ []
    else if d == b'A'
    then 10 ∷ []
    else if d == b'B'
    then 13 ∷ []
    else if d == b'C'
    then b'^' ∷ []
    else if d == b'D'
    then 0x7F ∷ []
    else if d == b'E'
    then 0xFF ∷ []
    else []

-- `escape(in, false)`. Behind a colon at the very end the source reads the string's closing 0.
unfoldable pub unescape : List ℕ → List ℕ
unfolding unescape_char
unescape [] = []
unescape (c ∷ []) = if c == b':' then unescape_char 0 else c ∷ []
unescape (c ∷ d ∷ rest) = elim (c == b':') [
  | true ↦ unescape_char d ++ unescape rest
  | false ↦ c ∷ unescape (d ∷ rest)
]
