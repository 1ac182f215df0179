-- ===== src/PlainText.antt =====
-- What counts as plain text in src/utils/file_io.cxx, and `convert_to_plain_text` of
-- src/utils/amp.cxx, which makes a text plain. A `char` is its byte.
pub mod Converted
mod Tests
use flimg.Prelude.{ℕ, zero, suc, bit_and, Bool, true, false, not, ◌&&◌, ◌||◌, List, [], ◌∷◌, ◌++◌}
use flimg.Prelude.{leb, ◌==◌, if◌then◌else◌, get_or, length, replicate}

-- The table: the control characters up to the tab, 127 and 255.
unfoldable pub not_allowed : ℕ → ℕ
not_allowed c = get_or (replicate 10 1 ++ replicate 117 0 ++ 1 ∷ (replicate 127 0 ++ 1 ∷ [])) c 0

unfoldable pub c_binary : ℕ → Bool
c_binary c = not (not_allowed (bit_and c 0xff) == 0)

-- `isPlainText` of a string.
unfoldable pub is_plain_text : List ℕ → Bool
is_plain_text [] = true
is_plain_text (c ∷ cs) =
    let rest = is_plain_text cs in if c_binary c || not (bit_and c 0x80 == 0) then false else rest

-- `isPlainText` of a buffer and a count, where `null` tells that there is no buffer.
unfoldable pub is_plain_buffer : Bool → List ℕ → Bool
is_plain_buffer null s = if null || not (length s == 0) then false else is_plain_text s

-- The bytes that the loop keeps.
unfoldable pub is_kept : ℕ → Bool
is_kept c = (leb b' ' c && leb c b'~') || (c == 13) || (c == 10) || (c == 9)

unfoldable pub convert_to_plain_text : List ℕ → List ℕ
convert_to_plain_text [] = []
convert_to_plain_text (c ∷ cs) =
    let rest = convert_to_plain_text cs in if is_kept c then c ∷ rest else rest
