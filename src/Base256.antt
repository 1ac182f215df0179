-- ===== src/Base256.antt =====
-- `base256` (src/utils/base256.cxx): a decimal count, a line feed, and the escaped text.
mod Tests
pub mod RoundTrip
use flimg.Prelude.{
  ℕ, suc, List, [], ◌∷◌, ◌++◌, Bool, Option, none, some, true, false, codes, drop, length,
}
use flimg.Cstd.{print_int, to_int, find_char}
use flimg.Escape.{escape, unescape}

-- What `decode` puts out, with the flag that it sets by reference.
pub record Decoded : Type 0 where
  pub output : List ℕ
  pub decode_error : Bool

abbrev pub missing_count : List ℕ
missing_count = codes "ERROR: base256 missing character count"

unfoldable pub encode : List ℕ → List ℕ
unfolding escape print_int
encode in_text = print_int (to_int (length in_text)) ++ 10 ∷ escape in_text

-- The count is converted and not used.
unfoldable pub decode : List ℕ → Decoded
unfolding find_char unescape
decode in_text = elim (find_char 10 in_text) [
  | none ↦ record { output = missing_count; decode_error = true }
  | some p ↦ record { output = unescape (drop (suc p) in_text); decode_error = false }
]
