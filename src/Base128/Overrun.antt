-- ===== src/Base128/Overrun.antt =====
-- A count that is too large for the text behind it: the loop of `base128::decode` reads on.
use flimg.Prelude.{ℕ, ◌+◌, ◌*◌, ◌%◌, ◌<◌, ◌≡◌, ◌∙◌, arith, List, ◌∷◌, ◌++◌, none, lt→ltb, length}
use flimg.Cstd.{pos, print_int}
use flimg.Escape.{unescape}
use flimg.Base128.{decode_groups, undefined, decode_counted, decode_body, decode}
use flimg.Base128.RoundTrip.{decode_behind}

-- Eight values are read for seven bytes, so a text shorter than 8 / 7 of the count runs out.
decode_groups_overrun :
    (temp : List ℕ) (i n : ℕ) → length temp * 7 + 8 * i < 8 * n → decode_groups i n temp ≡ none
unfolding decode_groups
decode_groups_overrun (a ∷ b ∷ c ∷ d ∷ e ∷ f ∷ g ∷ h ∷ rest) i n p =
    rw (lt→ltb i n (omega arith), decode_groups_overrun rest (i + 7) n (omega arith))
decode_groups_overrun _ i n p = rw (lt→ltb i n (omega arith))

-- A received text whose count exceeds 7 / 8 of its unescaped body, of whole groups, makes `decode`
-- read memory behind the text; it is not refused as an error.
pub decode_overrun :
    (n : ℕ) (body : List ℕ)
    → length (unescape body) % 8 ≡ 0
    → length (unescape body) * 7 < 8 * n
    → decode (print_int (pos n) ++ 10 ∷ body) ≡ undefined
unfolding decode_counted decode_body
decode_overrun n body whole long =
    decode_behind n body ∙ rw (whole, decode_groups_overrun (unescape body) 0 n (omega arith))
