-- ===== src/Base256/RoundTrip.antt =====
-- What `base256` encodes is decoded to itself, and survives the modems.
use flimg.Prelude.{ℕ, List, ◌≡◌, ap, ◌∙◌, false, length, drop_behind}
use flimg.Cstd.{print_int, to_int}
use flimg.Cstd.Decimal.{find_char-print_int}
use flimg.Escape.{escape, unescape}
use flimg.Escape.RoundTrip.{unescape-escape}
use flimg.Base256.{encode, decode}

-- `decode` gives back what `encode` was given, and reports no error.
pub decode-encode_any :
    (s : List ℕ) → decode (encode s) ≡ record { output = s; decode_error = false }
unfolding decode encode
decode-encode_any s =
    let count = print_int (to_int (length s)) in
    rw (find_char-print_int (to_int (length s)) (escape s), decode)
      (ap (λ t. record { output = t; decode_error = false })
        (ap unescape (drop_behind count 10 (escape s)) ∙ unescape-escape s))
