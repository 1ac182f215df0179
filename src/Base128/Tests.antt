-- ===== src/Base128/Tests.antt =====
-- Runs of `base128`, and its theorems at concrete texts.
use flimg.Prelude.{◌≡◌, refl, arith, ◌∷◌, ◌++◌, codes, true, false}
use flimg.Cstd.{pos, print_int, find_char, scan_int}
use flimg.Escape.{escape, unescape}
use flimg.Base128.{
  pack, encode_groups, encode, decode_groups, returns, undefined, decode_body, decode_counted,
  decode,
}
use flimg.Base128.RoundTrip.{decode-encode}
use flimg.Base128.Overrun.{decode_overrun}

encode_abc : encode (codes "abc") ≡ codes "3\n0XL0:0:0:0:0"
unfolding encode encode_groups pack escape print_int
encode_abc = refl

decode_short :
    decode (codes "3\nabc")
    ≡ returns (record { output = codes "ERROR: b128 file length error.\n"; decode_error = true })
unfolding decode decode_counted decode_body decode_groups find_char scan_int unescape
decode_short = refl

decode-encode_example :
    decode (encode (codes "nine byte"))
    ≡ returns (record { output = codes "nine byte"; decode_error = false })
decode-encode_example = decode-encode (codes "nine byte") (omega arith) (omega arith)

decode_overrun_example : decode (print_int (pos 8) ++ 10 ∷ codes "abcdefgh") ≡ undefined
unfolding unescape
decode_overrun_example = decode_overrun 8 (codes "abcdefgh") refl (omega arith)
