-- ===== src/Base256/Tests.antt =====
-- Runs of `base256`.
use flimg.Prelude.{◌≡◌, refl, codes, false}
use flimg.Base256.{encode, decode}
use flimg.Base256.RoundTrip.{decode-encode_any}

encode_colon : encode (codes "a:^") ≡ codes "3\na:::C"
unfolding encode
encode_colon = refl

decode-encode_any_example :
    decode (encode (codes "a:^")) ≡ record { output = codes "a:^"; decode_error = false }
decode-encode_any_example = decode-encode_any (codes "a:^")
