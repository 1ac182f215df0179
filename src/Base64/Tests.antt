-- ===== src/Base64/Tests.antt =====
-- The round trip of `base64` at a text of 50 bytes, which takes two lines.
use flimg.Prelude.{
  ℕ, zero, suc, ◌++◌, ◌≡◌, refl, arith, true, false, List, [], ◌∷◌, All, codes, replicate,
}
use flimg.Prelude.{◌<◌}
use flimg.Base64.{
  decode, encode, put_out, ogroups, ogroup, ogroup_two, ogroup_one, etable, dtable, decode_loop,
  group_bytes,
}
use flimg.Base64.RoundTrip.{decode-encode_text}

abbrev fifty : List ℕ
fifty = replicate 50 200

fifty_are_bytes : (k : ℕ) → All (λ c. c < 256) (replicate k 200)
fifty_are_bytes zero = tt
fifty_are_bytes (suc k) = (omega arith, fifty_are_bytes k)

decode-encode_text_example : decode 7 (encode true fifty) ≡ (fifty, false)
decode-encode_text_example = decode-encode_text 7 true fifty (fifty_are_bytes 50)

encode_check : encode false (codes "Hello") ≡ codes "SGVsbG8="
unfolding encode put_out ogroups ogroup ogroup_two ogroup_one etable
encode_check = refl

-- With 7 in the entry 255, `decode` takes the character 255 for an `H`.
unset_check : decode 7 (codes "SGV" ++ 255 ∷ []) ≡ (codes "HeG", false)
unfolding decode decode_loop group_bytes dtable
unset_check = refl
