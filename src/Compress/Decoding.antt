-- ===== src/Compress/Decoding.antt =====
-- The marks of an encoded text are found, and what stands between them is decoded.
use flimg.Prelude.{ℕ, ◌^◌, ◌<◌, ◌≡◌, refl, ap, ◌∙◌, false, List, ◌∷◌, ◌++◌, none, some}
use flimg.Prelude.{All, codes, length}
use flimg.Cstd.{find_text, found_behind, ℤ, to_int, print_int, starts_with}
use flimg.Escape.{escape}
use flimg.Base64
use flimg.Base64.RoundTrip.{decode-encode_text}
use flimg.Base128
use flimg.Base128.RoundTrip as Groups
use flimg.Base256
use flimg.Base256.RoundTrip.{decode-encode_any}
use flimg.Compress.{
  Lzma, Encoding, none_set, base64, base128, base256, b64_start, b64_end, b128_start, b128_end,
  b256_start, b256_end, base64encode, base128encode, base256encode, encoded, Located, find_marks,
  decoded, replaced, put_back, decompress_maybe,
}
use flimg.Cstd.Finding.{find_text-append, Absent, Absent-lacking, find_text-Absent}
use flimg.Compress.Marks.{IsInner, start-Absent, end-Absent, encode-lacks}
use flimg.Compress.Wrapping.{
  wrapped, around, behind_zero, located-wrapped, replaced-wrapped, decompress_maybe-wrapped,
}

-- A mark of another encoding.
no_mark :
    (needle start_mark body end_mark : List ℕ)
    → Absent needle start_mark (body ++ end_mark)
    → Absent needle body end_mark
    → find_text needle end_mark ≡ none
    → find_text needle (wrapped start_mark end_mark body) ≡ none
unfolding wrapped found_behind
no_mark needle start_mark body end_mark a b e =
    find_text-Absent needle start_mark (body ++ end_mark) a
    ∙ ap (found_behind (length start_mark))
        (find_text-Absent needle body end_mark b ∙ ap (found_behind (length body)) e)

end_mark_found :
    (end_mark body : List ℕ)
    → Absent end_mark body end_mark
    → find_text end_mark end_mark ≡ some 0
    → find_text end_mark (body ++ end_mark) ≡ some (length body)
unfolding found_behind
end_mark_found end_mark body a e =
    find_text-Absent end_mark body end_mark a
    ∙ ap (found_behind (length body)) e
    ∙ ap some (behind_zero (length body))

start_found :
    (start_mark end_mark body : List ℕ)
    → find_text start_mark (wrapped start_mark end_mark body) ≡ some 0
unfolding wrapped
start_found start_mark end_mark body = find_text-append start_mark (body ++ end_mark)

b64_marks :
    (text : List ℕ)
    → find_marks (wrapped b64_start b64_end (Base64.encode false text))
      ≡ some (around none_set b64_start b64_end (Base64.encode false text))
unfolding find_text starts_with find_marks around
b64_marks text =
    let body = Base64.encode false text in
    rw (start_found b64_start b64_end body, find_marks)
      (located-wrapped none_set b64_start b64_end body (
        end_mark_found b64_end body
          (Absent-lacking 10 (codes "[b64:end]") body b64_end (encode-lacks 10 refl text)) refl))

-- The inner characters of the marks are neither colons nor line feeds.
b64-IsInner : All IsInner (codes "b64")
b64-IsInner = ((refl, refl), ((refl, refl), ((refl, refl), tt)))

b128-IsInner : All IsInner (codes "b128")
b128-IsInner = ((refl, refl), ((refl, refl), ((refl, refl), ((refl, refl), tt))))

b256-IsInner : All IsInner (codes "b256")
b256-IsInner = ((refl, refl), ((refl, refl), ((refl, refl), ((refl, refl), tt))))

module _ (z : ℤ) (cs : List ℕ) where
  counted : List ℕ
  counted = print_int z ++ 10 ∷ escape cs

  b128_found :
      find_marks (wrapped b128_start b128_end counted)
      ≡ some (around base128 b128_start b128_end counted)
  unfolding find_text starts_with find_marks around counted
  b128_found =
      let r = codes "[b128:end]" in
      rw
        (
          no_mark b64_start b128_start counted b128_end
              (
                refl,
                (
                  refl,
                  (
                    refl,
                    (refl, (refl, (refl, (refl, (refl, (refl, (refl, (refl, (refl, tt))))))))),
                  ),
                ),
              )
              (start-Absent b's' (codes "tart]") (codes "b64") refl z cs r b64-IsInner) refl,
          start_found b128_start b128_end counted,
          find_marks,
        )
        (located-wrapped base128 b128_start b128_end counted (
          end_mark_found b128_end counted
            (end-Absent b'e' (codes "nd]") (codes "[b128") refl z cs r ((refl, refl), b128-IsInner))
            refl))

  b256_found :
      find_marks (wrapped b256_start b256_end counted)
      ≡ some (around base256 b256_start b256_end counted)
  unfolding find_text starts_with find_marks around counted
  b256_found =
      let r = codes "[b256:end]" in
      rw
        (
          no_mark b64_start b256_start counted b256_end
              (
                refl,
                (
                  refl,
                  (
                    refl,
                    (refl, (refl, (refl, (refl, (refl, (refl, (refl, (refl, (refl, tt))))))))),
                  ),
                ),
              )
              (start-Absent b's' (codes "tart]") (codes "b64") refl z cs r b64-IsInner) refl,
          no_mark b128_start b256_start counted b256_end
              (
                refl,
                (
                  refl,
                  (
                    refl,
                    (refl, (refl, (refl, (refl, (refl, (refl, (refl, (refl, (refl, tt))))))))),
                  ),
                ),
              )
              (start-Absent b's' (codes "tart]") (codes "b128") refl z cs r b128-IsInner) refl,
          start_found b256_start b256_end counted,
          find_marks,
        )
        (located-wrapped base256 b256_start b256_end counted (
          end_mark_found b256_end counted
            (end-Absent b'e' (codes "nd]") (codes "[b256") refl z cs r ((refl, refl), b256-IsInner))
            refl))

decoded-base128 :
    (unset : ℕ) (text : List ℕ)
    → All (λ c. c < 256) text
    → length text < 2 ^ 31
    → decoded unset base128 (Base128.encode text) ≡ some (text, false)
unfolding decoded
decoded-base128 unset text h small = rw (Groups.decode-encode text h small, decoded) refl

decoded-base256 :
    (unset : ℕ) (text : List ℕ) → decoded unset base256 (Base256.encode text) ≡ some (text, false)
unfolding decoded
decoded-base256 unset text = rw (decode-encode_any text, decoded) refl

-- What `decompress_maybe` does with an encoded text: it decodes it, and puts the text in its place.
pub decompress_maybe-encoded :
    (lzma : Lzma) (unset : ℕ) (enc : Encoding) (text : List ℕ)
    → All (λ c. c < 256) text
    → length text < 2 ^ 31
    → (at : Located) × (decompress_maybe lzma unset (encoded enc text)
        ≡ put_back lzma (encoded enc text) at text)
      × ((t : List ℕ) → replaced (encoded enc text) at t ≡ t)
unfolding encoded base64encode base128encode base256encode wrapped decoded counted Base128.encode
    Base256.encode
decompress_maybe-encoded lzma unset base64 text h small =
    let body = Base64.encode false text in
    (
      around none_set b64_start b64_end body,
      decompress_maybe-wrapped none_set b64_start b64_end body lzma unset text (b64_marks text)
          (ap some (decode-encode_text unset false text h)),
      replaced-wrapped none_set b64_start b64_end body,
    )
decompress_maybe-encoded lzma unset none_set text h small =
    let body = Base64.encode false text in
    (
      around none_set b64_start b64_end body,
      decompress_maybe-wrapped none_set b64_start b64_end body lzma unset text (b64_marks text)
          (ap some (decode-encode_text unset false text h)),
      replaced-wrapped none_set b64_start b64_end body,
    )
decompress_maybe-encoded lzma unset base128 text h small =
    let body = Base128.encode text in
    (
      around base128 b128_start b128_end body,
      decompress_maybe-wrapped base128 b128_start b128_end body lzma unset text
          (b128_found (to_int (length text)) (Base128.encode_groups text))
          (decoded-base128 unset text h small),
      replaced-wrapped base128 b128_start b128_end body,
    )
decompress_maybe-encoded lzma unset base256 text h small =
    let body = Base256.encode text in
    (
      around base256 b256_start b256_end body,
      decompress_maybe-wrapped base256 b256_start b256_end body lzma unset text
          (b256_found (to_int (length text)) text) (decoded-base256 unset text),
      replaced-wrapped base256 b256_start b256_end body,
    )
