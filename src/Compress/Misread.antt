-- ===== src/Compress/Misread.antt =====
-- A text that holds the mark of compressed data is not taken out again.
use flimg.Prelude.{
  ℕ, ◌^◌, ◌<◌, ◌≤◌, ◌≡◌, refl, ◌∙◌, arith, true, false, List, [], ◌∷◌, some, inl, inr,
}
use flimg.Prelude.{All, length, drop, codes, ltb, lt→ltb, ◌==◌, ==_iff, Bool-cases, Option-cases}
use flimg.Cstd.{find_text, starts_with}
use flimg.PlainText.{not_allowed}
use flimg.Compress.{
  Lzma, Encoding, Located, lzma_str, binary, encoded, ntohl, compress_maybe, inflated, put_back,
  decompress_maybe,
}
use flimg.Compress.Decoding.{decompress_maybe-encoded}

-- A text with the byte 1 in it is binary.
binary-found : (s ns : List ℕ) (p : ℕ) → find_text (1 ∷ ns) s ≡ some p → binary s ≡ true
unfolding find_text starts_with binary not_allowed
binary-found [] ns p h = cc
binary-found (c ∷ cs) ns p h = elim (Bool-cases (1 == c)) [
  | inl e ↦ rw (← (==_iff 1 c).0 e) refl
  | inr e ↦ elim (Option-cases (find_text (1 ∷ ns) cs)) [
    | inl n ↦ ground (arith)
    | inr (q, f) ↦ rw (binary-found cs ns q f) (ground arith)
  ]
]

too_large :
    (lzma : Lzma) (input : List ℕ) (at : Located) (text : List ℕ) (p : ℕ)
    → find_text lzma_str text ≡ some p
    → 9 ≤ length text
    → 2 ^ 25 < ntohl (drop 5 text)
    → put_back lzma input at text ≡ some input
unfolding put_back inflated
too_large lzma input at text p found long large =
    rw (found, put_back)
      (rw (not_less (length text) 9 long, lt→ltb (2 ^ 25) (ntohl (drop 5 text)) large, inflated)
        refl)
  where
    not_less : (a b : ℕ) → b ≤ a → ltb a b ≡ false
    not_less a b h = ground arith

-- `decompress_maybe` looks for the mark of compressed data anywhere in the decoded text, but reads
-- the length behind its fifth byte. So a text of at least nine bytes with the mark anywhere in it,
-- whose bytes 5 to 8 read as a length above 2 ^ 25, stays encoded, though it was not compressed.
pub decompress_maybe-misread :
    (lzma : Lzma) (unset : ℕ) (input : List ℕ) (encode_with : Encoding) (p : ℕ)
    → All (λ c. c < 256) input
    → length input < 2 ^ 31
    → find_text lzma_str input ≡ some p
    → 9 ≤ length input
    → 2 ^ 25 < ntohl (drop 5 input)
    → (compress_maybe lzma input encode_with false ≡ encoded encode_with input)
      × (decompress_maybe lzma unset (encoded encode_with input) ≡ some (encoded encode_with input))
unfolding compress_maybe
decompress_maybe-misread lzma unset input enc p h small found long large =
    let (at, e, put) = decompress_maybe-encoded lzma unset enc input h small in
    (
      rw (binary-found input (codes "LZMA") p found) refl,
      e ∙ too_large lzma (encoded enc input) at input p found long large,
    )
