-- ===== src/Compress/RoundTrip.antt =====
-- `decompress_maybe` undoes `compress_maybe`.
use flimg.Prelude.{
  ℕ, ◌+◌, ◌^◌, ◌<◌, ◌≤◌, ◌≡◌, refl, ap, sym, ◌∙◌, arith, Bool, true, false, List, ◌++◌, none, some,
  ◌⊎◌, inl, inr,
}
use flimg.Prelude.{
  All, length, length-append, take, drop, take_append, drop_append, ltb, Bool-cases, Option-cases,
}
use flimg.Cstd.{find_text}
use flimg.Compress.{
  Lzma, IsLzma, Encoding, lzma_str, encoded, binary, htonl, ntohl, compressed, compress_maybe,
  Located, find_marks, replaced, inflated, put_back, decompress_maybe,
}
use flimg.Cstd.Finding.{find_text-append}
use flimg.Compress.Decoding.{decompress_maybe-encoded}

-- The text that `compress_maybe` encodes when LZMA has made it shorter.
packed_text : List ℕ → List ℕ → List ℕ → List ℕ
packed_text input props buf = lzma_str ++ (htonl (length input) ++ (props ++ buf))

ntohl-htonl : (n : ℕ) (rest : List ℕ) → n < 2 ^ 32 → ntohl (htonl n ++ rest) ≡ n
unfolding ntohl htonl
ntohl-htonl n rest h = omega arith

packed-bytes :
    (input props buf : List ℕ)
    → All (λ c. c < 256) (props ++ buf)
    → All (λ c. c < 256) (packed_text input props buf)
unfolding packed_text htonl
packed-bytes input props buf h = (
  omega arith,
  (
    omega arith,
    (
      omega arith,
      (omega arith, (omega arith, (omega arith, (omega arith, (omega arith, (omega arith, h)))))),
    ),
  ),
)

length-packed :
    (input props buf : List ℕ)
    → length props ≡ 5
    → length (packed_text input props buf) ≡ 14 + length buf
unfolding packed_text htonl
length-packed input props buf h = omega (arith, length-append {0} props buf)

put_back-plain :
    (lzma : Lzma) (input : List ℕ) (at : Located) (text : List ℕ)
    → find_text lzma_str text ≡ none
    → put_back lzma input at text ≡ some (replaced input at text)
unfolding put_back
put_back-plain lzma input at text h = rw (h, put_back) refl

drop-props : (props buf : List ℕ) (n : ℕ) → length props ≡ n → drop n (props ++ buf) ≡ buf
drop-props props buf n h = ap (λ k. drop k (props ++ buf)) (sym h) ∙ drop_append props buf

take-props : (props buf : List ℕ) (n : ℕ) → length props ≡ n → take n (props ++ buf) ≡ props
take-props props buf n h = ap (λ k. take k (props ++ buf)) (sym h) ∙ take_append props buf

module _ (text props buf : List ℕ) where
  packed_length :
      ntohl (drop 5 (packed_text text props buf)) ≡ ntohl (htonl (length text) ++ (props ++ buf))
  unfolding packed_text
  packed_length = refl

  packed_props : length props ≡ 5 → take 5 (drop 9 (packed_text text props buf)) ≡ props
  unfolding packed_text htonl
  packed_props h = take-props props buf 5 h

  packed_data : length props ≡ 5 → drop 14 (packed_text text props buf) ≡ buf
  unfolding packed_text htonl
  packed_data h = drop-props props buf 5 h

not_less : (a b : ℕ) → b ≤ a → ltb a b ≡ false
not_less a b h = ground arith

inflated-packed :
    (lzma : Lzma) (input : List ℕ) (at : Located) (text props buf : List ℕ)
    → IsLzma lzma
    → lzma.compress text ≡ some (props, buf)
    → length text ≤ 2 ^ 25
    → inflated lzma input at (packed_text text props buf) ≡ some (replaced input at text)
unfolding inflated
inflated-packed lzma input at text props buf laws c small =
    let five = laws.props_size text props buf c in
    let size = length-packed text props buf five in
    let told : ntohl (drop 5 (packed_text text props buf)) ≡ length text =
      packed_length text props buf ∙ ntohl-htonl (length text) (props ++ buf) (omega arith) in
    rw
      (
        not_less (length (packed_text text props buf)) 9 (omega arith),
        told,
        not_less (2 ^ 25) (length text) small,
        not_less (length (packed_text text props buf)) 14 (omega arith),
        packed_data text props buf five,
        packed_props text props buf five,
        laws.restores text props buf c,
        inflated,
      )
      refl

put_back-packed :
    (lzma : Lzma) (input : List ℕ) (at : Located) (text props buf : List ℕ)
    → IsLzma lzma
    → lzma.compress text ≡ some (props, buf)
    → length text ≤ 2 ^ 25
    → put_back lzma input at (packed_text text props buf) ≡ some (replaced input at text)
unfolding put_back packed_text
put_back-packed lzma input at text props buf laws c small =
    rw (find_text-append lzma_str (htonl (length text) ++ (props ++ buf)), put_back)
      (inflated-packed lzma input at text props buf laws c small)

-- An encoded text comes back as what its decoded form stands for.
through :
    (lzma : Lzma) (unset : ℕ) (enc : Encoding) (text t : List ℕ)
    → All (λ c. c < 256) text
    → length text < 2 ^ 31
    → ((input : List ℕ) (at : Located) → put_back lzma input at text ≡ some (replaced input at t))
    → decompress_maybe lzma unset (encoded enc text) ≡ some t
through lzma unset enc text t h small back =
    let (at, e, put) = decompress_maybe-encoded lzma unset enc text h small in
    e ∙ back (encoded enc text) at ∙ ap some (put t)

-- The text that is encoded: the packed one, if LZMA makes one that is not longer, or the input.
compressed-cases :
    (lzma : Lzma) (input : List ℕ)
    → (compressed lzma input ≡ input)
      ⊎ ((props : List ℕ) × (buf : List ℕ) × (lzma.compress input ≡ some (props, buf))
          × (compressed lzma input ≡ packed_text input props buf)
          × (length (packed_text input props buf) ≤ length input))
unfolding compressed packed_text
compressed-cases lzma input = elim (Option-cases (lzma.compress input)) [
  | inl e ↦ inl (rw (e, compressed) refl)
  | inr ((props, buf), e) ↦
      elim (Bool-cases (ltb (length input) (length (packed_text input props buf)))) [
        | inl l ↦ inl (rw (e, l, compressed) refl)
        | inr l ↦ inr (props, buf, e, rw (e, l, compressed) refl, ground arith)
      ]
]

encoded-compressed :
    (lzma : Lzma) (unset : ℕ) (input : List ℕ) (enc : Encoding)
    → IsLzma lzma
    → All (λ c. c < 256) input
    → length input ≤ 2 ^ 25
    → find_text lzma_str input ≡ none
    → decompress_maybe lzma unset (encoded enc (compressed lzma input)) ≡ some input
encoded-compressed lzma unset input enc laws h small unmarked = elim (compressed-cases lzma input) [
  | inl e ↦ rw e (
      through lzma unset enc input input h (omega arith)
        (λ other at. put_back-plain lzma other at input unmarked))
  | inr (props, buf, c, e, shorter) ↦ rw e (
      through lzma unset enc (packed_text input props buf) input
        (packed-bytes input props buf (laws.gives_bytes input props buf c)) (omega arith)
        (λ other at. put_back-packed lzma other at input props buf laws c small))
]

-- Take any LZMA that restores what it packs, any encoding, with compression and without. A text of
-- at most 2 ^ 25 bytes that does not hold the mark of compressed data comes back from
-- `decompress_maybe` as `compress_maybe` was given it, whatever the entry of base64's table that is
-- not assigned; where it is sent as it is, it must not hold a pair of marks itself.
pub decompress_maybe-compress_maybe :
    (lzma : Lzma) (unset : ℕ) (input : List ℕ) (encode_with : Encoding) (try_compress : Bool)
    → IsLzma lzma
    → All (λ c. c < 256) input
    → length input ≤ 2 ^ 25
    → find_text lzma_str input ≡ none
    → (try_compress ≡ false → binary input ≡ false → find_marks input ≡ none)
    → decompress_maybe lzma unset (compress_maybe lzma input encode_with try_compress) ≡ some input
unfolding compress_maybe
decompress_maybe-compress_maybe lzma unset input enc true laws h small unmarked bare =
    encoded-compressed lzma unset input enc laws h small unmarked
decompress_maybe-compress_maybe lzma unset input enc false laws h small unmarked bare =
    elim (Bool-cases (binary input)) [
      | inl b ↦ rw b (
          through lzma unset enc input input h (omega arith)
            (λ other at. put_back-plain lzma other at input unmarked))
      | inr b ↦ rw b (unfold decompress_maybe in rw (bare refl b, decompress_maybe) refl)
    ]
