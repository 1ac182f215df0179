-- ===== src/Compress.antt =====
-- `compress_maybe` and `decompress_maybe` of src/utils/file_io.cxx: a file is compressed, encoded and
-- put between marks, and taken out again.
--
-- LZMA is a parameter. The room that it is given depends on the length of the text alone, so that
-- what it returns is a function of the text.
pub mod Marks
pub mod Wrapping
pub mod Decoding
pub mod RoundTrip
pub mod Misread
mod Tests
use flimg.Prelude.{
  ℕ, suc, ◌+◌, ◌-◌, ◌*◌, ◌/◌, ◌%◌, ◌^◌, ◌<◌, ◌≡◌, Bool, true, false, not, List, [], ◌∷◌, ◌++◌,
  Option, none, some,
}
use flimg.Prelude.{All, ltb, ◌==◌, if◌then◌else◌, take, drop, length, codes}
use flimg.Cstd.{find_text, found_behind}
use flimg.PlainText.{not_allowed}
use flimg.Base64
use flimg.Base128
use flimg.Base128.{returns, undefined}
use flimg.Base256

-- `LzmaCompress` gives the properties and the compressed bytes, or an error; `LzmaUncompress` is
-- told the length, the bytes and the properties.
pub record Lzma : Type 0 where
  pub compress : List ℕ → Option (List ℕ × List ℕ)
  pub uncompress : ℕ → List ℕ → List ℕ → Option (List ℕ)

-- The documented behaviour: five bytes of properties, and the text again from what was made of it.
pub record IsLzma (lzma : Lzma) : Type 0 where
  pub props_size :
      (text props packed : List ℕ) → lzma.compress text ≡ some (props, packed) → length props ≡ 5
  pub gives_bytes :
      (text props packed : List ℕ)
      → lzma.compress text ≡ some (props, packed)
      → All (λ c. c < 256) (props ++ packed)
  pub restores :
      (text props packed : List ℕ)
      → lzma.compress text ≡ some (props, packed)
      → lzma.uncompress (length text) packed props ≡ some text

-- The enumeration of the encodings, where `none_set` also stands for other numbers.
pub data Encoding : Type 0 where
  none_set base64 base128 base256 : Encoding

abbrev pub b64_start : List ℕ
b64_start = codes "[b64:start]"

abbrev pub b64_end : List ℕ
b64_end = 10 ∷ codes "[b64:end]"

abbrev pub b128_start : List ℕ
b128_start = codes "[b128:start]"

abbrev pub b128_end : List ℕ
b128_end = 10 ∷ codes "[b128:end]"

abbrev pub b256_start : List ℕ
b256_start = codes "[b256:start]"

abbrev pub b256_end : List ℕ
b256_end = 10 ∷ codes "[b256:end]"

abbrev pub lzma_str : List ℕ
lzma_str = 1 ∷ codes "LZMA"

unfoldable pub base64encode : List ℕ → List ℕ
base64encode inptext = b64_start ++ (Base64.encode false inptext ++ b64_end)

unfoldable pub base128encode : List ℕ → List ℕ
base128encode inptext = b128_start ++ (Base128.encode inptext ++ b128_end)

unfoldable pub base256encode : List ℕ → List ℕ
base256encode inptext = b256_start ++ (Base256.encode inptext ++ b256_end)

-- The branches on `encode_with`.
unfoldable pub encoded : Encoding → List ℕ → List ℕ
encoded base256 bufstr = base256encode bufstr
encoded base128 bufstr = base128encode bufstr
encoded base64 bufstr = base64encode bufstr
encoded none_set bufstr = base64encode bufstr

unfoldable pub binary : List ℕ → Bool
binary [] = false
binary (c ∷ cs) = let rest = binary cs in if not (not_allowed (c % 256) == 0) then true else rest

-- The four bytes of `htonl`, and `ntohl` of four bytes.
unfoldable pub htonl : ℕ → List ℕ
htonl n = n / 2 ^ 24 % 256 ∷ n / 2 ^ 16 % 256 ∷ n / 2 ^ 8 % 256 ∷ n % 256 ∷ []

unfoldable pub ntohl : List ℕ → ℕ
ntohl (a ∷ b ∷ c ∷ d ∷ rest) = a * 2 ^ 24 + b * 2 ^ 16 + c * 2 ^ 8 + d
ntohl _ = 0

-- The text that is encoded when compression is tried.
unfoldable pub compressed : Lzma → List ℕ → List ℕ
compressed lzma input = elim (lzma.compress input) [
  | none ↦ input
  | some (outprops, buf) ↦
      let bufstr = lzma_str ++ (htonl (length input) ++ (outprops ++ buf)) in
      if ltb (length input) (length bufstr) then input else bufstr
]

unfoldable pub compress_maybe : Lzma → List ℕ → Encoding → Bool → List ℕ
compress_maybe lzma input encode_with try_compress =
    if try_compress
    then encoded encode_with (compressed lzma input)
    else if binary input
    then encoded encode_with input
    else input

-- Where the marks are: the start mark, the text behind it, and the end mark. `none` is a mark that
-- is missing.
pub record Located : Type 0 where
  pub decode : Encoding
  pub p0 : ℕ
  pub p1 : ℕ
  pub p2 : ℕ
  pub p3 : ℕ

unfoldable pub located : Encoding → List ℕ → List ℕ → ℕ → List ℕ → Option Located
located decode start_mark end_mark p0 input =
    let p1 = p0 + length start_mark in
    elim (found_behind p1 (find_text end_mark (drop p1 input))) [
      | none ↦ none
      | some p2 ↦
          some (record { decode = decode; p0 = p0; p1 = p1; p2 = p2; p3 = p2 + length end_mark })
    ]

unfoldable pub find_marks : List ℕ → Option Located
find_marks input = elim (find_text b64_start input) [
  | some p0 ↦ located none_set b64_start b64_end p0 input
  | none ↦ elim (find_text b128_start input) [
    | some p0 ↦ located base128 b128_start b128_end p0 input
    | none ↦ elim (find_text b256_start input) [
      | some p0 ↦ located base256 b256_start b256_end p0 input
      | none ↦ none
    ]
  ]
]

-- The text and the error flag; `none` where base128 reads memory that is not set. `unset` is the
-- entry of base64's table that is never assigned.
unfoldable pub decoded : ℕ → Encoding → List ℕ → Option (List ℕ × Bool)
decoded unset base128 cmpstr = elim (Base128.decode cmpstr) [
  | returns d ↦ some (d.output, d.decode_error)
  | undefined ↦ none
]
decoded unset base256 cmpstr = let d = Base256.decode cmpstr in some (d.output, d.decode_error)
decoded unset base64 cmpstr = some (Base64.decode unset cmpstr)
decoded unset none_set cmpstr = some (Base64.decode unset cmpstr)

-- `input.replace(p0, p3 - p0, cmpstr)`
unfoldable pub replaced : List ℕ → Located → List ℕ → List ℕ
replaced input at cmpstr = take at.p0 input ++ (cmpstr ++ drop at.p3 input)

-- The part for compressed data. `none` is a read behind the end of the text.
unfoldable pub inflated : Lzma → List ℕ → Located → List ℕ → Option (List ℕ)
inflated lzma input at cmpstr =
    let outlen = ntohl (drop 5 cmpstr) in
    if ltb (length cmpstr) 9
    then none
    else if ltb (2 ^ 25) outlen
    then some input
    else if ltb (length cmpstr) 14
    then none
    else elim (lzma.uncompress outlen (drop 14 cmpstr) (take 5 (drop 9 cmpstr))) [
      | none ↦ some input
      | some text ↦ some (replaced input at text)
    ]

unfoldable pub put_back : Lzma → List ℕ → Located → List ℕ → Option (List ℕ)
put_back lzma input at cmpstr = elim (find_text lzma_str cmpstr) [
  | none ↦ some (replaced input at cmpstr)
  | some p ↦ inflated lzma input at cmpstr
]

unfoldable pub decompress_maybe : Lzma → ℕ → List ℕ → Option (List ℕ)
decompress_maybe lzma unset input = elim (find_marks input) [
  | none ↦ some input
  | some at ↦ elim (decoded unset at.decode (take (at.p2 - at.p1) (drop at.p1 input))) [
    | none ↦ none
    | some (cmpstr, decode_error) ↦
        if decode_error then some input else put_back lzma input at cmpstr
  ]
]
