-- ===== src/Base128/RoundTrip.antt =====
-- What `base128` encodes is decoded to itself.
use flimg.Prelude.{
  ℕ, suc, ◌+◌, ◌-◌, ◌%◌, ◌^◌, ◌≤◌, ◌<◌, ◌≡◌, refl, sym, ap, ap₂, ◌∙◌, arith, List, [], ◌∷◌, ◌++◌,
  append-nil,
}
use flimg.Prelude.{some, false, lt→ltb, take_nil, All, length, take, take_append, drop_behind}
use native.Mathlib.Decide.{dec_lt}
use flimg.Cstd.{scan_int, pos, print_int}
use flimg.Cstd.Decimal.{find_char-print_int, scan_int-print_int, to_int-pos}
use flimg.Escape.{escape, unescape}
use flimg.Escape.RoundTrip.{IsByte, unescape-escape}
use flimg.Base128.{
  pack, unpack, encode_groups, encode, keep, decode_groups, returns, decode_counted, decode_body,
  decode,
}
use flimg.Base128.Groups.{pack_lem, unpack_sums}

-- Of a group, as many bytes are kept as are still to come.
keep-eq-take : (os : List ℕ) (i n : ℕ) → keep i n os ≡ take (n - i) os
unfolding keep
keep-eq-take [] i n = sym (take_nil (n - i))
keep-eq-take (o ∷ os) i n = elim (dec_lt i n) [
  | yes lt ↦
      let left : n - i ≡ suc (n - (i + 1)) = omega arith in
      rw (left, lt→ltb i n lt) (ap (λ t. o ∷ t) (keep-eq-take os (i + 1) n))
  | no ge ↦
      let none_left : n - i ≡ 0 = omega arith in
      let none_after : n - (i + 1) ≡ 0 = omega arith in
      let more : keep (i + 1) n os ≡ [] = rw (keep-eq-take os (i + 1) n, none_after) in
      rw none_left (ground (arith, more))
]

-- One turn of the loop of `decode`.
decode_turn :
    (a b c d e f g h i n : ℕ) (rest out : List ℕ)
    → i < n
    → decode_groups (i + 7) n rest ≡ some out
    → decode_groups i n (a ∷ b ∷ c ∷ d ∷ e ∷ f ∷ g ∷ h ∷ rest)
      ≡ some (keep i n (unpack a b c d e f g h) ++ out)
unfolding decode_groups
decode_turn a b c d e f g h i n rest out lt more = rw (lt→ltb i n lt, more)

decode_group :
    (a b c d e f g i n : ℕ) (rest out : List ℕ)
    → All IsByte (a ∷ b ∷ c ∷ d ∷ e ∷ f ∷ g ∷ [])
    → i < n
    → decode_groups (i + 7) n rest ≡ some out
    → decode_groups i n (pack a b c d e f g ++ rest)
      ≡ some (take (n - i) (a ∷ b ∷ c ∷ d ∷ e ∷ f ∷ g ∷ []) ++ out)
decode_group a b c d e f g i n rest out (ha, (hb, (hc, (hd, (he, (hf, (hg, _))))))) lt more =
    ap (λ t. decode_groups i n (t ++ rest)) (pack_lem a b c d e f g ha hb hc hd he hf hg)
    ∙ decode_turn _ _ _ _ _ _ _ _ i n rest out lt more
    ∙ ap (λ t. some (t ++ out))
        (ap (keep i n) (unpack_sums a b c d e f g ha hb hc hd he hf hg)
          ∙ keep-eq-take (a ∷ b ∷ c ∷ d ∷ e ∷ f ∷ g ∷ []) i n)

decode_end : (i n : ℕ) → n ≤ i → decode_groups i n [] ≡ some []
unfolding decode_groups
decode_end i n h = ground arith

-- A last group that is not full.
decode_last :
    (a b c d e f g k i : ℕ)
    → All IsByte (a ∷ b ∷ c ∷ d ∷ e ∷ f ∷ g ∷ [])
    → suc k ≤ 7
    → decode_groups i (i + suc k) (pack a b c d e f g)
      ≡ some (take (suc k) (a ∷ b ∷ c ∷ d ∷ e ∷ f ∷ g ∷ []))
decode_last a b c d e f g k i h le =
    ap (decode_groups i (i + suc k)) (sym (append-nil (pack a b c d e f g)))
    ∙ decode_group a b c d e f g i (i + suc k) [] [] h (omega arith)
        (decode_end (i + 7) (i + suc k) (omega arith))
    ∙ ap (λ t. some (take t (a ∷ b ∷ c ∷ d ∷ e ∷ f ∷ g ∷ []) ++ [])) left
    ∙ ap some (append-nil (take (suc k) (a ∷ b ∷ c ∷ d ∷ e ∷ f ∷ g ∷ [])))
  where
    left : i + suc k - i ≡ suc k
    left = omega arith

-- The loop reads back every text of bytes, when the count is the text's length.
decode-encode_groups :
    (s : List ℕ) (i : ℕ) → All IsByte s → decode_groups i (i + length s) (encode_groups s) ≡ some s
unfolding encode_groups
decode-encode_groups [] i h = decode_end i (i + 0) (omega arith)
decode-encode_groups (a ∷ []) i h = decode_last a 0 0 0 0 0 0 0 i (omega arith) (omega arith)
decode-encode_groups (a ∷ b ∷ []) i h = decode_last a b 0 0 0 0 0 1 i (omega arith) (omega arith)
decode-encode_groups (a ∷ b ∷ c ∷ []) i h =
    decode_last a b c 0 0 0 0 2 i (omega arith) (omega arith)
decode-encode_groups (a ∷ b ∷ c ∷ d ∷ []) i h =
    decode_last a b c d 0 0 0 3 i (omega arith) (omega arith)
decode-encode_groups (a ∷ b ∷ c ∷ d ∷ e ∷ []) i h =
    decode_last a b c d e 0 0 4 i (omega arith) (omega arith)
decode-encode_groups (a ∷ b ∷ c ∷ d ∷ e ∷ f ∷ []) i h =
    decode_last a b c d e f 0 5 i (omega arith) (omega arith)
decode-encode_groups (a ∷ b ∷ c ∷ d ∷ e ∷ f ∷ g ∷ rest) i
      (ha, (hb, (hc, (hd, (he, (hf, (hg, hs))))))) =
    let n : ℕ = i + length (a ∷ b ∷ c ∷ d ∷ e ∷ f ∷ g ∷ rest) in
    let ends : i + 7 + length rest ≡ n = omega arith in
    let more : decode_groups (i + 7) n (encode_groups rest) ≡ some rest =
      ap (λ m. decode_groups (i + 7) m (encode_groups rest)) (sym ends)
      ∙ decode-encode_groups rest (i + 7) hs in
    let left : n - i ≡ suc (suc (suc (suc (suc (suc (suc (length rest))))))) = omega arith in
    decode_group a b c d e f g i n (encode_groups rest) rest
      (ha, (hb, (hc, (hd, (he, (hf, (hg, tt))))))) (omega arith) more
    ∙ ap (λ m. some (take m (a ∷ b ∷ c ∷ d ∷ e ∷ f ∷ g ∷ []) ++ rest)) left
    ∙ ap (λ t. some (a ∷ b ∷ c ∷ d ∷ e ∷ f ∷ g ∷ t ++ rest)) (take_nil (length rest))

length-encode_groups : (s : List ℕ) → length (encode_groups s) % 8 ≡ 0
unfolding encode_groups pack
length-encode_groups [] = refl
length-encode_groups (a ∷ []) = refl
length-encode_groups (a ∷ b ∷ []) = refl
length-encode_groups (a ∷ b ∷ c ∷ []) = refl
length-encode_groups (a ∷ b ∷ c ∷ d ∷ []) = refl
length-encode_groups (a ∷ b ∷ c ∷ d ∷ e ∷ []) = refl
length-encode_groups (a ∷ b ∷ c ∷ d ∷ e ∷ f ∷ []) = refl
length-encode_groups (a ∷ b ∷ c ∷ d ∷ e ∷ f ∷ g ∷ rest) = omega (arith, length-encode_groups rest)

decode_body-encode_groups :
    (s : List ℕ)
    → All IsByte s
    → decode_body (length s) (encode_groups s)
      ≡ returns (record { output = s; decode_error = false })
unfolding decode_body
decode_body-encode_groups s h =
    let looped : decode_groups 0 (length s) (encode_groups s) ≡ some s =
      ap (λ n. decode_groups 0 n (encode_groups s)) (omega arith) ∙ decode-encode_groups s 0 h in
    rw (length-encode_groups s, looped)

-- A text behind its count.
pub decode_behind :
    (n : ℕ) (body : List ℕ)
    → decode (print_int (pos n) ++ 10 ∷ body) ≡ decode_counted (some (pos n)) (unescape body)
unfolding decode
decode_behind n body =
    let count = print_int (pos n) in
    rw (find_char-print_int (pos n) body, decode)
      (ap₂ decode_counted
        (ap scan_int (take_append count (10 ∷ body) ∙ sym (append-nil count))
          ∙ scan_int-print_int n [] refl)
        (ap unescape (drop_behind count 10 body)))

-- `decode` gives back any text of bytes shorter than 2 ^ 31 that `encode` was given, with no error
-- and no read out of range.
pub decode-encode :
    (s : List ℕ)
    → All IsByte s
    → length s < 2 ^ 31
    → decode (encode s) ≡ returns (record { output = s; decode_error = false })
unfolding encode decode_counted
decode-encode s h small =
    ap (λ z. decode (print_int z ++ 10 ∷ escape (encode_groups s))) (to_int-pos (length s) small)
    ∙ decode_behind (length s) (escape (encode_groups s))
    ∙ ap (decode_body (length s)) (unescape-escape (encode_groups s))
    ∙ decode_body-encode_groups s h
