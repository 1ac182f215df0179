-- ===== src/Compress/Marks.antt =====
-- The marks begin nowhere in an encoded text.
use flimg.Prelude.{
  ℕ, ◌+◌, ◌≡◌, refl, ap, ◌∙◌, arith, Bool, true, false, ◌&&◌, ◌||◌, List, [], ◌∷◌, ◌++◌, inl, inr,
}
use flimg.Prelude.{All, All-append, ◌==◌, leb, if◌then◌else◌, Bool-cases}
use flimg.Cstd.{ℤ, pos, negsuc, is_digit, print_int, starts_with}
use flimg.Escape.{escape_char, escape}
use flimg.Amp.Incoming.Text.{print_nat-lacks}
use flimg.Base64.{etable, ogroup, ogroup_two, ogroup_one, ogroups, put_out, encode}
use flimg.Cstd.Finding.{Absent, Absent-append, Absent-lacking}

-- The characters that are escaped, and the second character of an escape.
is_special : ℕ → Bool
is_special c =
    (c == b':') || leb c 9 || (c == 10) || (c == 13) || (c == b'^') || (c == 0x7F) || (c == 0xFF)

second : ℕ → ℕ
second c =
    if c == b':'
    then b':'
    else if leb c 9
    then b'0' + c
    else if c == 10
    then b'A'
    else if c == 13
    then b'B'
    else if c == b'^'
    then b'C'
    else if c == 0x7F
    then b'D'
    else b'E'

-- A character that is second in no escape.
abbrev pub is_second : ℕ → Bool
is_second d = (leb b'0' d && leb d b':') || (leb b'A' d && leb d b'E')

escape_char_lem : (c : ℕ) → escape_char c ≡ (if is_special c then b':' ∷ second c ∷ [] else c ∷ [])
unfolding escape_char is_special second
escape_char_lem c = ground arith

second_ne : (x c : ℕ) → is_second x ≡ false → (x == second c) ≡ false
unfolding second
second_ne x c h = ground arith

plain_ne : (c : ℕ) → is_special c ≡ false → ((b':' == c) ≡ false) × ((10 == c) ≡ false)
unfolding is_special
plain_ne c h = ground arith

escape-special :
    (c : ℕ) (cs : List ℕ) → is_special c ≡ true → escape (c ∷ cs) ≡ b':' ∷ second c ∷ escape cs
unfolding escape
escape-special c cs h = rw (escape_char_lem c, h) refl

escape-plain : (c : ℕ) (cs : List ℕ) → is_special c ≡ false → escape (c ∷ cs) ≡ c ∷ escape cs
unfolding escape
escape-plain c cs h = rw (escape_char_lem c, h) refl

abbrev pub IsInner : ℕ → Type 0
IsInner a = ((a == b':') ≡ false) × ((a == 10) ≡ false)

and_false : (a b : Bool) → b ≡ false → (a && b) ≡ false
and_false a b h = ground arith

-- A mark holds a colon and a letter that no escape has behind its colon.
module _ (x : ℕ) (n : List ℕ) (other : is_second x ≡ false) where
  begins_not :
      (p cs r : List ℕ)
      → All IsInner p
      → starts_with (p ++ b':' ∷ x ∷ n) (escape cs ++ 10 ∷ r) ≡ false
  unfolding starts_with escape
  begins_not [] [] r a = refl
  begins_not [] (c ∷ cs) r a = elim (Bool-cases (is_special c)) [
    | inl s ↦
        ap (λ t. starts_with (b':' ∷ x ∷ n) (t ++ 10 ∷ r)) (escape-special c cs s)
        ∙ rw (second_ne x c other) refl
    | inr s ↦
        ap (λ t. starts_with (b':' ∷ x ∷ n) (t ++ 10 ∷ r)) (escape-plain c cs s)
        ∙ rw ((plain_ne c s).0) refl
  ]
  begins_not (i ∷ p) [] r ((h, k), a) = rw k refl
  begins_not (i ∷ p) (c ∷ cs) r ((h, k), a) = elim (Bool-cases (is_special c)) [
    | inl s ↦
        ap (λ t. starts_with (i ∷ (p ++ b':' ∷ x ∷ n)) (t ++ 10 ∷ r)) (escape-special c cs s)
        ∙ rw h refl
    | inr s ↦
        ap (λ t. starts_with (i ∷ (p ++ b':' ∷ x ∷ n)) (t ++ 10 ∷ r)) (escape-plain c cs s)
        ∙ and_false (i == c) _ (begins_not p cs r a)
  ]

  escape-Absent :
      (i : ℕ) (p cs r : List ℕ)
      → is_second i ≡ false
      → All IsInner (i ∷ p)
      → Absent (i ∷ (p ++ b':' ∷ x ∷ n)) (escape cs) (10 ∷ r)
  unfolding escape starts_with
  escape-Absent i p [] r e a = tt
  escape-Absent i p (c ∷ cs) r e ((h, k), a) = elim (Bool-cases (is_special c)) [
    | inl s ↦
        rw (escape-special c cs s)
          (rw h refl, (rw (second_ne i c e) refl, escape-Absent i p cs r e ((h, k), a)))
    | inr s ↦
        rw (escape-plain c cs s)
          (and_false (i == c) _ (begins_not p cs r a), escape-Absent i p cs r e ((h, k), a))
  ]

escape-lacks_break : (cs : List ℕ) → All (λ c. (10 == c) ≡ false) (escape cs)
unfolding escape second
escape-lacks_break [] = tt
escape-lacks_break (c ∷ cs) = elim (Bool-cases (is_special c)) [
  | inl s ↦ rw (escape-special c cs s) (refl, (ground arith, escape-lacks_break cs))
  | inr s ↦ rw (escape-plain c cs s) ((plain_ne c s).1, escape-lacks_break cs)
]

print_int-lacks :
    (n : ℕ) (z : ℤ)
    → is_digit n ≡ false
    → (n == b'-') ≡ false
    → All (λ c. (n == c) ≡ false) (print_int z)
unfolding print_int
print_int-lacks n (pos k) h e = print_nat-lacks n k h
print_int-lacks n (negsuc k) h e = (e, print_nat-lacks n (k + 1) h)

-- A start mark and an end mark in what base128 and base256 make.
module _ (x : ℕ) (n p : List ℕ) (other : is_second x ≡ false) (z : ℤ) (cs r : List ℕ) where
  pub start-Absent :
      All IsInner p → Absent (b'[' ∷ (p ++ b':' ∷ x ∷ n)) (print_int z ++ 10 ∷ escape cs) (10 ∷ r)
  unfolding starts_with
  start-Absent a =
      let mark = p ++ b':' ∷ x ∷ n in
      Absent-append (b'[' ∷ mark) (print_int z) (10 ∷ escape cs) (10 ∷ r)
        (Absent-lacking b'[' mark (print_int z) (10 ∷ escape cs ++ 10 ∷ r)
          (print_int-lacks b'[' z refl refl))
        (refl, escape-Absent x n other b'[' p cs r refl ((refl, refl), a))

  pub end-Absent :
      All IsInner p → Absent (10 ∷ (p ++ b':' ∷ x ∷ n)) (print_int z ++ 10 ∷ escape cs) (10 ∷ r)
  unfolding starts_with
  end-Absent a =
      let mark = p ++ b':' ∷ x ∷ n in
      Absent-append (10 ∷ mark) (print_int z) (10 ∷ escape cs) (10 ∷ r)
        (Absent-lacking 10 mark (print_int z) (10 ∷ escape cs ++ 10 ∷ r)
          (print_int-lacks 10 z refl refl))
        (
          begins_not x n other p cs r a,
          Absent-lacking 10 mark (escape cs) (10 ∷ r) (escape-lacks_break cs),
        )

-- base64 makes neither brackets nor line feeds, if it is not told to break lines.
module _ (n : ℕ) (outside : (n == b'[') || (n == 10) ≡ true) where
  Lacks : ℕ → Type 0
  Lacks c = (n == c) ≡ false

  etable-lacks : (i : ℕ) → (n == etable i) ≡ false
  unfolding etable
  etable-lacks i = ground arith

  ogroups-Lacks : (s : List ℕ) → All Lacks (ogroups s)
  unfolding ogroups ogroup ogroup_two ogroup_one Lacks
  ogroups-Lacks [] = tt
  ogroups-Lacks (x ∷ []) = (etable-lacks _, (etable-lacks _, (ground arith, (ground arith, tt))))
  ogroups-Lacks (x ∷ y ∷ []) =
      (etable-lacks _, (etable-lacks _, (etable-lacks _, (ground arith, tt))))
  ogroups-Lacks (x ∷ y ∷ z ∷ rest) =
      (etable-lacks _, (etable-lacks _, (etable-lacks _, (etable-lacks _, ogroups-Lacks rest))))

  put_out-Lacks : (k : ℕ) (s : List ℕ) → All Lacks s → All Lacks (put_out false k s)
  unfolding put_out
  put_out-Lacks k [] a = tt
  put_out-Lacks k (c ∷ cs) (h, a) = (h, put_out-Lacks k cs a)

  pub encode-lacks : (s : List ℕ) → All (λ c. (n == c) ≡ false) (encode false s)
  unfolding encode Lacks
  encode-lacks s =
      All-append Lacks (put_out false 0 (ogroups s)) []
        (put_out-Lacks 0 (ogroups s) (ogroups-Lacks s)) tt
