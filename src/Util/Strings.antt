-- ===== src/Util/Strings.antt =====
-- Texts stripped, wrapped and copied.
use flimg.Prelude.{
  ℕ, zero, suc, ◌+◌, ◌-◌, ◌<◌, ◌≤◌, ◌≡◌, refl, sym, ap, ◌∙◌, arith, Bool, true, false, ◌&&◌, ◌||◌,
  List, [], ◌∷◌, ◌++◌,
}
use flimg.Prelude.{
  All, leb, ◌==◌, if◌then◌else◌, take, drop, length, length-append, length-take, length-drop,
  take_all, Bool-cases, inl, inr,
}
use flimg.Cstd.{c_str}
use flimg.Amp.Reports.{is_empty}
use flimg.Util.{strip_front, strip_back, strip_spaces, strip_lfs, wrap_loop, wordwrap, strlcpy}

-- Without the character at its ends.
unfoldable pub begins_with : ℕ → List ℕ → Bool
begins_with c [] = false
begins_with c (x ∷ xs) = x == c

unfoldable pub ends_with : ℕ → List ℕ → Bool
ends_with c [] = false
ends_with c (x ∷ xs) = if is_empty xs then x == c else ends_with c xs

strip_front_lem : (c : ℕ) (s : List ℕ) → begins_with c (strip_front c s) ≡ false
unfolding begins_with strip_front
strip_front_lem c [] = refl
strip_front_lem c (x ∷ xs) = elim (Bool-cases (x == c)) [
  | inl e ↦ rw e (strip_front_lem c xs)
  | inr e ↦ rw e e
]

strip_back_lem : (c : ℕ) (s : List ℕ) → ends_with c (strip_back c s) ≡ false
unfolding ends_with strip_back
strip_back_lem c [] = refl
strip_back_lem c (x ∷ xs) = ground (arith, strip_back_lem c xs)

begins_still :
    (c : ℕ) (s : List ℕ) → begins_with c s ≡ false → begins_with c (strip_back c s) ≡ false
unfolding begins_with strip_back
begins_still c [] h = refl
begins_still c (x ∷ xs) h = ground arith

-- The second text is the first with line feeds for some blanks, each of which stood at or behind
-- the column `cnt` of its line; the texts begin at column `cntr`.
unfoldable pub is_broken : ℕ → ℕ → List ℕ → List ℕ → Bool
is_broken cnt cntr [] [] = true
is_broken cnt cntr [] (d ∷ ds) = false
is_broken cnt cntr (c ∷ cs) [] = false
is_broken cnt cntr (c ∷ cs) (d ∷ ds) =
    let next = is_broken cnt 1 cs ds in
    let same = is_broken cnt (cntr + 1) cs ds in
    if d == 10 then ((c == 10) || ((c == b' ') && leb cnt cntr)) && next else (c == d) && same

-- No blank stands in a line at or behind the column `cnt`; the text begins at column `cntr`.
unfoldable pub is_wrapped : ℕ → ℕ → List ℕ → Bool
is_wrapped cnt cntr [] = true
is_wrapped cnt cntr (c ∷ cs) =
    let next = is_wrapped cnt 1 cs in
    let same = is_wrapped cnt (cntr + 1) cs in
    if c == 10 then next else if (c == b' ') && leb cnt cntr then false else same

wrap_loop-is_broken :
    (cnt cntr : ℕ) (s : List ℕ) → is_broken cnt cntr s (wrap_loop cnt cntr s) ≡ true
unfolding is_broken wrap_loop
wrap_loop-is_broken cnt cntr [] = refl
wrap_loop-is_broken cnt cntr (c ∷ cs) =
    ground (arith, wrap_loop-is_broken cnt 1 cs, wrap_loop-is_broken cnt (cntr + 1) cs)

wrap_loop-is_wrapped :
    (cnt cntr : ℕ) (s : List ℕ) → is_wrapped cnt cntr (wrap_loop cnt cntr s) ≡ true
unfolding is_wrapped wrap_loop
wrap_loop-is_wrapped cnt cntr [] = refl
wrap_loop-is_wrapped cnt cntr (c ∷ cs) =
    ground (arith, wrap_loop-is_wrapped cnt 1 cs, wrap_loop-is_wrapped cnt (cntr + 1) cs)

-- `wordwrap` changes nothing but blanks at or behind the column `cnt` of their line, each into a
-- line feed, and leaves no blank at or behind that column; columns are counted from 1 in the lines
-- of the result.
pub wordwrap_lem :
    (s : List ℕ) (cnt : ℕ)
    → (is_broken cnt 1 s (wordwrap s cnt) ≡ true) × (is_wrapped cnt 1 (wordwrap s cnt) ≡ true)
unfolding wordwrap
wordwrap_lem s cnt = (wrap_loop-is_broken cnt 1 s, wrap_loop-is_wrapped cnt 1 s)

plain_front : (c : ℕ) (s : List ℕ) → begins_with c s ≡ false → strip_front c s ≡ s
unfolding begins_with strip_front
plain_front c [] h = refl
plain_front c (x ∷ xs) h = rw h refl

plain_back : (c : ℕ) (s : List ℕ) → ends_with c s ≡ false → strip_back c s ≡ s
unfolding ends_with strip_back
plain_back c [] h = refl
plain_back c (x ∷ []) h = rw h refl
plain_back c (x ∷ y ∷ ys) h = stays (strip_back c (y ∷ ys)) (plain_back c (y ∷ ys) h)
  where
    stays :
        (rest : List ℕ)
        → rest ≡ y ∷ ys
        → (if is_empty rest && (x == c) then [] else x ∷ rest) ≡ x ∷ y ∷ ys
    stays rest e = rw e refl

unfoldable pub stripped : ℕ → List ℕ → List ℕ
stripped c s = strip_back c (strip_front c s)

-- What was stripped of a character at both ends begins and ends with none, and stays as it is when
-- it is stripped again; `strip_spaces` is this for a blank and `strip_lfs` for a line feed.
pub stripped_lem :
    (c : ℕ) (s : List ℕ)
    → (begins_with c (stripped c s) ≡ false)
      × (ends_with c (stripped c s) ≡ false)
      × (stripped c (stripped c s) ≡ stripped c s)
      × (strip_spaces s ≡ stripped b' ' s)
      × (strip_lfs s ≡ stripped 10 s)
unfolding stripped strip_spaces strip_lfs
stripped_lem c s =
    let front = begins_still c (strip_front c s) (strip_front_lem c s) in
    let back = strip_back_lem c (strip_front c s) in
    (
      front,
      back,
      ap (strip_back c) (plain_front c (stripped c s) front) ∙ plain_back c (stripped c s) back,
      refl,
      refl,
    )

c_str-take :
    (k : ℕ) (src rest : List ℕ)
    → All (λ c. (c == 0) ≡ false) src
    → c_str (take k src ++ 0 ∷ rest) ≡ take k src
unfolding c_str
c_str-take zero src rest a = refl
c_str-take (suc k) [] rest a = refl
c_str-take (suc k) (c ∷ cs) rest (h, a) = rw h (ap (λ t. c ∷ t) (c_str-take k cs rest a))

-- What is copied, however long the source is.
copied :
    (size : ℕ) (src : List ℕ)
    → take (if leb (suc size) (length src) then size else length src) src ≡ take size src
copied size src = elim (Bool-cases (leb (suc size) (length src))) [
  | inl e ↦ rw e refl
  | inr e ↦ rw e (take_all (length src) src (omega arith) ∙ sym (take_all size src (ground arith)))
]

copied_size :
    (k : ℕ) (dest src : List ℕ)
    → k ≤ length src
    → k + 1 ≤ length dest
    → length (take k src ++ 0 ∷ drop (k + 1) dest) ≡ length dest
copied_size k dest src h l = omega (
  arith,
  length-append (take k src) (0 ∷ drop (k + 1) dest),
  length-take k src,
  length-drop (k + 1) dest,
)

-- `strlcpy` into memory of at least `size` bytes, above 0, returns the length of the string, keeps
-- the size of the memory, and leaves a C string there: the first `size - 1` bytes of the source,
-- or all of it if it is shorter.
pub strlcpy_lem :
    (dest src : List ℕ) (size : ℕ)
    → 0 < size
    → size ≤ length dest
    → All (λ c. (c == 0) ≡ false) src
    → ((strlcpy dest src size).0 ≡ length src)
      × (length (strlcpy dest src size).1 ≡ length dest)
      × (c_str (strlcpy dest src size).1 ≡ take (size - 1) src)
unfolding strlcpy
strlcpy_lem dest src zero p h a = absurd (omega arith)
strlcpy_lem dest src (suc size) p h a =
    let len = if leb (suc size) (length src) then size else length src in
    let small : len ≤ size = ground arith in
    let short : len ≤ length src = ground arith in
    (
      refl,
      copied_size len dest src short (omega arith),
      c_str-take len src (drop (len + 1) dest) a
          ∙ copied size src
          ∙ ap (λ k. take k src) (before_suc size),
    )
  where
    before_suc : (n : ℕ) → n ≡ suc n - 1
    before_suc n = omega arith
