-- ===== src/Cstd/Finding.antt =====
-- Where `find` of a text finds it.
use flimg.Prelude.{
  ℕ, suc, ◌≡◌, refl, ap, ◌∙◌, arith, true, false, List, [], ◌∷◌, ◌++◌, Option, none, some,
  append_assoc,
}
use flimg.Prelude.{All, ◌==◌, ==_refl, length}
use flimg.Cstd.{starts_with, find_text, found_behind}

pub starts_with-append : (needle rest : List ℕ) → starts_with needle (needle ++ rest) ≡ true
unfolding starts_with
starts_with-append [] rest = refl
starts_with-append (n ∷ ns) rest = rw (==_refl n) (starts_with-append ns rest)

found_first :
    (needle : List ℕ) (s : List ℕ) → starts_with needle s ≡ true → find_text needle s ≡ some 0
unfolding find_text
found_first needle [] h = rw h refl
found_first needle (c ∷ cs) h = rw h refl

-- A text that begins with the one that is looked for.
pub find_text-append : (needle rest : List ℕ) → find_text needle (needle ++ rest) ≡ some 0
find_text-append needle rest = found_first needle (needle ++ rest) (starts_with-append needle rest)

-- `needle` begins nowhere in `t`, when `r` follows.
abbrev pub Absent : List ℕ → List ℕ → List ℕ → Type 0
Absent needle [] r = Unit {0}
Absent needle (c ∷ t) r = (starts_with needle (c ∷ t ++ r) ≡ false) × Absent needle t r

pub find_text-Absent :
    (needle t r : List ℕ)
    → Absent needle t r
    → find_text needle (t ++ r) ≡ found_behind (length t) (find_text needle r)
unfolding find_text found_behind
find_text-Absent needle [] r a = zero_behind (find_text needle r)
  where
    zero_behind : (o : Option ℕ) → o ≡ found_behind 0 o
    zero_behind none = refl
    zero_behind (some p) = ap some (omega arith)
find_text-Absent needle (c ∷ t) r (h, a) =
    rw (h, find_text-Absent needle t r a) (one_more (length t) (find_text needle r))
  where
    one_more :
        (n : ℕ) (o : Option ℕ)
        → elim (found_behind n o) as (λ _. Option ℕ) [ none ↦ none | some p ↦ some (suc p) ]
          ≡ found_behind (suc n) o
    one_more n none = refl
    one_more n (some p) = ap some (omega arith)

pub Absent-append :
    (needle s t r : List ℕ)
    → Absent needle s (t ++ r)
    → Absent needle t r
    → Absent needle (s ++ t) r
Absent-append needle [] t r a b = b
Absent-append needle (c ∷ s) t r (h, a) b =
    (ap (λ u. starts_with needle (c ∷ u)) (append_assoc s t r) ∙ h, Absent-append needle s t r a b)

-- A text without the first character of the one that is looked for.
pub Absent-lacking : (n : ℕ) (ns t r : List ℕ) → All (λ c. (n == c) ≡ false) t → Absent (n ∷ ns) t r
unfolding starts_with
Absent-lacking n ns [] r a = tt
Absent-lacking n ns (c ∷ t) r (h, a) = (rw h refl, Absent-lacking n ns t r a)
