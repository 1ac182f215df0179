-- ===== src/Timing/Exact.antt =====
-- The comparisons of 16 characters, and of as many as the string has, are of whole names.
use flimg.Prelude.{
  ℕ, zero, suc, ◌<◌, ◌≡◌, refl, ap, arith, Bool, true, ◌&&◌, List, [], ◌∷◌, Option, none, some,
}
use flimg.Prelude.{◌==◌, if◌then◌else◌, length, Bool-cases, inl, inr, ltb}
use flimg.Amp.{same_text}
use flimg.Timing.{ModeTimeTable, same_start, str_cnt, find_mode}
use flimg.Timing.Names.{mode_names}
use flimg.Timing.Lookup.{names}

-- The entry with the name, the first if there are more.
unfoldable pub entry_of : {F : Type 0} → List ℕ → List (ModeTimeTable F) → Option (ModeTimeTable F)
entry_of mode [] = none
entry_of mode (m ∷ ms) =
    let rest = entry_of mode ms in if same_text mode m.mode_name then some m else rest

unfoldable pub all_short : List (List ℕ) → Bool
all_short [] = true
all_short (name ∷ rest) = ltb (length name) 16 && all_short rest

pub mode_names_short : all_short mode_names ≡ true
unfolding all_short
mode_names_short = refl

same_start-exact : (n : ℕ) (a b : List ℕ) → length b < n → same_start n a b ≡ same_text a b
unfolding same_start same_text
same_start-exact zero a b h = absurd (omega arith)
same_start-exact (suc n) [] [] h = refl
same_start-exact (suc n) [] (y ∷ ys) h = refl
same_start-exact (suc n) (x ∷ xs) [] h = refl
same_start-exact (suc n) (x ∷ xs) (y ∷ ys) h =
    ap (λ t. (x == y) && t) (same_start-exact n xs ys (omega arith))

pub str_cnt-short : (n : ℕ) (b : List ℕ) → length b < n → str_cnt b n ≡ length b
unfolding str_cnt
str_cnt-short zero b h = absurd (omega arith)
str_cnt-short (suc n) [] h = refl
str_cnt-short (suc n) (c ∷ cs) h = omega (arith, str_cnt-short n cs (omega arith))

-- As many characters as the string has, and a name of that length.
pub same_length-exact :
    (a b : List ℕ) → (same_start (length a) a b && (length b == length a)) ≡ same_text a b
unfolding same_start same_text
same_length-exact [] [] = refl
same_length-exact [] (y ∷ ys) = ground arith
same_length-exact (x ∷ xs) [] = refl
same_length-exact (x ∷ xs) (y ∷ ys) = ground (arith, same_length-exact xs ys)

-- The entry without its position.
abbrev pub without_index : {F : Type 0} → Option (ℕ × ModeTimeTable F) → Option (ModeTimeTable F)
without_index none = none
without_index (some (i, m)) = some m

pub find_mode-exact :
    {F : Type 0} (mode : List ℕ) (base : ℕ) (rest : List (ModeTimeTable F))
    → all_short (names rest) ≡ true
    → without_index (find_mode base mode rest) ≡ entry_of mode rest
unfolding find_mode entry_of all_short
find_mode-exact mode base [] h = refl
find_mode-exact mode base (m ∷ ms) h =
    let same = same_start-exact 16 mode m.mode_name (ground arith) in
    elim (Bool-cases (same_text mode m.mode_name)) [
      | inl t ↦ rw (same, t) refl
      | inr f ↦ rw (same, f) (find_mode-exact mode (suc base) ms (ground arith))
    ]
