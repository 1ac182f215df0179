-- ===== src/Timing/Lookup.antt =====
-- The entry that was used last changes no result.
use flimg.Prelude.{
  ℕ, zero, suc, ◌+◌, ◌<◌, ◌≡◌, refl, ap, ◌∙◌, arith, Bool, true, false, not, ◌&&◌, List, [], ◌∷◌,
  some, map,
}
use flimg.Prelude.{length, Bool-cases, inl, inr}
use flimg.Timing.{ModeTimeTable, same_start, entry_at, find_mode}
use flimg.Timing.Names.{mode_names}

-- Two strings that begin like a third begin alike.
same_start-share :
    (n : ℕ) (a b c : List ℕ)
    → same_start n a b ≡ true
    → same_start n a c ≡ true
    → same_start n b c ≡ true
unfolding same_start
same_start-share zero a b c h k = refl
same_start-share (suc n) [] [] [] h k = refl
same_start-share (suc n) [] [] (z ∷ zs) h k = k
same_start-share (suc n) [] (y ∷ ys) c h k = ground arith
same_start-share (suc n) (x ∷ xs) [] c h k = ground arith
same_start-share (suc n) (x ∷ xs) (y ∷ ys) [] h k = ground arith
same_start-share (suc n) (x ∷ xs) (y ∷ ys) (z ∷ zs) h k =
    ground (arith, same_start-share n xs ys zs)

-- No name begins like a later one.
unfoldable pub unlike : List ℕ → List (List ℕ) → Bool
unlike name [] = true
unlike name (other ∷ rest) = not (same_start 16 name other) && unlike name rest

unfoldable pub all_unlike : List (List ℕ) → Bool
all_unlike [] = true
all_unlike (name ∷ rest) = unlike name rest && all_unlike rest

pub mode_names_unlike : all_unlike mode_names ≡ true
unfolding all_unlike unlike same_start
mode_names_unlike = refl

abbrev pub names : {F : Type 0} → List (ModeTimeTable F) → List (List ℕ)
names mode_time_table = map (λ m. m.mode_name) mode_time_table

unlike_entry :
    {F : Type 0} (name : List ℕ) (rest : List (ModeTimeTable F)) (i : ℕ) (m : ModeTimeTable F)
    → unlike name (names rest) ≡ true
    → entry_at rest i ≡ some m
    → same_start 16 name m.mode_name ≡ false
unfolding unlike entry_at
unlike_entry name [] i m h e = ground arith
unlike_entry name (x ∷ xs) zero m h e = ground arith
unlike_entry name (x ∷ xs) (suc i) m h e = unlike_entry name xs i m (ground arith) e

-- The search comes to the entry that fits.
pub found_entry :
    {F : Type 0} (mode : List ℕ) (rest : List (ModeTimeTable F)) (i base : ℕ) (m : ModeTimeTable F)
    → all_unlike (names rest) ≡ true
    → entry_at rest i ≡ some m
    → same_start 16 mode m.mode_name ≡ true
    → find_mode base mode rest ≡ some (base + i, m)
unfolding find_mode entry_at all_unlike
found_entry mode [] i base m h e k = ground arith
found_entry mode (x ∷ xs) zero base m h e k = ground arith
found_entry mode (x ∷ xs) (suc i) base m h e k =
    let apart : same_start 16 x.mode_name m.mode_name ≡ false =
      unlike_entry x.mode_name xs i m (ground arith) e in
    elim (Bool-cases (same_start 16 mode x.mode_name)) [
      | inl t ↦
          let alike : same_start 16 x.mode_name m.mode_name ≡ true =
            same_start-share 16 mode x.mode_name m.mode_name t k in
          ground arith
      | inr f ↦ rw f (
          found_entry mode xs i (suc base) m (ground arith) e k
          ∙ ap (λ n. some (n, m)) (omega arith))
    ]

pub entry_at-some :
    {F : Type 0} (rest : List (ModeTimeTable F)) (i : ℕ)
    → i < length rest
    → (m : ModeTimeTable F) × (entry_at rest i ≡ some m)
unfolding entry_at
entry_at-some [] i h = absurd (omega arith)
entry_at-some (x ∷ xs) zero h = (x, refl)
entry_at-some (x ∷ xs) (suc i) h = entry_at-some xs i (omega arith)

pub find_mode-lt :
    {F : Type 0} (mode : List ℕ) (rest : List (ModeTimeTable F)) (base i : ℕ) (m : ModeTimeTable F)
    → find_mode base mode rest ≡ some (i, m)
    → i < base + length rest
unfolding find_mode
find_mode-lt mode [] base i m e = ground arith
find_mode-lt mode (x ∷ xs) base i m e = elim (Bool-cases (same_start 16 mode x.mode_name)) [
  | inl t ↦ ground arith
  | inr f ↦
      let later : find_mode (suc base) mode xs ≡ some (i, m) = ground arith in
      omega (arith, find_mode-lt mode xs (suc base) i m later)
]
