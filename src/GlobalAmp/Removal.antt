-- ===== src/GlobalAmp/Removal.antt =====
-- `remove(cAmp *)` reads behind the end of the vector, unless the amp is the last one.
use flimg.Prelude.{
  ℕ, zero, suc, ◌+◌, ◌<◌, ◌≡◌, refl, ap, ap₂, ◌∙◌, arith, Bool, true, false, List, [], ◌∷◌, ◌++◌,
  none, some, All, ==_refl, if◌then◌else◌, length, length-append, get_elem?, append-nil, All-append,
}
use mathlib.Core.Option.{some-injective, none-ne-some}
use flimg.Prelude.{Option-cases, inl, inr, ◌==◌, ◌≤◌}
use flimg.GlobalAmp.{AmpGlobal, remove_amp, remove_loop, take_out, erase}

-- The turn at which the vector has ended.
ends_early :
    (turns index src_amp : ℕ) (g : AmpGlobal) (ret : Bool)
    → get_elem? g.amp_array index ≡ none
    → remove_loop (suc turns) index src_amp g ret ≡ none
unfolding remove_loop
ends_early turns index src_amp g ret h = rw (h, remove_loop) refl

passes :
    (turns index src_amp a : ℕ) (g : AmpGlobal) (ret : Bool)
    → get_elem? g.amp_array index ≡ some a
    → (src_amp == a) ≡ false
    → remove_loop (suc turns) index src_amp g ret ≡ remove_loop turns (index + 1) src_amp g ret
unfolding remove_loop
passes turns index src_amp a g ret h e = rw (h, e, remove_loop) refl

takes :
    (turns index src_amp : ℕ) (g : AmpGlobal) (ret : Bool)
    → get_elem? g.amp_array index ≡ some src_amp
    → remove_loop (suc turns) index src_amp g ret
      ≡ remove_loop turns (index + 1) src_amp (take_out g src_amp index) true
unfolding remove_loop
takes turns index src_amp g ret h = rw (h, ==_refl src_amp, remove_loop) refl

at_middle : (xs ys : List ℕ) (y : ℕ) → get_elem? (xs ++ y ∷ ys) (length xs) ≡ some y
at_middle [] ys y = refl
at_middle (x ∷ xs) ys y = at_middle xs ys y

behind_end : (xs : List ℕ) → get_elem? xs (length xs) ≡ none
behind_end [] = refl
behind_end (x ∷ xs) = behind_end xs

erase_middle : (xs ys : List ℕ) (y : ℕ) → erase (xs ++ y ∷ ys) (length xs) ≡ xs ++ ys
unfolding erase
erase_middle [] ys y = refl
erase_middle (x ∷ xs) ys y = ap (λ t. x ∷ t) (erase_middle xs ys y)

abbrev pub IsOther : ℕ → ℕ → Type 0
IsOther src_amp a = (src_amp == a) ≡ false

get_elem?-lt : (amps : List ℕ) (i a : ℕ) → get_elem? amps i ≡ some a → i < length amps
get_elem?-lt [] i a e = absurd (none-ne-some a e)
get_elem?-lt (b ∷ amps) zero a e = omega arith
get_elem?-lt (b ∷ amps) (suc i) a e = omega (arith, get_elem?-lt amps i a e)

get_elem?-All :
    (src_amp i a : ℕ) (amps : List ℕ)
    → All (IsOther src_amp) amps
    → get_elem? amps i ≡ some a
    → IsOther src_amp a
get_elem?-All src_amp i a [] h e = absurd (none-ne-some a e)
get_elem?-All src_amp zero a (b ∷ amps) (p, h) e = rw⁻¹ (some-injective b a e) p
get_elem?-All src_amp (suc i) a (b ∷ amps) (p, h) e = get_elem?-All src_amp i a amps h e

-- More turns than entries, of which none is the amp.
runs_out :
    (turns index src_amp : ℕ) (g : AmpGlobal) (ret : Bool)
    → All (IsOther src_amp) g.amp_array
    → index ≤ length g.amp_array
    → length g.amp_array < index + turns
    → remove_loop turns index src_amp g ret ≡ none
runs_out zero index src_amp g ret h p q = absurd (omega arith)
runs_out (suc turns) index src_amp g ret h p q = elim (Option-cases (get_elem? g.amp_array index)) [
  | inl e ↦ ends_early turns index src_amp g ret e
  | inr (a, e) ↦
      passes turns index src_amp a g ret e (get_elem?-All src_amp index a g.amp_array h e)
      ∙ runs_out turns (index + 1) src_amp g ret h
          (omega (arith, get_elem?-lt g.amp_array index a e)) (omega arith)
]

-- The entries in front of the amp are passed.
passes_front :
    (xs rest : List ℕ) (turns index src_amp : ℕ) (g : AmpGlobal) (ret : Bool)
    → All (IsOther src_amp) xs
    → ((i : ℕ) → get_elem? g.amp_array (index + i) ≡ get_elem? (xs ++ rest) i)
    → remove_loop (length xs + turns) index src_amp g ret
      ≡ remove_loop turns (index + length xs) src_amp g ret
passes_front [] rest turns index src_amp g ret h at =
    ap₂ (λ t i. remove_loop t i src_amp g ret) (none_before turns) (none_behind index)
  where
    none_before : (n : ℕ) → 0 + n ≡ n
    none_before n = omega arith

    none_behind : (n : ℕ) → n ≡ n + 0
    none_behind n = omega arith
passes_front (x ∷ xs) rest turns index src_amp g ret (p, h) at =
    ap (λ t. remove_loop t index src_amp g ret) (first_turn (length xs) turns)
    ∙ passes (length xs + turns) index src_amp x g ret
        (ap (get_elem? g.amp_array) (here index) ∙ at 0) p
    ∙ passes_front xs rest turns (index + 1) src_amp g ret h
        (λ i. ap (get_elem? g.amp_array) (next index i) ∙ at (suc i))
    ∙ ap (λ i. remove_loop turns i src_amp g ret) (next index (length xs))
  where
    first_turn : (m n : ℕ) → suc m + n ≡ suc (m + n)
    first_turn m n = omega arith

    here : (n : ℕ) → n ≡ n + 0
    here n = omega arith

    next : (n i : ℕ) → n + 1 + i ≡ n + suc i
    next n i = omega arith

-- The loop reaches an amp with entries behind it.
reaches :
    (g : AmpGlobal) (src_amp : ℕ) (xs rest : List ℕ) (ret : Bool)
    → g.amp_array ≡ xs ++ src_amp ∷ rest
    → All (IsOther src_amp) xs
    → remove_loop (length g.amp_array) 0 src_amp g ret
      ≡ remove_loop (length rest) (length xs + 1) src_amp (take_out g src_amp (length xs)) true
reaches g src_amp xs rest ret e h =
    ap (λ t. remove_loop t 0 src_amp g ret) (ap length e ∙ length-append xs (src_amp ∷ rest))
    ∙ passes_front xs (src_amp ∷ rest) (suc (length rest)) 0 src_amp g ret h
        (λ i. ap (get_elem? g.amp_array) (plain i) ∙ ap (λ t. get_elem? t i) e)
    ∙ ap (λ i. remove_loop (suc (length rest)) i src_amp g ret) (plain (length xs))
    ∙ takes (length rest) (length xs) src_amp g ret
        (ap (λ t. get_elem? t (length xs)) e ∙ at_middle xs rest src_amp)
  where
    plain : (n : ℕ) → 0 + n ≡ n
    plain n = omega arith

taken_out :
    (g : AmpGlobal) (src_amp : ℕ) (xs rest : List ℕ)
    → g.amp_array ≡ xs ++ src_amp ∷ rest
    → (take_out g src_amp (length xs)).amp_array ≡ xs ++ rest
unfolding take_out
taken_out g src_amp xs rest e = ap (λ t. erase t (length xs)) e ∙ erase_middle xs rest src_amp

-- Removal of an amp that occurs once and is not the last entry reads behind the vector's end.
pub remove_amp_inner :
    (g : AmpGlobal) (src y : ℕ) (xs ys : List ℕ)
    → g.amp_array ≡ xs ++ suc src ∷ y ∷ ys
    → All (IsOther (suc src)) xs
    → All (IsOther (suc src)) (y ∷ ys)
    → remove_amp g (suc src) ≡ none
unfolding remove_amp
remove_amp_inner g src y xs ys e h l =
    let left = taken_out g (suc src) xs (y ∷ ys) e in
    let size = ap length left ∙ length-append xs (y ∷ ys) in
    reaches g (suc src) xs (y ∷ ys) false e h
    ∙ runs_out (length (y ∷ ys)) (length xs + 1) (suc src) (take_out g (suc src) (length xs)) true
        (rw left (All-append (IsOther (suc src)) xs (y ∷ ys) h l)) (omega (arith, size))
        (omega (arith, size))

-- Removal of an amp that stands at the end only takes it out, and clears the selection if it was
-- the selected one.
pub remove_amp_last :
    (g : AmpGlobal) (src : ℕ) (xs : List ℕ)
    → g.amp_array ≡ xs ++ suc src ∷ []
    → All (IsOther (suc src)) xs
    → remove_amp g (suc src)
      ≡ some (
        record { amp = if suc src == g.amp then 0 else g.amp; amp_array = xs; freed = g.freed },
        true,
      )
unfolding remove_amp take_out remove_loop
remove_amp_last g src xs e h =
    reaches g (suc src) xs [] false e h
    ∙ ap
        (λ (t : List ℕ). some (
          record { amp = if suc src == g.amp then 0 else g.amp; amp_array = t; freed = g.freed },
          true,
        ))
        (taken_out g (suc src) xs [] e ∙ append-nil xs)
