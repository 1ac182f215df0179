-- ===== src/Lines/Breaks.antt =====
-- Where the line feeds go, and that they can be taken out again.
use flimg.Prelude.{ℕ, ◌+◌, ◌≤◌, ◌≡◌, ◌≢◌, refl, ap, ◌∙◌, arith, List, [], ◌∷◌, ◌++◌, All, length}
use flimg.Prelude.{lt→ltb}
use flimg.Lines.{linelen, addlf_loop, addlf, remlf}

remlf-addlf_loop : (len : ℕ) (s : List ℕ) → remlf (addlf_loop len s) ≡ remlf s
unfolding addlf_loop remlf
remlf-addlf_loop len [] = refl
remlf-addlf_loop len (c ∷ cs) = ground (arith, remlf-addlf_loop (len + 1) cs, remlf-addlf_loop 0 cs)

-- Taking the line feeds out leaves of the broken text what it leaves of the text itself.
pub remlf-addlf : (s : List ℕ) → remlf (addlf s) ≡ remlf s
unfolding addlf
remlf-addlf s = remlf-addlf_loop 0 s

-- A text with no line feed is not changed by `remlf`.
remlf_plain : (s : List ℕ) → All (λ c. c ≢ 10) s → remlf s ≡ s
unfolding remlf
remlf_plain [] h = refl
remlf_plain (c ∷ cs) (h, hs) = ground (arith, remlf_plain cs hs)

-- A text with no line feed comes back from `addlf` and `remlf`.
pub remlf-addlf_plain : (s : List ℕ) → All (λ c. c ≢ 10) s → remlf (addlf s) ≡ s
remlf-addlf_plain s h = remlf-addlf s ∙ remlf_plain s h

-- As many characters as fit are copied.
addlf_fill :
    (xs ys : List ℕ) (len : ℕ)
    → len + length xs ≤ linelen
    → addlf_loop len (xs ++ ys) ≡ xs ++ addlf_loop (len + length xs) ys
unfolding addlf_loop
addlf_fill [] ys len h = ap (λ n. addlf_loop n ys) (omega arith)
addlf_fill (x ∷ xs) ys len h = rw (lt→ltb len linelen (omega arith)) (
    ap (λ t. x ∷ t)
      (addlf_fill xs ys (len + 1) (omega arith) ∙ ap (λ n. xs ++ addlf_loop n ys) (omega arith)))

addlf_row :
    (row ys : List ℕ)
    → length row ≡ linelen
    → addlf_loop 0 (row ++ ys) ≡ row ++ addlf_loop linelen ys
addlf_row row ys h =
    let full : 0 + length row ≡ linelen = omega arith in
    addlf_fill row ys 0 (omega arith) ∙ ap (λ n. row ++ addlf_loop n ys) full

addlf_break : (y : ℕ) (ys : List ℕ) → addlf_loop linelen (y ∷ ys) ≡ 10 ∷ y ∷ addlf_loop 0 ys
unfolding addlf_loop
addlf_break y ys = refl

-- The first line has LINELEN characters, and the next one has LINELEN + 1: of a text that is long
-- enough, `addlf` breaks off the first 64 characters and then a line of 65, and stands at the
-- point where it makes the next break.
pub addlf_lines :
    (line next ys : List ℕ) (y : ℕ)
    → length line ≡ linelen
    → length next ≡ linelen
    → (addlf (line ++ (y ∷ (next ++ ys))) ≡ line ++ (10 ∷ y ∷ (next ++ addlf_loop linelen ys)))
      × (length (y ∷ next) ≡ linelen + 1)
unfolding addlf
addlf_lines line next ys y h k = (
  addlf_row line (y ∷ (next ++ ys)) h
      ∙ ap (λ t. line ++ t)
          (addlf_break y (next ++ ys) ∙ ap (λ t. 10 ∷ y ∷ t) (addlf_row next ys k)),
  omega arith,
)
