-- ===== src/Lines/Tests.antt =====
-- A run of the line breaks.
use flimg.Prelude.{ℕ, ◌≡◌, refl, List, [], ◌∷◌, ◌++◌, replicate}
use flimg.Lines.{addlf}

abbrev row : List ℕ
row = replicate 64 b'a'

second_line_longer :
    addlf (row ++ (b'b' ∷ (row ++ (b'c' ∷ [])))) ≡ row ++ (10 ∷ b'b' ∷ (row ++ (10 ∷ b'c' ∷ [])))
unfolding addlf flimg.Lines.addlf_loop
second_line_longer = refl
