-- ===== src/Lines.antt =====
-- `addlf` and `remlf`, which `base128` (src/utils/base128.cxx) and `base256`
-- (src/utils/base256.cxx) have in the same words: breaking a text into lines and joining it.
pub mod Breaks
mod Tests
use flimg.Prelude.{ℕ, ◌+◌, List, [], ◌∷◌, ltb, ◌==◌, if◌then◌else◌}

abbrev pub linelen : ℕ
linelen = 64

-- The loop of `addlf`; `len` counts the characters of the line.
unfoldable pub addlf_loop : ℕ → List ℕ → List ℕ
addlf_loop len [] = []
addlf_loop len (c ∷ cs) =
    let rest = addlf_loop (if ltb len linelen then len + 1 else 0) cs in
    if ltb len linelen then c ∷ rest else 10 ∷ c ∷ rest

unfoldable pub addlf : List ℕ → List ℕ
unfolding addlf_loop
addlf s = addlf_loop 0 s

unfoldable pub remlf : List ℕ → List ℕ
remlf [] = []
remlf (c ∷ cs) = if c == 10 then remlf cs else c ∷ remlf cs
