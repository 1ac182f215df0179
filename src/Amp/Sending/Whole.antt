-- ===== src/Amp/Sending/Whole.antt =====
-- The text of `xmt_string`: the blocks that are asked for, and no other.
use flimg.Prelude.{ℕ, zero, suc, List, [], ◌∷◌}
use flimg.Amp.{TxAmp}
use flimg.Amp.Sending.{header_lines}

-- The `k` numbers behind `i`.
unfoldable pub numbers : ℕ → ℕ → List ℕ
numbers zero i = []
numbers (suc k) i = suc i ∷ numbers k (suc i)

-- The blocks of a transmission: those listed, or without a list all of them.
unfoldable pub asked : ℕ → List ℕ → List ℕ
asked n [] = numbers n 0
asked n (b ∷ bs) = b ∷ bs

-- Without a list the headers come first.
unfoldable pub headers_for : List ℕ → TxAmp → List ℕ → List ℕ
headers_for lines tx [] = header_lines lines tx
headers_for lines tx (b ∷ bs) = []
