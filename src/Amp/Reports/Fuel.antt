-- ===== src/Amp/Reports/Fuel.antt =====
-- The loop of `reformat_missing_blocks` ends: each turn takes characters off the text.
use flimg.Prelude.{ℕ, zero, suc, ◌≤◌, arith, List, [], ◌∷◌, length, Bool-cases, inl, inr}
use flimg.Cstd.{ℤ, is_digit, scan_int}
use flimg.Amp.Reports.{erase_digits, erase_others, push_block, read_blocks}

length-erase_digits : (s : List ℕ) → length (erase_digits s) ≤ length s
unfolding erase_digits
length-erase_digits [] = omega arith
length-erase_digits (c ∷ cs) = elim (Bool-cases (is_digit c)) [
  | inl d ↦ rw d (omega (arith, length-erase_digits cs))
  | inr d ↦ rw d (omega arith)
]

length-erase_others : (s : List ℕ) → length (erase_others s) ≤ length s
unfolding erase_others
length-erase_others [] = omega arith
length-erase_others (c ∷ cs) = elim (Bool-cases (is_digit c)) [
  | inl d ↦ rw d (omega arith)
  | inr d ↦ rw d (omega (arith, length-erase_others cs))
]

turn_shortens : (c : ℕ) (cs : List ℕ) → length (erase_others (erase_digits (c ∷ cs))) ≤ length cs
unfolding erase_digits erase_others
turn_shortens c cs = elim (Bool-cases (is_digit c)) [
  | inl d ↦ rw d (omega (arith, length-erase_others (erase_digits cs), length-erase_digits cs))
  | inr d ↦ rw (d, d) (length-erase_others cs)
]

-- The loop of the source from a text and the numbers so far, with what it ends with: it ends at the
-- empty text, and otherwise reads a number and erases the digits and what stands behind them. A
-- loop that goes on forever has no derivation.
pub data Runs : List ℕ → List ℤ → List ℤ → Type 0 where
  done : (iblocks : List ℤ) → Runs [] iblocks iblocks
  turn :
      (c : ℕ) (cs : List ℕ) (iblocks result : List ℤ)
      → Runs (erase_others (erase_digits (c ∷ cs))) (push_block (scan_int (c ∷ cs)) iblocks) result
      → Runs (c ∷ cs) iblocks result

enough_fuel-Runs :
    (fuel : ℕ) (text : List ℕ) (iblocks : List ℤ)
    → length text ≤ fuel
    → Runs text iblocks (read_blocks fuel text iblocks)
unfolding read_blocks
enough_fuel-Runs zero [] iblocks h = done iblocks
enough_fuel-Runs zero (c ∷ cs) iblocks h = absurd (omega arith)
enough_fuel-Runs (suc fuel) [] iblocks h = done iblocks
enough_fuel-Runs (suc fuel) (c ∷ cs) iblocks h = turn c cs iblocks _ (
    enough_fuel-Runs fuel (erase_others (erase_digits (c ∷ cs)))
      (push_block (scan_int (c ∷ cs)) iblocks) (omega (arith, turn_shortens c cs)))

-- The loop of `reformat_missing_blocks` comes to the empty text after finitely many turns, from any
-- text and any numbers, and ends with the numbers that `read_blocks` collects on fuel of the length
-- of the text.
pub read_blocks-Runs :
    (text : List ℕ) (iblocks : List ℤ) → Runs text iblocks (read_blocks (length text) text iblocks)
read_blocks-Runs text iblocks = enough_fuel-Runs (length text) text iblocks (omega arith)
