-- ===== src/Amp/Incoming/Numbers.antt =====
-- The loop of `reformat_missing_blocks` over the numbers of a report behind a blank.
use flimg.Prelude.{
  ℕ, zero, suc, ◌^◌, ◌≤◌, ◌<◌, ◌≡◌, refl, ap, ap₂, ◌∙◌, arith, false, List, [], ◌∷◌, ◌++◌, map,
  some,
}
use flimg.Prelude.{All, length, length-map, ==_refl}
use flimg.Cstd.{pos, scan_int, skip_spaces, print_nat}
use flimg.Cstd.Decimal.{scan_int-print_nat}
use flimg.IntMap.{eqb_int}
use flimg.Amp.Reports.{
  erase_digits, has_block, push_block, read_blocks, reformat_missing_blocks, sort, join_blocks,
}
use flimg.Amp.Reports.Reading.{
  spaced, IsAscending, read_blocks-spaced, length-spaced, read_one, above_is_new,
  erase_others-spaced,
}
use flimg.Amp.Reports.Agreement.{comma_list, sort-pos, join_blocks-pos}

-- A blank in front of the numbers: the loop reads the first number twice and keeps it once.
blank_skipped : (s : List ℕ) → scan_int (b' ' ∷ s) ≡ scan_int s
unfolding scan_int skip_spaces
blank_skipped s = refl

first_number : (n : ℕ) (ns : List ℕ) → scan_int (b' ' ∷ spaced (n ∷ ns)) ≡ some (pos n)
unfolding spaced
first_number n ns =
    blank_skipped (print_nat n ++ b' ' ∷ spaced ns) ∙ scan_int-print_nat n (b' ' ∷ spaced ns) refl

blank_first :
    (fuel n : ℕ) (ns : List ℕ)
    → read_blocks (suc fuel) (b' ' ∷ spaced (n ∷ ns)) []
      ≡ read_blocks fuel (spaced (n ∷ ns)) (pos n ∷ [])
unfolding read_blocks erase_digits push_block has_block
blank_first fuel n ns =
    ap₂ (λ t o. read_blocks fuel t (push_block o [])) (erase_others-spaced (n ∷ ns))
      (first_number n ns)

known_number : (n : ℕ) → push_block (some (pos n)) (pos n ∷ []) ≡ pos n ∷ []
unfolding push_block has_block eqb_int
known_number n = rw (==_refl n) refl

not_known : (n k : ℕ) → n < k → has_block (pos k) (pos n ∷ []) ≡ false
unfolding has_block
not_known n k h = rw (above_is_new n k h) refl

read_again :
    (i fuel n : ℕ) (ns : List ℕ)
    → IsAscending i (n ∷ ns)
    → length (n ∷ ns) ≤ fuel
    → read_blocks fuel (spaced (n ∷ ns)) (pos n ∷ []) ≡ map pos (n ∷ ns)
unfolding IsAscending
read_again i zero n ns a h = absurd (omega arith)
read_again i (suc fuel) n ns (p, a) h =
    read_one fuel n ns (pos n ∷ [])
    ∙ ap (read_blocks fuel (spaced ns)) (known_number n)
    ∙ read_blocks-spaced ns n (pos n ∷ []) fuel a (not_known n) (omega arith)

pub reads_blank :
    (i n : ℕ) (ns : List ℕ)
    → IsAscending i (n ∷ ns)
    → All (λ k. k < 10 ^ 8) (n ∷ ns)
    → reformat_missing_blocks (b' ' ∷ spaced (n ∷ ns)) ≡ (length (n ∷ ns), comma_list (n ∷ ns))
unfolding reformat_missing_blocks
reads_blank i n ns a b =
    let fuel = length (spaced (n ∷ ns)) in
    ap (λ zs. (length (sort zs), join_blocks (sort zs) []))
      (blank_first fuel n ns ∙ read_again i fuel n ns a (length-spaced (n ∷ ns)))
    ∙ ap (λ zs. (length zs, join_blocks zs [])) (sort-pos i (n ∷ ns) a)
    ∙ ap₂ (λ k t. (k, t)) (length-map (n ∷ ns) pos) (join_blocks-pos (n ∷ ns) b)
