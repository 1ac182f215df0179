-- ===== src/Amp/Sending/Fills.antt =====
-- The loop of `xmt_string` over a list of blocks sends these blocks.
use flimg.Prelude.{
  ℕ, zero, suc, ◌^◌, ◌≤◌, ◌<◌, ◌≡◌, refl, sym, ap, ap₂, ◌∙◌, arith, true, false, List, [], ◌∷◌,
  ◌++◌, Option, some,
}
use flimg.Prelude.{All, length, length-append, ltb, codes}
use flimg.Cstd.{pos, print_nat, scan_int, is_digit}
use flimg.Cstd.Decimal.{scan_int-print_nat, print_nat-cons, print_nat-IsDigit}
use flimg.Amp.{TxAmp, hash_of, file_hash, frame, block_mark, data_block, xmt_calc_numblocks}
use flimg.Amp.Chunks.{chunk}
use flimg.Amp.Transfer.{IsBlock, block_text_lem}
use flimg.Amp.Reports.{erase_digits, erase_others}
use flimg.Amp.Reports.Reading.{erase_digits_lem, erase_others_digit}
use flimg.Amp.Reports.Agreement.{comma_list, comma_tail}
use flimg.Amp.Sending.{and_then, fill, fill_loop}

-- The line of a block, and the lines of several.
unfoldable pub data_line : TxAmp → ℕ → List ℕ
data_line tx zero = []
data_line tx (suc i) =
    frame (codes "<DATA ") (block_mark (hash_of tx) (suc i) ++ chunk tx.xmtdata tx.xmtblocksize i)

unfoldable pub data_lines : TxAmp → List ℕ → List ℕ
data_lines tx [] = []
data_lines tx (n ∷ ns) = data_line tx n ++ data_lines tx ns

-- The blocks leave the new hash behind.
unfoldable pub stamped : TxAmp → List ℕ → TxAmp
stamped tx [] = tx
stamped tx (n ∷ ns) = file_hash tx

pub data_block_lem :
    (tx : TxAmp) (n : ℕ)
    → 0 < tx.xmtblocksize
    → length tx.xmtdata < 2 ^ 31
    → IsBlock tx n
    → data_block tx n ≡ some (file_hash tx, data_line tx n)
unfolding data_block data_line
data_block_lem tx zero size small (p, q) = absurd (omega arith)
data_block_lem tx (suc i) size small (p, q) =
    rw (block_text_lem tx i size small (omega arith), data_block) refl

only_digits : (ds : List ℕ) → All (λ d. is_digit d ≡ true) ds → erase_digits (ds ++ []) ≡ []
unfolding erase_digits
only_digits [] a = refl
only_digits (d ∷ ds) (b, a) = rw b (only_digits ds a)

starts_number :
    (n : ℕ) (ns : List ℕ) → erase_others (b',' ∷ comma_list (n ∷ ns)) ≡ comma_list (n ∷ ns)
unfolding comma_list erase_others
starts_number n ns =
    let (c, cs, e, d) = print_nat-cons n in
    ap (λ t. erase_others (t ++ comma_tail ns)) e
    ∙ erase_others_digit c (cs ++ comma_tail ns) d
    ∙ ap (λ t. t ++ comma_tail ns) (sym e)

comma_next :
    (n : ℕ) (ns : List ℕ) → erase_others (erase_digits (comma_list (n ∷ ns))) ≡ comma_list ns
unfolding comma_tail comma_list erase_others
comma_next n [] = ap erase_others (only_digits (print_nat n) (print_nat-IsDigit n))
comma_next n (m ∷ ns) =
    ap erase_others
      (erase_digits_lem (print_nat n) b',' (comma_list (m ∷ ns)) (print_nat-IsDigit n) refl)
    ∙ starts_number m ns

comma_first : (n : ℕ) (ns : List ℕ) → scan_int (comma_list (n ∷ ns)) ≡ some (pos n)
unfolding comma_tail comma_list
comma_first n [] = scan_int-print_nat n [] refl
comma_first n (m ∷ ns) = scan_int-print_nat n (b',' ∷ comma_list (m ∷ ns)) refl

pub length-comma_list : (ns : List ℕ) → length ns ≤ length (comma_list ns)
unfolding comma_list comma_tail
length-comma_list [] = omega arith
length-comma_list (n ∷ []) =
    let (c, cs, e, d) = print_nat-cons n in
    omega (arith, length-append (print_nat n) [], ap length e)
length-comma_list (n ∷ m ∷ ns) =
    omega
      (arith, length-append (print_nat n) (b',' ∷ comma_list (m ∷ ns)), length-comma_list (m ∷ ns))

fill_loop-cons :
    (lines : List ℕ) (fuel : ℕ) (text : List ℕ) (tx : TxAmp)
    → 0 < length text
    → fill_loop lines (suc fuel) text tx
      ≡ and_then
          (fill lines tx (scan_int text))
          (fill_loop lines fuel (erase_others (erase_digits text)))
unfolding fill_loop
fill_loop-cons lines fuel [] tx h = absurd (omega arith)
fill_loop-cons lines fuel (c ∷ cs) tx h = refl

fill_block :
    (lines : List ℕ) (tx : TxAmp) (n : ℕ)
    → 0 < tx.xmtblocksize
    → length tx.xmtdata < 2 ^ 31
    → tx.xmtnumblocks ≡ (xmt_calc_numblocks tx).xmtnumblocks
    → IsBlock tx n
    → fill lines tx (some (pos n)) ≡ some (file_hash tx, data_line tx n)
unfolding fill
fill_block lines tx zero size small fresh (p, q) = absurd (omega arith)
fill_block lines tx (suc i) size small fresh (p, q) =
    let inside : ltb tx.xmtnumblocks (suc i) ≡ false = ground arith in
    rw inside (data_block_lem tx (suc i) size small (p, q))

-- One turn of the loop sends one block.
fill_one :
    (lines : List ℕ) (fuel n : ℕ) (ns : List ℕ) (tx : TxAmp)
    → 0 < tx.xmtblocksize
    → length tx.xmtdata < 2 ^ 31
    → tx.xmtnumblocks ≡ (xmt_calc_numblocks tx).xmtnumblocks
    → IsBlock tx n
    → fill_loop lines (suc fuel) (comma_list (n ∷ ns)) tx
      ≡ and_then (some (file_hash tx, data_line tx n)) (fill_loop lines fuel (comma_list ns))
fill_one lines fuel n ns tx size small fresh b =
    fill_loop-cons lines fuel (comma_list (n ∷ ns)) tx (omega (arith, length-comma_list (n ∷ ns)))
    ∙ ap₂ and_then
        (ap (fill lines tx) (comma_first n ns) ∙ fill_block lines tx n size small fresh b)
        (ap (fill_loop lines fuel) (comma_next n ns))

pub data_lines-file_hash :
    (tx : TxAmp) (ns : List ℕ) → data_lines (file_hash tx) ns ≡ data_lines tx ns
unfolding data_lines data_line file_hash hash_of
data_lines-file_hash tx [] = refl
data_lines-file_hash tx (n ∷ ns) = ap₂ (λ t u. t ++ u) (same_line n) (data_lines-file_hash tx ns)
  where
    same_line : (n : ℕ) → data_line (file_hash tx) n ≡ data_line tx n
    same_line zero = refl
    same_line (suc i) = refl

pub stamped-file_hash : (tx : TxAmp) (ns : List ℕ) → stamped (file_hash tx) ns ≡ file_hash tx
unfolding stamped file_hash hash_of
stamped-file_hash tx [] = refl
stamped-file_hash tx (n ∷ ns) = refl

pub and_then-some :
    (tx last : TxAmp) (text more : List ℕ) (next : TxAmp → Option (TxAmp × List ℕ))
    → next tx ≡ some (last, more)
    → and_then (some (tx, text)) next ≡ some (last, text ++ more)
unfolding and_then
and_then-some tx last text more next e = rw (e, and_then) refl

pub sent_before :
    (tx : TxAmp) (n : ℕ) (ns : List ℕ) (next : TxAmp → Option (TxAmp × List ℕ))
    → next (file_hash tx) ≡ some (stamped (file_hash tx) ns, data_lines (file_hash tx) ns)
    → and_then (some (file_hash tx, data_line tx n)) next
      ≡ some (stamped tx (n ∷ ns), data_lines tx (n ∷ ns))
unfolding data_lines stamped
sent_before tx n ns next e =
    and_then-some (file_hash tx) (file_hash tx) (data_line tx n) (data_lines tx ns) next
      (e ∙ ap₂ (λ t u. some (t, u)) (stamped-file_hash tx ns) (data_lines-file_hash tx ns))

no_fill :
    (lines : List ℕ) (fuel : ℕ) (tx : TxAmp)
    → fill_loop lines fuel (comma_list []) tx ≡ some (tx, [])
unfolding fill_loop comma_list
no_fill lines zero tx = refl
no_fill lines (suc fuel) tx = refl

module _ (lines : List ℕ) where
  pub fill_loop-comma_list :
      (fuel : ℕ) (ns : List ℕ) (tx : TxAmp)
      → 0 < tx.xmtblocksize
      → length tx.xmtdata < 2 ^ 31
      → tx.xmtnumblocks ≡ (xmt_calc_numblocks tx).xmtnumblocks
      → All (IsBlock tx) ns
      → length ns ≤ fuel
      → fill_loop lines fuel (comma_list ns) tx ≡ some (stamped tx ns, data_lines tx ns)
  unfolding stamped data_lines file_hash xmt_calc_numblocks
  fill_loop-comma_list fuel [] tx size small fresh a h = no_fill lines fuel tx
  fill_loop-comma_list zero (n ∷ ns) tx size small fresh a h = absurd (omega arith)
  fill_loop-comma_list (suc fuel) (n ∷ ns) tx size small fresh (b, a) h =
      fill_one lines fuel n ns tx size small fresh b
      ∙ sent_before tx n ns (fill_loop lines fuel (comma_list ns))
          (fill_loop-comma_list fuel ns (file_hash tx) size small fresh a (omega arith))
