-- ===== src/Amp/Reports/Agreement.antt =====
-- The sending half reads in a report exactly the blocks that the receiving half misses.
use flimg.Prelude.{
  ℕ, zero, suc, ◌^◌, ◌<◌, ◌≡◌, refl, sym, ap, ap₂, ◌∙◌, arith, List, [], ◌∷◌, ◌++◌, map,
  append_assoc, append-nil,
}
use flimg.Prelude.{length, length-map, All}
use flimg.Cstd.{pos, print_nat, scan_int}
use flimg.Cstd.Decimal.{print_nat-cons}
use flimg.IntMap.{IntMap, ltb_int}
use flimg.Amp.{RxAmp}
use flimg.Amp.Reports.{
  iterations, report_body, or_word, erase_digits, erase_others, has_block, push_block, read_blocks,
  insert_block, sort, join_blocks, reformat_missing_blocks,
}
use flimg.Amp.Reports.Reading.{
  missing_from, spaced, IsAscending, missing_from-IsAscending, missing_from-lt, send_number,
  rx_report_loop-missing_from, read_blocks-spaced, length-spaced,
}

insert_block-pos :
    (n : ℕ) (ns : List ℕ)
    → IsAscending n ns
    → insert_block (pos n) (map pos ns) ≡ pos n ∷ map pos ns
unfolding insert_block IsAscending ltb_int
insert_block-pos n [] a = refl
insert_block-pos n (m ∷ ns) (p, a) = ground arith

pub sort-pos : (i : ℕ) (ns : List ℕ) → IsAscending i ns → sort (map pos ns) ≡ map pos ns
unfolding sort IsAscending
sort-pos i [] a = refl
sort-pos i (n ∷ ns) (p, a) = ap (insert_block (pos n)) (sort-pos n ns a) ∙ insert_block-pos n ns a

unfoldable pub comma_tail : List ℕ → List ℕ
comma_tail [] = []
comma_tail (n ∷ ns) = b',' ∷ (print_nat n ++ comma_tail ns)

-- The numbers, with commas between them.
unfoldable pub comma_list : List ℕ → List ℕ
unfolding comma_tail
comma_list [] = []
comma_list (n ∷ ns) = print_nat n ++ comma_tail ns

join_behind :
    (ns : List ℕ) (c : ℕ) (cs : List ℕ)
    → All (λ n. n < 10 ^ 8) ns
    → join_blocks (map pos ns) (c ∷ cs) ≡ (c ∷ cs) ++ comma_tail ns
unfolding join_blocks comma_tail
join_behind [] c cs a = sym (append-nil (c ∷ cs))
join_behind (n ∷ ns) c cs (p, a) =
    ap (λ t. join_blocks (map pos ns) (c ∷ (cs ++ b',' ∷ t))) (send_number n p)
    ∙ join_behind ns c (cs ++ b',' ∷ print_nat n) a
    ∙ simp append_assoc refl

pub join_blocks-pos :
    (ns : List ℕ) → All (λ n. n < 10 ^ 8) ns → join_blocks (map pos ns) [] ≡ comma_list ns
unfolding join_blocks comma_list
join_blocks-pos [] a = refl
join_blocks-pos (n ∷ ns) (p, a) =
    let (c, cs, e, d) = print_nat-cons n in
    ap (join_blocks (map pos ns)) (send_number n p ∙ e)
    ∙ join_behind ns c cs a
    ∙ ap (λ t. t ++ comma_tail ns) (sym e)

reads_spaced :
    (i : ℕ) (ns : List ℕ)
    → IsAscending i ns
    → All (λ n. n < 10 ^ 8) ns
    → reformat_missing_blocks (spaced ns) ≡ (length ns, comma_list ns)
unfolding reformat_missing_blocks has_block
reads_spaced i ns a b =
    ap (λ zs. (length (sort zs), join_blocks (sort zs) []))
      (read_blocks-spaced ns i [] (length (spaced ns)) a (λ n h. refl) (length-spaced ns))
    ∙ ap (λ zs. (length zs, join_blocks zs [])) (sort-pos i ns a)
    ∙ ap₂ (λ n t. (n, t)) (length-map ns pos) (join_blocks-pos ns b)

-- What a report says: a number for each missing block, or a word without digits.
word_reads : (flags : ℕ) → reformat_missing_blocks (or_word [] flags) ≡ (0, [])
unfolding reformat_missing_blocks or_word read_blocks erase_others erase_digits push_block scan_int
    sort join_blocks
word_reads zero = refl
word_reads (suc flags) = refl

pub numbers_stay :
    (n : ℕ) (ns : List ℕ) (flags : ℕ) → or_word (spaced (n ∷ ns)) flags ≡ spaced (n ∷ ns)
unfolding spaced or_word
numbers_stay n ns flags =
    let (c, cs, e, d) = print_nat-cons n in
    ap (λ t. or_word (t ++ b' ' ∷ spaced ns) flags) e ∙ ap (λ t. t ++ b' ' ∷ spaced ns) (sym e)

reads_body :
    (i : ℕ) (ns : List ℕ) (flags : ℕ)
    → IsAscending i ns
    → All (λ n. n < 10 ^ 8) ns
    → reformat_missing_blocks (or_word (spaced ns) flags) ≡ (length ns, comma_list ns)
unfolding spaced comma_list
reads_body i [] flags a b = word_reads flags
reads_body i (n ∷ ns) flags a b =
    ap reformat_missing_blocks (numbers_stay n ns flags) ∙ reads_spaced i (n ∷ ns) a b

-- Of a file of fewer than 10 ^ 8 blocks, the receiving half reports what it lacks; the sending
-- half makes of the report the blocks from 1 to `rxnumblocks` that are not there, and no other:
-- each once, in ascending order, with commas between them, and their number.
pub reformat_missing_blocks-report_body :
    (rx : RxAmp)
    → iterations rx.rxnumblocks < 10 ^ 8
    → let ms = missing_from rx.rxblocks (iterations rx.rxnumblocks) 1 in
      reformat_missing_blocks (report_body rx) ≡ (length ms, comma_list ms)
unfolding report_body
reformat_missing_blocks-report_body rx h =
    let m : IntMap = rx.rxblocks in
    let k = iterations rx.rxnumblocks in
    ap (λ t. reformat_missing_blocks (or_word t rx.rx_crc_flags))
      (rx_report_loop-missing_from m k 1 [] (omega arith))
    ∙ reads_body 0 (missing_from m k 1) rx.rx_crc_flags
        (missing_from-IsAscending m k 1 0 (omega arith))
        (missing_from-lt m k 1 (10 ^ 8) (omega arith))
