-- ===== src/Amp/Blocks.antt =====
-- The text of one block: what the sending half writes and what the receiving half reads in it.
use flimg.Prelude.{
  ==_iff, ℕ, suc, ◌+◌, ◌^◌, ◌≤◌, ◌<◌, ◌≡◌, refl, ap, ◌∙◌, arith, true, false, List, [], ◌∷◌, ◌++◌,
  append_assoc, none, some, ◌==◌,
}
use flimg.Prelude.{take, drop, length, All, All-append, take_all, drop_behind, length-append}
use flimg.Cstd.{ℤ, pos, is_digit, print_nat, print_int, scan_int, find_char}
use flimg.Cstd.Decimal.{print_nat-IsDigit, scan_int-print_int, length-print_nat}
use flimg.Crc16.{hex_digit, sval, scrc16}
use flimg.IntMap.{IntMap, find, insert}
use flimg.Amp.{
  TxAmp, RxAmp, substr, same_text, hash_of, block_mark, add_numbered, rx_add_data, relay_header,
  keep_block,
}

pub same_text_refl : (s : List ℕ) → same_text s s ≡ true
unfolding same_text
same_text_refl [] = refl
same_text_refl (x ∷ xs) = rw (same_text_refl xs) (ground arith)

pub same_text_sound : (s t : List ℕ) → same_text s t ≡ true → s ≡ t
unfolding same_text
same_text_sound [] [] h = refl
same_text_sound [] (y ∷ ys) h = cc
same_text_sound (x ∷ xs) [] h = cc
same_text_sound (x ∷ xs) (y ∷ ys) h =
    let first : x ≡ y = (==_iff x y).0 (ground arith) in
    let more : xs ≡ ys = same_text_sound xs ys (ground arith) in cc

pub substr_all :
    (s : List ℕ) (at count : ℕ) → at ≤ length s → substr s at count ≡ some (take count (drop at s))
unfolding substr
substr_all s at count h = ground arith

pub find_char_behind :
    (c : ℕ) (xs rest : List ℕ)
    → All (λ x. (x == c) ≡ false) xs
    → find_char c (xs ++ c ∷ rest) ≡ some (length xs)
unfolding find_char
find_char_behind c [] rest h = ground arith
find_char_behind c (x ∷ xs) rest (h, hs) = rw (h, find_char_behind c xs rest hs)

-- The hash is four characters, none of them a brace.
hex_digit_is_no_brace : (d : ℕ) → d < 16 → (hex_digit d == b'}') ≡ false
unfolding hex_digit
hex_digit_is_no_brace d h = ground arith

abbrev pub IsHash : List ℕ → Type 0
IsHash hash = (length hash ≡ 4) × All (λ x. (x == b'}') ≡ false) hash

scrc16-IsHash : (s : List ℕ) → IsHash (scrc16 s)
unfolding scrc16 sval
scrc16-IsHash s = (
  refl,
  (
    hex_digit_is_no_brace _ (omega arith),
    (
      hex_digit_is_no_brace _ (omega arith),
      (hex_digit_is_no_brace _ (omega arith), (hex_digit_is_no_brace _ (omega arith), tt)),
    ),
  ),
)

digits_no_brace : (s : List ℕ) → All (λ x. is_digit x ≡ true) s → All (λ x. (x == b'}') ≡ false) s
digits_no_brace [] h = tt
digits_no_brace (x ∷ xs) (h, hs) = (ground arith, digits_no_brace xs hs)

pub hash_of-IsHash : (tx : TxAmp) → IsHash (hash_of tx)
unfolding hash_of
hash_of-IsHash tx = scrc16-IsHash _

-- The mark of a block number below 2 ^ 31 is not cut off.
whole_mark : List ℕ → ℕ → List ℕ
whole_mark hash n = b'{' ∷ (hash ++ b':' ∷ (print_int (pos n) ++ b'}' ∷ []))

block_mark_whole :
    (hash : List ℕ) (n : ℕ) → length hash ≡ 4 → n < 2 ^ 31 → block_mark hash n ≡ whole_mark hash n
unfolding block_mark whole_mark print_int
block_mark_whole hash n h lt = take_all 46 _ (
    omega (
      arith,
      length-append hash (b':' ∷ (print_nat n ++ b'}' ∷ [])),
      length-append (print_nat n) (b'}' ∷ []),
      length-print_nat 9 n (omega arith),
    ))

-- The brace that the receiving half finds ends the mark.
inner : List ℕ → ℕ → List ℕ
inner hash n = b'{' ∷ (hash ++ b':' ∷ print_int (pos n))

inner_no_brace :
    (hash : List ℕ) (n : ℕ)
    → All (λ x. (x == b'}') ≡ false) hash
    → All (λ x. (x == b'}') ≡ false) (inner hash n)
unfolding inner print_int
inner_no_brace hash n h = (
  refl,
  All-append (λ x. (x == b'}') ≡ false) hash (b':' ∷ print_nat n) h
      (refl, digits_no_brace (print_nat n) (print_nat-IsDigit n)),
)

whole_mark-inner :
    (hash : List ℕ) (n : ℕ) (rest : List ℕ)
    → whole_mark hash n ++ rest ≡ inner hash n ++ b'}' ∷ rest
unfolding inner whole_mark
whole_mark-inner hash n rest = simp append_assoc refl

-- The hash and the number that the receiving half reads.
reads_hash :
    (hash : List ℕ) (n : ℕ) (rest : List ℕ)
    → IsHash hash
    → substr (inner hash n ++ rest) 1 4 ≡ some hash
unfolding inner
reads_hash [] n rest (e, h) = absurd (omega arith)
reads_hash (a ∷ []) n rest (e, h) = absurd (omega arith)
reads_hash (a ∷ b ∷ []) n rest (e, h) = absurd (omega arith)
reads_hash (a ∷ b ∷ c ∷ []) n rest (e, h) = absurd (omega arith)
reads_hash (a ∷ b ∷ c ∷ d ∷ []) n rest (e, h) = substr_all _ 1 4 (omega arith)
reads_hash (a ∷ b ∷ c ∷ d ∷ x ∷ xs) n rest (e, h) = absurd (omega arith)

reads_number :
    (hash : List ℕ) (n : ℕ) (payload : List ℕ)
    → IsHash hash
    → (rest : List ℕ) × (substr
          (inner hash n ++ b'}' ∷ payload)
          6
          (length (inner hash n ++ b'}' ∷ payload))
        ≡ some rest)
      × (scan_int rest ≡ some (pos n))
unfolding inner
reads_number [] n payload (e, h) = absurd (omega arith)
reads_number (a ∷ []) n payload (e, h) = absurd (omega arith)
reads_number (a ∷ b ∷ []) n payload (e, h) = absurd (omega arith)
reads_number (a ∷ b ∷ c ∷ []) n payload (e, h) = absurd (omega arith)
reads_number (a ∷ b ∷ c ∷ d ∷ []) n payload (e, h) = (
  print_int (pos n) ++ b'}' ∷ payload,
  substr_all _ 6 _ (omega arith)
      ∙ ap some (
          take_all (length (inner (a ∷ b ∷ c ∷ d ∷ []) n ++ b'}' ∷ payload))
            (print_int (pos n) ++ b'}' ∷ payload) (omega arith)),
  scan_int-print_int n (b'}' ∷ payload) refl,
)
reads_number (a ∷ b ∷ c ∷ d ∷ x ∷ xs) n payload (e, h) = absurd (omega arith)

numbered_text :
    (rx : RxAmp) (text hash number : List ℕ) (z : ℤ)
    → substr text 1 4 ≡ some hash
    → same_text rx.rxhash hash ≡ true
    → substr text 6 (length text) ≡ some number
    → scan_int number ≡ some z
    → rx_add_data rx text ≡ some (add_numbered rx text z)
unfolding rx_add_data
numbered_text rx text hash number z p q r t = rw (p, q, r, t, rx_add_data) refl

reads_block :
    (rx : RxAmp) (hash : List ℕ) (n : ℕ) (payload : List ℕ)
    → n < 2 ^ 31
    → IsHash hash
    → rx.rxhash ≡ hash
    → rx_add_data rx (block_mark hash n ++ payload)
      ≡ some (add_numbered rx (inner hash n ++ b'}' ∷ payload) (pos n))
reads_block rx hash n payload lt h same =
    let (rest, number, scanned) = reads_number hash n payload h in
    let same_hash : same_text rx.rxhash hash ≡ true = rw same (same_text_refl hash) in
    ap (rx_add_data rx)
      (ap (λ t. t ++ payload) (block_mark_whole hash n h.0 lt) ∙ whole_mark-inner hash n payload)
    ∙ numbered_text rx _ hash rest (pos n) (reads_hash hash n (b'}' ∷ payload) h) same_hash number
        scanned

old_block :
    (rx : RxAmp) (text old : List ℕ) (z : ℤ)
    → find z rx.rxblocks ≡ some old
    → add_numbered rx text z ≡ rx
unfolding add_numbered
old_block rx text old z there = rw (there, add_numbered) refl

new_block :
    (rx : RxAmp) (text payload : List ℕ) (z : ℤ) (close : ℕ)
    → find z rx.rxblocks ≡ none
    → find_char b'}' text ≡ some close
    → drop (suc close) text ≡ payload
    → add_numbered rx text z ≡ record rx {
      rxblocks = insert z payload rx.rxblocks;
      rx_data_header = insert z (relay_header text close) rx.rx_data_header;
      rx_rcvd = rx.rx_rcvd ++ print_int z ++ b' ' ∷ [];
      rx_ok_blocks = rx.rx_ok_blocks + 1;
    }
unfolding add_numbered keep_block
new_block rx text payload z close new found rest =
    rw (new, found, add_numbered)
      (ap
        (λ t. record rx {
          rxblocks = insert z t rx.rxblocks;
          rx_data_header = insert z (relay_header text close) rx.rx_data_header;
          rx_rcvd = rx.rx_rcvd ++ print_int z ++ b' ' ∷ [];
          rx_ok_blocks = rx.rx_ok_blocks + 1;
        })
        (ap (λ k. drop k text) (one_more close) ∙ rest))
  where
    one_more : (k : ℕ) → k + 1 ≡ suc k
    one_more k = omega arith

-- A block that is there already changes nothing.
pub rx_add_data-again :
    (rx : RxAmp) (hash : List ℕ) (n : ℕ) (payload old : List ℕ)
    → n < 2 ^ 31
    → IsHash hash
    → rx.rxhash ≡ hash
    → find (pos n) rx.rxblocks ≡ some old
    → rx_add_data rx (block_mark hash n ++ payload) ≡ some rx
rx_add_data-again rx hash n payload old lt h same there =
    reads_block rx hash n payload lt h same ∙ ap some (old_block rx _ old (pos n) there)

-- A new block is kept, and counted.
pub rx_add_data-new :
    (rx : RxAmp) (hash : List ℕ) (n : ℕ) (payload : List ℕ)
    → n < 2 ^ 31
    → IsHash hash
    → rx.rxhash ≡ hash
    → find (pos n) rx.rxblocks ≡ none
    → (headers : IntMap) × (rcvd : List ℕ) × (rx_add_data rx (block_mark hash n ++ payload)
        ≡ some (record rx {
          rxblocks = insert (pos n) payload rx.rxblocks;
          rx_data_header = headers;
          rx_rcvd = rcvd;
          rx_ok_blocks = rx.rx_ok_blocks + 1;
        }))
rx_add_data-new rx hash n payload lt h same new =
    let whole : List ℕ = inner hash n ++ b'}' ∷ payload in
    let close = length (inner hash n) in
    let found : find_char b'}' whole ≡ some close =
      find_char_behind b'}' (inner hash n) payload (inner_no_brace hash n h.1) in
    (
      insert (pos n) (relay_header whole close) rx.rx_data_header,
      rx.rx_rcvd ++ print_int (pos n) ++ b' ' ∷ [],
      reads_block rx hash n payload lt h same
          ∙ ap some (
              new_block rx whole payload (pos n) close new found
                (drop_behind (inner hash n) b'}' payload)),
    )
