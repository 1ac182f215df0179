-- ===== src/Amp/Transfer.antt =====
-- The blocks of a file, sent in any order and more than once, give the file back.
use flimg.Prelude.{
  ℕ, zero, suc, ◌*◌, ◌^◌, ◌≤◌, ◌<◌, ◌≡◌, refl, sym, ap, ◌∙◌, arith, Bool, true, false, ◌||◌, List,
  [], ◌∷◌, ◌++◌, Option, none, some, leb, ◌==◌,
}
use flimg.Prelude.{take, drop, length, All, Bool-cases, inl, inr, take_all, ==_iff, leb→le}
use flimg.Cstd.{ℤ, pos, negsuc}
use flimg.IntMap.{find, join}
use flimg.IntMap.Extensionality.{eq_by_find}
use flimg.Amp.{
  TxAmp, RxAmp, hash_of, block_text, block_mark, rx_add_data, rx_recvd_string, rx_completed,
  xmt_calc_numblocks,
}
use flimg.Amp.Collect.{
  AwaitsBlocks, HeaderFields, headers_of, Collected, IsCollectedBy, collect_again, collect_new,
}
use flimg.Amp.Blocks.{substr_all}
use flimg.Amp.Chunks.{
  chunk, chunk_map, join-chunk_map, chunk_map-IsSorted, answer, between, find-chunk_map,
  length-chunk_map, numblocks_enough, numblocks_tight, numblocks_le,
}

-- The blocks of these numbers go from `tx` to `rx`, in this order.
unfoldable pub deliver : TxAmp → RxAmp → List ℕ → Option RxAmp
deliver tx rx [] = some rx
deliver tx rx (i ∷ is) = elim (block_text tx i) [
  | none ↦ none
  | some text ↦ elim (rx_add_data rx text) [ none ↦ none | some next ↦ deliver tx next is ]
]

unfoldable pub mem : ℕ → List ℕ → Bool
mem k [] = false
mem k (x ∷ xs) = (k == x) || mem k xs

-- A block of the file is one that `data_block` can cut.
abbrev pub IsBlock : TxAmp → ℕ → Type 0
IsBlock tx i = (0 < i) × (i ≤ (xmt_calc_numblocks tx).xmtnumblocks)

pub block_text_lem :
    (tx : TxAmp) (j : ℕ)
    → 0 < tx.xmtblocksize
    → length tx.xmtdata < 2 ^ 31
    → j < (xmt_calc_numblocks tx).xmtnumblocks
    → block_text tx (suc j)
      ≡ some (block_mark (hash_of tx) (suc j) ++ chunk tx.xmtdata tx.xmtblocksize j)
unfolding block_text
block_text_lem tx j size small lt =
    let inside : j * tx.xmtblocksize ≤ length tx.xmtdata =
      omega (arith, numblocks_tight tx j size lt) in
    let in_int : leb (2 ^ 31) (j * tx.xmtblocksize) ≡ false = ground arith in
    rw (in_int, substr_all tx.xmtdata (j * tx.xmtblocksize) tx.xmtblocksize inside, block_text) refl

pub deliver-cons :
    (tx : TxAmp) (rx next : RxAmp) (i : ℕ) (is : List ℕ) {text : List ℕ}
    → block_text tx i ≡ some text
    → rx_add_data rx text ≡ some next
    → deliver tx rx (i ∷ is) ≡ deliver tx next is
unfolding deliver
deliver-cons tx rx next i is e f = rw (e, f, deliver) refl

unfoldable pub seen : List ℕ → (ℕ → Bool) → ℕ → Bool
seen [] has = has
seen (i ∷ is) has = seen is (λ k. (k == i) || has k)

module _ (tx : TxAmp) (size : 0 < tx.xmtblocksize) (small : length tx.xmtdata < 2 ^ 31) where
  few : (xmt_calc_numblocks tx).xmtnumblocks < 2 ^ 31
  few = omega (arith, numblocks_le tx size)

  pub collect_one :
      (headers : HeaderFields) (has : ℕ → Bool) (rx : RxAmp) (j : ℕ)
      → j < (xmt_calc_numblocks tx).xmtnumblocks
      → Collected tx headers has rx
      → IsCollectedBy tx headers
          (λ k. (k == suc j) || has k)
          rx
          (block_mark (hash_of tx) (suc j) ++ chunk tx.xmtdata tx.xmtblocksize j)
  collect_one headers has rx j lt c = elim (Bool-cases (has (suc j))) [
    | inl h ↦ collect_again tx headers has rx j (omega (arith, few)) h c
    | inr h ↦ collect_new tx headers has rx j (omega (arith, few)) h c
  ]

  pub deliver_collects :
      (headers : HeaderFields) (order : List ℕ) (has : ℕ → Bool) (rx : RxAmp)
      → All (IsBlock tx) order
      → Collected tx headers has rx
      → (last : RxAmp) × (deliver tx rx order ≡ some last)
        × Collected tx headers (seen order has) last
  unfolding deliver seen IsCollectedBy
  deliver_collects headers [] has rx a c = (rx, refl, c)
  deliver_collects headers (zero ∷ is) has rx ((p, q), a) c = absurd (omega arith)
  deliver_collects headers (suc j ∷ is) has rx ((p, q), a) c =
      let (next, e, d) = collect_one headers has rx j (omega arith) c in
      let (last, f, g) = deliver_collects headers is (λ k. (k == suc j) || has k) next a d in
      (
        last,
        deliver-cons tx rx next (suc j) is (block_text_lem tx j size small (omega arith)) e ∙ f,
        g,
      )

pub seen-mem : (order : List ℕ) (has : ℕ → Bool) (k : ℕ) → seen order has k ≡ mem k order || has k
unfolding seen mem
seen-mem [] has k = refl
seen-mem (i ∷ is) has k = ground (arith, seen-mem is (λ j. (j == i) || has j) k)

pub no_answer : (text : List ℕ) (size : ℕ) (z : ℤ) → find z [] ≡ answer text size (λ k. false) z
unfolding find answer
no_answer text size (pos zero) = refl
no_answer text size (pos (suc i)) = refl
no_answer text size (negsuc i) = refl

pub begins :
    (tx : TxAmp) (rx : RxAmp) → AwaitsBlocks tx rx → Collected tx (headers_of rx) (λ k. false) rx
begins tx rx w = record {
  same_hash = w.same_hash;
  same_headers = refl;
  sorted = rw w.no_block tt;
  counted = rw (w.no_block, w.none_counted) refl;
  answers = λ z. rw w.no_block (no_answer tx.xmtdata tx.xmtblocksize z);
}

answer_ext :
    (text : List ℕ) (size : ℕ) (has had : ℕ → Bool) (z : ℤ)
    → ((i : ℕ) → has (suc i) ≡ had (suc i))
    → answer text size has z ≡ answer text size had z
unfolding answer
answer_ext text size has had (pos zero) h = refl
answer_ext text size has had (pos (suc i)) h = rw (h i) refl
answer_ext text size has had (negsuc i) h = refl

-- With every block marked, the map is that of all blocks.
pub all_blocks :
    (tx : TxAmp) (headers : HeaderFields) (has : ℕ → Bool) (rx : RxAmp)
    → ((i : ℕ) → has (suc i) ≡ between 0 (xmt_calc_numblocks tx).xmtnumblocks (suc i))
    → Collected tx headers has rx
    → rx.rxblocks ≡ chunk_map tx.xmtdata tx.xmtblocksize 0 (xmt_calc_numblocks tx).xmtnumblocks
all_blocks tx headers has rx h c =
    let n = (xmt_calc_numblocks tx).xmtnumblocks in
    let text : List ℕ = tx.xmtdata in
    let size = tx.xmtblocksize in
    eq_by_find rx.rxblocks (chunk_map text size 0 n) c.sorted (chunk_map-IsSorted text size 0 n)
      (λ z.
        c.answers z
        ∙ answer_ext text size has (between 0 n) z h
        ∙ sym (find-chunk_map text size 0 n z))

pub join_all :
    (tx : TxAmp)
    → 0 < tx.xmtblocksize
    → join (chunk_map tx.xmtdata tx.xmtblocksize 0 (xmt_calc_numblocks tx).xmtnumblocks)
      ≡ tx.xmtdata
join_all tx size =
    let n = (xmt_calc_numblocks tx).xmtnumblocks in
    join-chunk_map tx.xmtdata tx.xmtblocksize 0 n
    ∙ ap (λ k. take (n * tx.xmtblocksize) (drop k tx.xmtdata)) (no_offset tx.xmtblocksize)
    ∙ take_all (n * tx.xmtblocksize) tx.xmtdata (numblocks_enough tx size)
  where
    no_offset : (size : ℕ) → 0 * size ≡ 0
    no_offset size = grind arith

pub some_block : (n size len : ℕ) → 0 < len → len ≤ n * size → 0 < n
some_block zero size len p h = grind arith
some_block (suc n) size len p h = omega arith

pub completed :
    (rx : RxAmp) (n : ℕ)
    → 0 < n
    → rx.rx_ok_blocks ≡ n
    → rx.rxnumblocks ≡ pos n
    → rx.rx_crc_flags ≡ 0
    → rx_completed rx ≡ true
unfolding rx_completed
completed rx n p e f g = rw (e, f, g) (ground arith)

pub recvd : (rx : RxAmp) → rx_completed rx ≡ true → rx_recvd_string rx ≡ join rx.rxblocks
unfolding rx_recvd_string
recvd rx h = rw h refl

only_blocks :
    (tx : TxAmp) (order : List ℕ) (k : ℕ)
    → All (IsBlock tx) order
    → mem k order ≡ true
    → IsBlock tx k
unfolding mem
only_blocks tx [] k a h = absurd (ground arith)
only_blocks tx (i ∷ is) k ((p, q), a) h = elim (Bool-cases (k == i)) [
  | inl e ↦ rw ((==_iff k i).0 e) (p, q)
  | inr e ↦ only_blocks tx is k a (ground arith)
]

pub every_mark :
    (tx : TxAmp) (order : List ℕ)
    → All (IsBlock tx) order
    → ((i : ℕ) → IsBlock tx i → mem i order ≡ true)
    → (i : ℕ)
    → seen order (λ k. false) (suc i) ≡ between 0 (xmt_calc_numblocks tx).xmtnumblocks (suc i)
every_mark tx order a every i =
    seen-mem order (λ k. false) (suc i) ∙ elim (Bool-cases (mem (suc i) order)) [
      | inl here ↦ let (p, q) = only_blocks tx order (suc i) a here in ground arith
      | inr not_here ↦ elim (Bool-cases (leb (suc i) (xmt_calc_numblocks tx).xmtnumblocks)) [
        | inl in_range ↦
            let found = every (suc i) (omega arith, leb→le _ _ in_range) in ground arith
        | inr beyond ↦ ground arith
      ]
    ]

-- Take a file of at least one byte and fewer than 2 ^ 31, a block size above 0, and a receiving
-- half that has read the file's headers and no block yet. Deliver blocks of the file in any order, any of them repeatedly, but each at least once. No call throws, the
-- receiving half counts the file as complete, and it returns the file.
pub rx_recvd_string-deliver :
    (tx : TxAmp) (rx : RxAmp) (order : List ℕ)
    → 0 < tx.xmtblocksize
    → 0 < length tx.xmtdata
    → length tx.xmtdata < 2 ^ 31
    → AwaitsBlocks tx rx
    → All (IsBlock tx) order
    → ((i : ℕ) → IsBlock tx i → mem i order ≡ true)
    → (last : RxAmp) × (deliver tx rx order ≡ some last)
      × (rx_completed last ≡ true)
      × (rx_recvd_string last ≡ tx.xmtdata)
rx_recvd_string-deliver tx rx order size some_text small w a every =
    let n = (xmt_calc_numblocks tx).xmtnumblocks in
    let (last, e, c) =
      deliver_collects tx size small (headers_of rx) order (λ k. false) rx a (begins tx rx w) in
    let blocks = all_blocks tx (headers_of rx) _ last (every_mark tx order a every) c in
    let count : last.rx_ok_blocks ≡ n =
      c.counted ∙ ap length blocks ∙ length-chunk_map tx.xmtdata tx.xmtblocksize 0 n in
    let positive : 0 < n =
      some_block n tx.xmtblocksize (length tx.xmtdata) some_text (numblocks_enough tx size) in
    let done =
      completed last n positive count (ap (λ h. h.numblocks) c.same_headers ∙ w.same_count)
        (ap (λ h. h.crc_flags) c.same_headers ∙ w.headers_read) in
    (last, e, done, recvd last done ∙ ap join blocks ∙ join_all tx size)
