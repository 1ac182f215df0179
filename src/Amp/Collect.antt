-- ===== src/Amp/Collect.antt =====
-- What the receiving half has collected of a file, and that one more block keeps it so.
use flimg.Prelude.{
  ℕ, zero, suc, ◌^◌, ◌<◌, ◌≡◌, refl, sym, ap, ◌∙◌, arith, Bool, true, false, ◌||◌, List, [], ◌++◌,
  none, some, ◌==◌,
}
use flimg.Prelude.{length, Bool-cases, inl, inr, ==_refl}
use flimg.Cstd.{ℤ, pos, negsuc}
use flimg.IntMap.{IntMap, eqb_int, find, insert}
use flimg.IntMap.Laws.{find-insert_self, find-insert_ne, length-insert, eqb_int_sound}
use flimg.IntMap.Extensionality.{IsSorted, insert-IsSorted}
use flimg.Amp.{TxAmp, RxAmp, hash_of, block_mark, rx_add_data, xmt_calc_numblocks}
use flimg.Amp.Blocks.{hash_of-IsHash, rx_add_data-again, rx_add_data-new}
use flimg.Amp.Chunks.{chunk, answer}

-- `rx` waits for the file of `tx`: it has read the headers and no block yet.
pub record AwaitsBlocks (tx : TxAmp) (rx : RxAmp) : Type 0 where
  pub same_hash : rx.rxhash ≡ hash_of tx
  pub same_count : rx.rxnumblocks ≡ pos (xmt_calc_numblocks tx).xmtnumblocks
  pub headers_read : rx.rx_crc_flags ≡ 0
  pub no_block : rx.rxblocks ≡ []
  pub none_counted : rx.rx_ok_blocks ≡ 0

-- What the headers of a file set.
pub record HeaderFields : Type 0 where
  pub numblocks : ℤ
  pub crc_flags : ℕ
  pub filename : List ℕ
  pub dttm : List ℕ
  pub filesize : ℤ
  pub blocksize : ℤ
  pub call_info : List ℕ

abbrev pub headers_of : RxAmp → HeaderFields
headers_of rx = record {
  numblocks = rx.rxnumblocks;
  crc_flags = rx.rx_crc_flags;
  filename = rx.rxfilename;
  dttm = rx.rxdttm;
  filesize = rx.rxfilesize;
  blocksize = rx.rxblocksize;
  call_info = rx.rxcall_info;
}

-- `rx` has the blocks that `has` marks, and those only.
pub record Collected (tx : TxAmp) (headers : HeaderFields) (has : ℕ → Bool) (rx : RxAmp)
    : Type 0 where
  pub same_hash : rx.rxhash ≡ hash_of tx
  pub same_headers : headers_of rx ≡ headers
  pub sorted : IsSorted rx.rxblocks
  pub counted : rx.rx_ok_blocks ≡ length rx.rxblocks
  pub answers : (z : ℤ) → find z rx.rxblocks ≡ answer tx.xmtdata tx.xmtblocksize has z

answer_again :
    (text : List ℕ) (size j : ℕ) (has : ℕ → Bool) (z : ℤ)
    → has (suc j) ≡ true
    → answer text size has z ≡ answer text size (λ k. (k == suc j) || has k) z
unfolding answer
answer_again text size j has (pos zero) h = refl
answer_again text size j has (pos (suc i)) h = ground (arith, λ (e : i ≡ j). ap has (ap suc e))
answer_again text size j has (negsuc i) h = refl

answer_self :
    (text : List ℕ) (size j : ℕ) (has : ℕ → Bool)
    → answer text size (λ k. (k == suc j) || has k) (pos (suc j)) ≡ some (chunk text size j)
unfolding answer
answer_self text size j has = rw (==_refl (suc j)) refl

answer_other :
    (text : List ℕ) (size j : ℕ) (has : ℕ → Bool) (z : ℤ)
    → eqb_int z (pos (suc j)) ≡ false
    → answer text size has z ≡ answer text size (λ k. (k == suc j) || has k) z
unfolding answer eqb_int
answer_other text size j has (pos zero) h = refl
answer_other text size j has (pos (suc i)) h = rw h refl
answer_other text size j has (negsuc i) h = refl

answer_new :
    (text : List ℕ) (size j : ℕ) (has : ℕ → Bool) (m : IntMap) (z : ℤ)
    → find (pos (suc j)) m ≡ none
    → ((y : ℤ) → find y m ≡ answer text size has y)
    → find z (insert (pos (suc j)) (chunk text size j) m)
      ≡ answer text size (λ k. (k == suc j) || has k) z
answer_new text size j has m z new h = elim (Bool-cases (eqb_int z (pos (suc j)))) [
  | inl e ↦
      rw (eqb_int_sound z (pos (suc j)) e) (
        find-insert_self (pos (suc j)) (chunk text size j) m new
        ∙ sym (answer_self text size j has))
  | inr e ↦
      find-insert_ne z (pos (suc j)) (chunk text size j) m e
      ∙ h z
      ∙ answer_other text size j has z e
]

-- What `has` holds of the number itself.
answer_marked :
    (text : List ℕ) (size j : ℕ) (has : ℕ → Bool)
    → has (suc j) ≡ true
    → answer text size has (pos (suc j)) ≡ some (chunk text size j)
unfolding answer
answer_marked text size j has h = rw h refl

pub answer_unmarked :
    (text : List ℕ) (size j : ℕ) (has : ℕ → Bool)
    → has (suc j) ≡ false
    → answer text size has (pos (suc j)) ≡ none
unfolding answer
answer_unmarked text size j has h = rw h refl

-- One block more.
unfoldable pub IsCollectedBy :
    (tx : TxAmp) (headers : HeaderFields) (has : ℕ → Bool) (rx : RxAmp) (text : List ℕ) → Type 0
IsCollectedBy tx headers has rx text =
    (next : RxAmp) × (rx_add_data rx text ≡ some next) × Collected tx headers has next

pub collect_again :
    (tx : TxAmp) (headers : HeaderFields) (has : ℕ → Bool) (rx : RxAmp) (j : ℕ)
    → suc j < 2 ^ 31
    → has (suc j) ≡ true
    → Collected tx headers has rx
    → IsCollectedBy tx headers
        (λ k. (k == suc j) || has k)
        rx
        (block_mark (hash_of tx) (suc j) ++ chunk tx.xmtdata tx.xmtblocksize j)
unfolding IsCollectedBy
collect_again tx headers has rx j lt h c =
    let text : List ℕ = tx.xmtdata in
    let size = tx.xmtblocksize in
    let there = c.answers (pos (suc j)) ∙ answer_marked text size j has h in
    (
      rx,
      rx_add_data-again rx (hash_of tx) (suc j) _ _ lt (hash_of-IsHash tx) c.same_hash there,
      record {
        same_hash = c.same_hash;
        same_headers = c.same_headers;
        sorted = c.sorted;
        counted = c.counted;
        answers = λ z. c.answers z ∙ answer_again text size j has z h;
      },
    )

pub collect_new :
    (tx : TxAmp) (headers : HeaderFields) (has : ℕ → Bool) (rx : RxAmp) (j : ℕ)
    → suc j < 2 ^ 31
    → has (suc j) ≡ false
    → Collected tx headers has rx
    → IsCollectedBy tx headers
        (λ k. (k == suc j) || has k)
        rx
        (block_mark (hash_of tx) (suc j) ++ chunk tx.xmtdata tx.xmtblocksize j)
unfolding IsCollectedBy
collect_new tx headers has rx j lt h c =
    let text : List ℕ = tx.xmtdata in
    let size = tx.xmtblocksize in
    let new = c.answers (pos (suc j)) ∙ answer_unmarked text size j has h in
    let (headers, rcvd, e) =
      rx_add_data-new rx (hash_of tx) (suc j) (chunk text size j) lt (hash_of-IsHash tx) c.same_hash
        new in
    (
      _,
      e,
      record {
        same_hash = c.same_hash;
        same_headers = c.same_headers;
        sorted = insert-IsSorted (pos (suc j)) (chunk text size j) rx.rxblocks c.sorted;
        counted =
            omega
              (arith, c.counted, length-insert (pos (suc j)) (chunk text size j) rx.rxblocks new);
        answers = λ z. answer_new text size j has rx.rxblocks z new c.answers;
      },
    )
