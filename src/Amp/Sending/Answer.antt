-- ===== src/Amp/Sending/Answer.antt =====
-- A report is answered: what the sending half makes of it completes the file.
use flimg.Prelude.{
  ℕ, zero, suc, ◌+◌, ◌^◌, ◌≤◌, ◌<◌, ◌≡◌, refl, sym, ap, ap₂, ◌∙◌, arith, true, false, ◌||◌, List,
  [], ◌∷◌, ◌++◌, Option, none, some, ◌==◌,
}
use flimg.Prelude.{All, All-append, length, Bool-cases, Option-cases, inl, inr, ==_iff}
use flimg.Cstd.{pos}
use flimg.IntMap.{IntMap}
use flimg.Amp.{
  TxAmp, RxAmp, block_text, rx_add_data, rx_completed, rx_recvd_string, xmt_calc_numblocks,
}
use flimg.Amp.Collect.{AwaitsBlocks, HeaderFields, headers_of, Collected, answer_unmarked}
use flimg.Amp.Transfer.{
  deliver, deliver-cons, mem, seen, IsBlock, begins, deliver_collects, seen-mem,
  rx_recvd_string-deliver,
}
use flimg.Amp.Reports.{is_missing, iterations, report_body, reformat_missing_blocks}
use flimg.Amp.Reports.Reading.{missing_from}
use flimg.Amp.Reports.Agreement.{comma_list, reformat_missing_blocks-report_body}

deliver_on : TxAmp → List ℕ → Option RxAmp → Option RxAmp
deliver_on tx ys none = none
deliver_on tx ys (some mid) = deliver tx mid ys

no_text :
    (tx : TxAmp) (rx : RxAmp) (i : ℕ) (is : List ℕ)
    → block_text tx i ≡ none
    → deliver tx rx (i ∷ is) ≡ none
unfolding deliver
no_text tx rx i is e = rw (e, deliver) refl

not_taken :
    (tx : TxAmp) (rx : RxAmp) (i : ℕ) (is : List ℕ) (text : List ℕ)
    → block_text tx i ≡ some text
    → rx_add_data rx text ≡ none
    → deliver tx rx (i ∷ is) ≡ none
unfolding deliver
not_taken tx rx i is text e f = rw (e, f, deliver) refl

deliver-append :
    (tx : TxAmp) (xs ys : List ℕ) (rx : RxAmp)
    → deliver tx rx (xs ++ ys) ≡ deliver_on tx ys (deliver tx rx xs)
unfolding deliver deliver_on
deliver-append tx [] ys rx = refl
deliver-append tx (x ∷ xs) ys rx = elim (Option-cases (block_text tx x)) [
  | inl e ↦ no_text tx rx x (xs ++ ys) e ∙ ap (deliver_on tx ys) (sym (no_text tx rx x xs e))
  | inr (text, e) ↦ elim (Option-cases (rx_add_data rx text)) [
    | inl f ↦
        not_taken tx rx x (xs ++ ys) text e f
        ∙ ap (deliver_on tx ys) (sym (not_taken tx rx x xs text e f))
    | inr (next, f) ↦
        deliver-cons tx rx next x (xs ++ ys) e f
        ∙ deliver-append tx xs ys next
        ∙ ap (deliver_on tx ys) (sym (deliver-cons tx rx next x xs e f))
  ]
]

mem-append : (k : ℕ) (xs ys : List ℕ) → mem k (xs ++ ys) ≡ (mem k xs || mem k ys)
unfolding mem
mem-append k [] ys = refl
mem-append k (x ∷ xs) ys = ground (arith, mem-append k xs ys)

mem-missing_from :
    (m : IntMap) (n i k : ℕ)
    → i ≤ k
    → k < i + n
    → is_missing m k ≡ true
    → mem k (missing_from m n i) ≡ true
unfolding mem missing_from
mem-missing_from m zero i k p q h = absurd (omega arith)
mem-missing_from m (suc n) i k p q h = elim (Bool-cases (k == i)) [
  | inl e ↦
      let here : is_missing m i ≡ true = ap (is_missing m) (sym ((==_iff k i).0 e)) ∙ h in
      rw (here, e) refl
  | inr e ↦
      let later = mem-missing_from m n (suc i) k (ground arith) (omega arith) h in
      elim (Bool-cases (is_missing m i)) [ inl f ↦ rw (f, e) later | inr f ↦ rw f later ]
]

missing_from-IsBlock :
    (tx : TxAmp) (m : IntMap) (n i : ℕ)
    → 0 < i
    → i + n ≤ suc (xmt_calc_numblocks tx).xmtnumblocks
    → All (IsBlock tx) (missing_from m n i)
unfolding missing_from
missing_from-IsBlock tx m zero i p q = tt
missing_from-IsBlock tx m (suc n) i p q =
    let rest = missing_from-IsBlock tx m n (suc i) (omega arith) (omega arith) in
    elim (Bool-cases (is_missing m i)) [ inl e ↦ rw e ((p, omega arith), rest) | inr e ↦ rw e rest ]

-- A block that was not delivered is missing.
not_delivered :
    (tx : TxAmp) (headers : HeaderFields) (first : List ℕ) (mid : RxAmp) (i : ℕ)
    → Collected tx headers (seen first (λ k. false)) mid
    → mem (suc i) first ≡ false
    → is_missing mid.rxblocks (suc i) ≡ true
not_delivered tx headers first mid i c h =
    let unseen : seen first (λ k. false) (suc i) ≡ false =
      seen-mem first (λ k. false) (suc i) ∙ ap (λ b. b || false) h in
    ap (λ o. elim o [ none ↦ true | some v ↦ false ])
      (c.answers (pos (suc i)) ∙ answer_unmarked tx.xmtdata tx.xmtblocksize i _ unseen)

-- Every block is among those delivered and those missing.
all_or_missing :
    (tx : TxAmp) (headers : HeaderFields) (first : List ℕ) (mid : RxAmp) (i : ℕ)
    → Collected tx headers (seen first (λ k. false)) mid
    → IsBlock tx i
    → mem i (first ++ missing_from mid.rxblocks (xmt_calc_numblocks tx).xmtnumblocks 1) ≡ true
all_or_missing tx headers first mid zero c (p, q) = absurd (omega arith)
all_or_missing tx headers first mid (suc i) c (p, q) =
    let n = (xmt_calc_numblocks tx).xmtnumblocks in
    mem-append (suc i) first (missing_from mid.rxblocks n 1)
    ∙ elim (Bool-cases (mem (suc i) first)) [
      | inl e ↦ ap (λ b. b || mem (suc i) (missing_from mid.rxblocks n 1)) e
      | inr e ↦
          ap₂ (λ a b. a || b) e
            (mem-missing_from mid.rxblocks n 1 (suc i) (omega arith) (omega arith)
              (not_delivered tx headers first mid i c e))
    ]

-- Take a file of at least one byte and fewer than 2 ^ 31, a block size above 0 that cuts it into
-- fewer than 10 ^ 8 blocks, and a receiving half that has read the file's headers and no block yet. Deliver some
-- blocks of the file, in any order. The sending half makes of the report of the receiving half a
-- list of blocks of the file; deliver these too, and the receiving half counts the file as
-- complete and returns it. No call throws.
pub answered_report :
    (tx : TxAmp) (rx : RxAmp) (first : List ℕ)
    → 0 < tx.xmtblocksize
    → 0 < length tx.xmtdata
    → length tx.xmtdata < 2 ^ 31
    → (xmt_calc_numblocks tx).xmtnumblocks < 10 ^ 8
    → AwaitsBlocks tx rx
    → All (IsBlock tx) first
    → (mid : RxAmp) × (ms : List ℕ) × (last : RxAmp) × (deliver tx rx first ≡ some mid)
      × (reformat_missing_blocks (report_body mid) ≡ (length ms, comma_list ms))
      × All (IsBlock tx) ms
      × (deliver tx mid ms ≡ some last)
      × (rx_completed last ≡ true)
      × (rx_recvd_string last ≡ tx.xmtdata)
unfolding deliver_on
answered_report tx rx first size some_text small few w a =
    let n = (xmt_calc_numblocks tx).xmtnumblocks in
    let (mid, e, c) =
      deliver_collects tx size small (headers_of rx) first (λ k. false) rx a (begins tx rx w) in
    let ms = missing_from mid.rxblocks n 1 in
    let counted : iterations mid.rxnumblocks ≡ n =
      ap (λ h. iterations h.numblocks) c.same_headers ∙ ap iterations w.same_count in
    let blocks = missing_from-IsBlock tx mid.rxblocks n 1 (omega arith) (omega arith) in
    let (last, f, done, text) =
      rx_recvd_string-deliver tx rx (first ++ ms) size some_text small w
        (All-append (IsBlock tx) first ms a blocks)
        (λ i. all_or_missing tx (headers_of rx) first mid i c) in
    (
      mid,
      ms,
      last,
      e,
      reformat_missing_blocks-report_body mid (omega (arith, counted))
          ∙ ap
              (λ k. (
                length (missing_from mid.rxblocks k 1),
                comma_list (missing_from mid.rxblocks k 1),
              ))
              counted,
      blocks,
      sym (deliver-append tx first ms rx ∙ ap (deliver_on tx ms) e) ∙ f,
      done,
      text,
    )
