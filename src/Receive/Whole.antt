-- ===== src/Receive/Whole.antt =====
-- A transmission from the frames to the file: `process_data_stream` completes it.
use flimg.Prelude.{
  ℕ, suc, ◌<◌, ◌≡◌, refl, sym, ap, ◌∙◌, arith, Bool, true, false, ◌||◌, List, [], ◌∷◌, ◌++◌, none,
  some, inl, inr,
}
use flimg.Prelude.{All, length, Bool-cases}
use flimg.Cstd.{ℤ, pos, negsuc}
use flimg.IntMap.{join}
use flimg.Amp.{TxAmp, RxAmp, hash_of, rx_completed, rx_recvd_string, xmt_calc_numblocks}
use flimg.Amp.Chunks.{chunk_map, between, length-chunk_map}
use flimg.Amp.Collect.{HeaderFields, headers_of, Collected}
use flimg.Amp.Transfer.{every_mark, no_answer, join_all, recvd}
use flimg.Amp.Headers.Flags.{
  is_file, is_id, is_size, one_of, headers_after, flags, so_far, so_far-one_of, HasRead, reads_one,
  reads,
}
use flimg.Amp.Headers.Session.{Sent, line_of, after, has_after, IsReady, IsPart, takes_line}
use flimg.Amp.Headers.Complete.{IsDone, all_here, IsWhole, marks, takes_lines}
use flimg.Receive.{ltypes, new_amp, existing}
use flimg.Receive.Layout.{passed_frame}
use flimg.Receive.Places.{fresh, first_frame}
use flimg.Receive.Streams.{deliver_frames, IsFramedPart, scans_hash}
use flimg.Amp.Headers.Complete.{blocks_of, marks-blocks_of, blocks_of-IsBlock}
use flimg.Receive.Steps.{reads_part, deliver_frames-cons, stays, IsMore, deliver_lines-IsMore}

complete_count :
    (rx : RxAmp) (z : ℤ)
    → rx.rxnumblocks ≡ z
    → rx_completed rx ≡ true
    → (z ≡ pos rx.rx_ok_blocks) × (rx.rx_crc_flags ≡ 0)
unfolding rx_completed
complete_count rx (pos n) e h = let k = rw (e, rx_completed) at h in ground arith
complete_count rx (negsuc n) e h = let k = rw (e, rx_completed) at h in absurd (ground arith)

no_flags :
    (file id size : Bool) → flags file id size ≡ 0 → (file ≡ true) × (id ≡ true) × (size ≡ true)
unfolding flags
no_flags true true true h = (refl, refl, refl)
no_flags false i s h = absurd (ground arith)
no_flags true false s h = absurd (ground arith)
no_flags true true false h = absurd (ground arith)

-- With the lines of `order`, all headers and blocks will have been sent.
record IsFinal (tx : TxAmp) (order : List Sent) (file id size : Bool) (has : ℕ → Bool)
    : Type 0 where
  file_sent : so_far is_file order file ≡ true
  id_sent : so_far is_id order id ≡ true
  size_sent : so_far is_size order size ≡ true
  every : (i : ℕ) → marks order has (suc i) ≡ between 0 (xmt_calc_numblocks tx).xmtnumblocks (suc i)

module _ (version : List ℕ) (tx : TxAmp) (ready : IsReady tx)
    (some_text : 0 < length tx.xmtdata) where
  last_read :
      (order : List Sent) (file id size : Bool) (headers : HeaderFields) (has : ℕ → Bool)
      → IsFinal tx order file id size has
      → HasRead tx file id size headers
      → HasRead tx true true true (headers_after tx order headers)
  last_read order file id size headers has final r =
      rw (final.file_sent, final.id_sent, final.size_sent) at
        (reads tx order file id size headers r)

  -- An amp that counts itself complete has the whole file, also before the transmission ends.
  early :
      (order : List Sent) (file id size : Bool) (headers : HeaderFields) (has : ℕ → Bool)
      (rx : RxAmp)
      → All (IsPart tx) order
      → IsFinal tx order file id size has
      → Collected tx headers has rx
      → HasRead tx file id size headers
      → rx_completed rx ≡ true
      → IsDone tx rx
  unfolding IsMore
  early order file id size headers has rx a final c r done =
      let n = (xmt_calc_numblocks tx).xmtnumblocks in
      let (last, e, d) = takes_lines version tx ready order headers has rx a c in
      let (blocks, whole) =
        all_here tx _ _ last ready some_text d (last_read order file id size headers has final r)
          final.every in
      let (count, none_missing) = complete_count rx rx.rxnumblocks refl done in
      let (f, i, s) =
        no_flags file id size
          (sym r.left ∙ sym (ap (λ h. h.crc_flags) c.same_headers) ∙ none_missing) in
      let told : rx.rxnumblocks ≡ pos n =
        ap (λ h. h.numblocks) c.same_headers ∙ r.counted s ∙ ap pos ready.fresh_count in
      let all : rx.rx_ok_blocks ≡ n = cc (sym count ∙ told) in
      let reached : last.rx_ok_blocks ≡ n =
        d.counted ∙ ap length blocks ∙ length-chunk_map tx.xmtdata tx.xmtblocksize 0 n in
      let same : rx.rxblocks ≡ chunk_map tx.xmtdata tx.xmtblocksize 0 n =
        elim (deliver_lines-IsMore version tx order rx last e) [
          | inl (b, k) ↦ sym b ∙ blocks
          | inr more ↦ absurd (omega arith)
        ] in
      record {
        complete = done;
        text = recvd rx done ∙ ap join same ∙ join_all tx ready.some_size;
        named = ap (λ h. h.filename) c.same_headers ∙ r.named f;
        dated = ap (λ h. h.dttm) c.same_headers ∙ r.dated f;
      }

  module _ (amps : List RxAmp) (absent : existing (hash_of tx) amps ≡ none) where
    delivers :
        (order : List Sent) (file id size : Bool) (headers : HeaderFields) (has : ℕ → Bool)
        (rx : RxAmp)
        → All (IsPart tx) order
        → All (IsFramedPart version tx) order
        → IsFinal tx order file id size has
        → Collected tx headers has rx
        → HasRead tx file id size headers
        → rx.rxbuffer ≡ []
        → (last : RxAmp) × (deliver_frames version tx (amps ++ rx ∷ []) order
            ≡ some (amps ++ last ∷ []))
          × IsDone tx last
    unfolding deliver_frames so_far headers_after marks
    delivers [] file id size headers has rx a b final c r empty =
        let (blocks, done) =
          all_here tx headers has rx ready some_text c
            (last_read [] file id size headers has final r) final.every in
        (rx, refl, done)
    delivers (s ∷ rest) file id size headers has rx (p, a) (q, b) final c r empty =
        elim (Bool-cases (rx_completed rx)) [
          | inl done ↦ (
            rx,
            stays version tx ready amps absent (s ∷ rest) headers has rx (p, a) c done,
            early (s ∷ rest) file id size headers has rx (p, a) final c r done,
          )
          | inr open_ ↦
              let (text, next, e, f, d, left) =
                reads_part version tx ready amps absent s headers has rx p q c empty open_ in
              let after_one : IsFinal tx rest (is_file s || file) (is_id s || id)
                  (is_size s || size) (has_after s has) =
                record {
                  file_sent = final.file_sent;
                  id_sent = final.id_sent;
                  size_sent = final.size_sent;
                  every = final.every;
                } in
              let (last, g, w) =
                delivers rest (is_file s || file) (is_id s || id) (is_size s || size)
                  (after tx s headers) (has_after s has) next a b after_one d
                  (reads_one tx s file id size headers r) left in
              (
                last,
                deliver_frames-cons version tx ready amps absent s rest (amps ++ rx ∷ [])
                      (amps ++ next ∷ []) text e f
                    ∙ g,
                w,
              )
        ]

fresh-Collected :
    (tx : TxAmp) → Collected tx (headers_of (fresh (hash_of tx))) (λ k. false) (fresh (hash_of tx))
unfolding fresh new_amp
fresh-Collected tx = record {
  same_hash = refl;
  same_headers = refl;
  sorted = tt;
  counted = refl;
  answers = no_answer tx.xmtdata tx.xmtblocksize;
}

fresh-HasRead : (tx : TxAmp) → HasRead tx false false false (headers_of (fresh (hash_of tx)))
unfolding fresh new_amp flags
fresh-HasRead tx = record {
  left = refl;
  named = λ e. absurd (ground arith);
  dated = λ e. absurd (ground arith);
  counted = λ e. absurd (ground arith);
}

whole-IsFinal :
    (tx : TxAmp) (order : List Sent)
    → All (IsPart tx) order
    → IsWhole tx order
    → IsFinal tx order false false false (λ k. false)
whole-IsFinal tx order a whole = record {
  file_sent = so_far-one_of is_file order false whole.file_sent;
  id_sent = so_far-one_of is_id order false whole.id_sent;
  size_sent = so_far-one_of is_size order false whole.size_sent;
  every = λ i.
      ap (λ h. h (suc i)) (marks-blocks_of order (λ j. false))
      ∙ every_mark tx (blocks_of order) (blocks_of-IsBlock tx order a) whole.blocks_sent i;
}

-- The first frame makes the amp.
starts :
    (version : List ℕ) (tx : TxAmp) (amps : List RxAmp) (s : Sent) (rest : List Sent)
    → IsReady tx
    → existing (hash_of tx) amps ≡ none
    → IsPart tx s
    → deliver_frames version tx amps (s ∷ rest)
      ≡ deliver_frames version tx (amps ++ fresh (hash_of tx) ∷ []) (s ∷ rest)
unfolding deliver_frames
starts version tx amps s rest ready absent p =
    let (text, next, e, f, d) =
      takes_line version tx ready s _ (λ k. false) (fresh (hash_of tx)) p (fresh-Collected tx) in
    let first =
      first_frame (hash_of tx) (passed_frame (ltypes (line_of s)) text) amps
        (scans_hash version tx ready s text e) absent in
    rw (e, deliver_frames) (rw first refl)

-- Take a sending half whose file has a byte, and whose hash, block count and sizes are up to date
-- and below 2 ^ 31, with a block size above 0 and no colon in the time; and a list of amps of which
-- none has the hash. Pass frames of the transmission to `process_data_stream`, in any order, any of
-- them repeatedly, with descriptions, program and control lines between them, but the file, id and
-- size headers and each block at least once. Each text has 5 to 2054 bytes and holds no tag that
-- `rx_parse_buffer` looks for before its own. Then no call throws, the other amps are as they were,
-- and behind them there is one new amp, which is complete and has the file's text, name and time.
pub deliver_frames_lem :
    (version : List ℕ) (tx : TxAmp) (amps : List RxAmp) (order : List Sent)
    → IsReady tx
    → 0 < length tx.xmtdata
    → existing (hash_of tx) amps ≡ none
    → All (IsPart tx) order
    → All (IsFramedPart version tx) order
    → IsWhole tx order
    → (last : RxAmp) × (deliver_frames version tx amps order ≡ some (amps ++ last ∷ []))
      × (rx_completed last ≡ true)
      × (rx_recvd_string last ≡ tx.xmtdata)
      × (last.rxfilename ≡ tx.xmtfilename)
      × (last.rxdttm ≡ tx.xmtdttm)
unfolding fresh new_amp
deliver_frames_lem version tx amps [] ready some_text absent a b whole =
    absurd (unfold one_of in cc whole.file_sent)
deliver_frames_lem version tx amps (s ∷ rest) ready some_text absent (p, a) (q, b) whole =
    let (last, e, d) =
      delivers version tx ready some_text amps absent (s ∷ rest) false false false
        (headers_of (fresh (hash_of tx))) (λ k. false) (fresh (hash_of tx)) (p, a) (q, b)
        (whole-IsFinal tx (s ∷ rest) (p, a) whole) (fresh-Collected tx) (fresh-HasRead tx) refl in
    (last, starts version tx amps s rest ready absent p ∙ e, d.complete, d.text, d.named, d.dated)
