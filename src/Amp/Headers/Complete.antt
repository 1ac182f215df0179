-- ===== src/Amp/Headers/Complete.antt =====
-- The headers and the blocks of a file complete it, in whatever order they arrive.
use flimg.Prelude.{
  ℕ, suc, ◌<◌, ◌≡◌, refl, ap, ◌∙◌, arith, Bool, true, false, ◌||◌, List, [], ◌∷◌, some,
}
use flimg.Prelude.{All, length, ◌==◌}
use flimg.Cstd.{pos}
use flimg.Crc16.{scrc16}
use flimg.IntMap.{join}
use flimg.Amp.{TxAmp, RxAmp, hash_of, rx_completed, rx_recvd_string, xmt_calc_numblocks}
use flimg.Amp.Chunks.{chunk_map, between, length-chunk_map, numblocks_enough}
use flimg.Amp.Collect.{HeaderFields, headers_of, Collected}
use flimg.Amp.Transfer.{
  IsBlock, mem, seen, every_mark, no_answer, all_blocks, join_all, some_block, completed, recvd,
}
use flimg.Amp.Headers.{clear_rx, rx_parse_line}
use flimg.Amp.Headers.Flags.{
  is_file, is_id, is_size, one_of, headers_after, flags, so_far-one_of, HasRead, reads, none_left,
}
use flimg.Amp.Headers.Session.{
  Sent, the_file, the_id, the_size, the_desc, the_program, the_eof, the_eot, the_block, line_of,
  text_of, deliver_lines, after, has_after, IsReady, IsPart, takes_line,
}

-- The blocks among the lines.
unfoldable pub blocks_of : List Sent → List ℕ
blocks_of [] = []
blocks_of (the_block i ∷ rest) = i ∷ blocks_of rest
blocks_of (the_file ∷ rest) = blocks_of rest
blocks_of (the_id ∷ rest) = blocks_of rest
blocks_of (the_size ∷ rest) = blocks_of rest
blocks_of (the_desc ∷ rest) = blocks_of rest
blocks_of (the_program ∷ rest) = blocks_of rest
blocks_of (the_eof ∷ rest) = blocks_of rest
blocks_of (the_eot ∷ rest) = blocks_of rest

unfoldable pub marks : List Sent → (ℕ → Bool) → ℕ → Bool
marks [] has = has
marks (s ∷ rest) has = marks rest (has_after s has)

module _ (version : List ℕ) (tx : TxAmp) (ready : IsReady tx) where
  deliver_lines-cons :
      (s : Sent) (rest : List Sent) (rx next : RxAmp) {text : List ℕ}
      → text_of version tx s ≡ some text
      → rx_parse_line rx (line_of s) (scrc16 text) text ≡ some next
      → deliver_lines version tx rx (s ∷ rest) ≡ deliver_lines version tx next rest
  unfolding deliver_lines
  deliver_lines-cons s rest rx next e f = rw (e, f, deliver_lines) refl

  pub takes_lines :
      (order : List Sent) (headers : HeaderFields) (has : ℕ → Bool) (rx : RxAmp)
      → All (IsPart tx) order
      → Collected tx headers has rx
      → (last : RxAmp) × (deliver_lines version tx rx order ≡ some last)
        × Collected tx (headers_after tx order headers) (marks order has) last
  unfolding deliver_lines headers_after marks
  takes_lines [] headers has rx a c = (rx, refl, c)
  takes_lines (s ∷ rest) headers has rx (p, a) c =
      let (text, next, e, f, d) = takes_line version tx ready s headers has rx p c in
      let (last, g, l) = takes_lines rest (after tx s headers) (has_after s has) next a d in
      (last, deliver_lines-cons s rest rx next e f ∙ g, l)

pub marks-blocks_of :
    (order : List Sent) (has : ℕ → Bool) → marks order has ≡ seen (blocks_of order) has
unfolding marks blocks_of seen has_after
marks-blocks_of [] has = refl
marks-blocks_of (the_file ∷ rest) has = marks-blocks_of rest has
marks-blocks_of (the_id ∷ rest) has = marks-blocks_of rest has
marks-blocks_of (the_size ∷ rest) has = marks-blocks_of rest has
marks-blocks_of (the_desc ∷ rest) has = marks-blocks_of rest has
marks-blocks_of (the_program ∷ rest) has = marks-blocks_of rest has
marks-blocks_of (the_eof ∷ rest) has = marks-blocks_of rest has
marks-blocks_of (the_eot ∷ rest) has = marks-blocks_of rest has
marks-blocks_of (the_block i ∷ rest) has = marks-blocks_of rest (λ k. (k == i) || has k)

pub blocks_of-IsBlock :
    (tx : TxAmp) (order : List Sent) → All (IsPart tx) order → All (IsBlock tx) (blocks_of order)
unfolding blocks_of
blocks_of-IsBlock tx [] a = tt
blocks_of-IsBlock tx (the_file ∷ rest) (p, a) = blocks_of-IsBlock tx rest a
blocks_of-IsBlock tx (the_id ∷ rest) (p, a) = blocks_of-IsBlock tx rest a
blocks_of-IsBlock tx (the_size ∷ rest) (p, a) = blocks_of-IsBlock tx rest a
blocks_of-IsBlock tx (the_desc ∷ rest) (p, a) = blocks_of-IsBlock tx rest a
blocks_of-IsBlock tx (the_program ∷ rest) (p, a) = blocks_of-IsBlock tx rest a
blocks_of-IsBlock tx (the_eof ∷ rest) (p, a) = blocks_of-IsBlock tx rest a
blocks_of-IsBlock tx (the_eot ∷ rest) (p, a) = blocks_of-IsBlock tx rest a
blocks_of-IsBlock tx (the_block i ∷ rest) (p, a) = (p, blocks_of-IsBlock tx rest a)

clear_rx-Collected :
    (tx : TxAmp) (rx : RxAmp)
    → rx.rxhash ≡ hash_of tx
    → Collected tx (headers_of (clear_rx rx)) (λ k. false) (clear_rx rx)
unfolding clear_rx
clear_rx-Collected tx rx same = record {
  same_hash = same;
  same_headers = refl;
  sorted = tt;
  counted = refl;
  answers = no_answer tx.xmtdata tx.xmtblocksize;
}

clear_rx-HasRead :
    (tx : TxAmp) (rx : RxAmp) → HasRead tx false false false (headers_of (clear_rx rx))
unfolding clear_rx flags
clear_rx-HasRead tx rx = record {
  left = refl;
  named = λ e. absurd (ground arith);
  dated = λ e. absurd (ground arith);
  counted = λ e. absurd (ground arith);
}

-- The receiving half has the file.
pub record IsDone (tx : TxAmp) (rx : RxAmp) : Type 0 where
  pub complete : rx_completed rx ≡ true
  pub text : rx_recvd_string rx ≡ tx.xmtdata
  pub named : rx.rxfilename ≡ tx.xmtfilename
  pub dated : rx.rxdttm ≡ tx.xmtdttm

-- With all headers read and every block there, it has.
pub all_here :
    (tx : TxAmp) (headers : HeaderFields) (has : ℕ → Bool) (rx : RxAmp)
    → IsReady tx
    → 0 < length tx.xmtdata
    → Collected tx headers has rx
    → HasRead tx true true true headers
    → ((i : ℕ) → has (suc i) ≡ between 0 (xmt_calc_numblocks tx).xmtnumblocks (suc i))
    → (rx.rxblocks ≡ chunk_map tx.xmtdata tx.xmtblocksize 0 (xmt_calc_numblocks tx).xmtnumblocks)
      × IsDone tx rx
all_here tx headers has rx ready some_text c r every =
    let n = (xmt_calc_numblocks tx).xmtnumblocks in
    let blocks = all_blocks tx headers has rx every c in
    let positive : 0 < n =
      some_block n tx.xmtblocksize (length tx.xmtdata) some_text
        (numblocks_enough tx ready.some_size) in
    let done =
      completed rx n positive
        (c.counted ∙ ap length blocks ∙ length-chunk_map tx.xmtdata tx.xmtblocksize 0 n)
        (ap (λ h. h.numblocks) c.same_headers ∙ r.counted refl ∙ ap pos ready.fresh_count)
        (ap (λ h. h.crc_flags) c.same_headers ∙ r.left ∙ none_left refl refl refl) in
    (
      blocks,
      record {
        complete = done;
        text = recvd rx done ∙ ap join blocks ∙ join_all tx ready.some_size;
        named = ap (λ h. h.filename) c.same_headers ∙ r.named refl;
        dated = ap (λ h. h.dttm) c.same_headers ∙ r.dated refl;
      },
    )

-- Every line that a transmission needs is there.
pub record IsWhole (tx : TxAmp) (order : List Sent) : Type 0 where
  pub file_sent : one_of is_file order ≡ true
  pub id_sent : one_of is_id order ≡ true
  pub size_sent : one_of is_size order ≡ true
  pub blocks_sent : (i : ℕ) → IsBlock tx i → mem i (blocks_of order) ≡ true

-- The headers of a whole transmission are all read.
pub all_read :
    (tx : TxAmp) (order : List Sent) (start : HeaderFields)
    → IsWhole tx order
    → HasRead tx false false false start
    → HasRead tx true true true (headers_after tx order start)
all_read tx order start whole r =
    let f = so_far-one_of is_file order false whole.file_sent in
    let i = so_far-one_of is_id order false whole.id_sent in
    let s = so_far-one_of is_size order false whole.size_sent in
    rw (f, i, s) at (reads tx order false false false start r)

-- Take a sending half whose file has a byte, and whose hash, block count and sizes are up to date
-- and below 2 ^ 31, with a block size above 0 and no colon in the time; and a receiving half that
-- has been cleared and told the hash. Deliver lines of the transmission in any order, any of them
-- repeatedly, with descriptions, program and control lines between them, but the file, id and size
-- headers and each block at least once. No call throws, the receiving half counts the file as
-- complete, and has the file's text, name and time.
pub deliver_lines_lem :
    (version : List ℕ) (tx : TxAmp) (rx : RxAmp) (order : List Sent)
    → IsReady tx
    → 0 < length tx.xmtdata
    → rx.rxhash ≡ hash_of tx
    → All (IsPart tx) order
    → IsWhole tx order
    → (last : RxAmp) × (deliver_lines version tx (clear_rx rx) order ≡ some last)
      × (rx_completed last ≡ true)
      × (rx_recvd_string last ≡ tx.xmtdata)
      × (last.rxfilename ≡ tx.xmtfilename)
      × (last.rxdttm ≡ tx.xmtdttm)
deliver_lines_lem version tx rx order ready some_text same a whole =
    let start = headers_of (clear_rx rx) in
    let (last, e, c) =
      takes_lines version tx ready order start (λ k. false) (clear_rx rx) a
        (clear_rx-Collected tx rx same) in
    let r = all_read tx order start whole (clear_rx-HasRead tx rx) in
    let every = every_mark tx (blocks_of order) (blocks_of-IsBlock tx order a) whole.blocks_sent in
    let (blocks, d) =
      all_here tx _ _ last ready some_text c r
        (λ k. ap (λ h. h (suc k)) (marks-blocks_of order (λ j. false)) ∙ every k) in
    (last, e, d.complete, d.text, d.named, d.dated)
