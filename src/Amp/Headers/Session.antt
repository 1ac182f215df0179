-- ===== src/Amp/Headers/Session.antt =====
-- A whole transfer: the headers and the blocks of a file in any order, from `clear_rx` on.
use flimg.Prelude.{
  ℕ, zero, suc, ◌^◌, ◌≤◌, ◌<◌, ◌≡◌, refl, sym, ap, ◌∙◌, arith, Bool, false, ◌||◌, List, [], ◌∷◌,
  ◌++◌, Option, none, some, ◌==◌,
}
use flimg.Prelude.{All, length}
use flimg.Cstd.{pos}
use flimg.Crc16.{scrc16}
use flimg.Amp.{TxAmp, RxAmp, hash_of, block_text, xmt_calc_numblocks}
use flimg.Amp.Collect.{HeaderFields, headers_of, Collected, IsCollectedBy}
use flimg.Amp.Transfer.{IsBlock, collect_one, block_text_lem}
use flimg.Amp.Headers.{
  LineType, file_line, id_line, size_line, desc_line, data_line, prog_line, cntl_line, file_text,
  id_text, desc_text, size_text, program_text, eof_text, eot_text, clear_flag, rx_parse_line,
  rx_parse_desc, rx_parse_id, rx_parse_size, rx_parse_dttm_filename,
}
use flimg.Amp.Headers.Words.{IsWord, IsSmall, hash_of-IsWord}
use flimg.Amp.Headers.Reading.{recollect, read_id, read_size, read_file}

-- What a transmission sends.
pub data Sent : Type 0 where
  the_file the_id the_size the_desc the_program the_eof the_eot : Sent
  the_block : ℕ → Sent

unfoldable pub line_of : Sent → LineType
line_of the_file = file_line
line_of the_id = id_line
line_of the_size = size_line
line_of the_desc = desc_line
line_of the_program = prog_line
line_of the_eof = cntl_line
line_of the_eot = cntl_line
line_of (the_block i) = data_line

unfoldable pub text_of : List ℕ → TxAmp → Sent → Option (List ℕ)
text_of version tx the_file = some (file_text tx)
text_of version tx the_id = some (id_text tx)
text_of version tx the_size = some (size_text tx)
text_of version tx the_desc = some (desc_text tx)
text_of version tx the_program = some (program_text version tx)
text_of version tx the_eof = some (eof_text tx)
text_of version tx the_eot = some (eot_text tx)
text_of version tx (the_block i) = block_text tx i

-- Lines go from `tx` to `rx`, in this order.
unfoldable pub deliver_lines : List ℕ → TxAmp → RxAmp → List Sent → Option RxAmp
deliver_lines version tx rx [] = some rx
deliver_lines version tx rx (s ∷ rest) = elim (text_of version tx s) [
  | none ↦ none
  | some text ↦ elim (rx_parse_line rx (line_of s) (scrc16 text) text) [
    | none ↦ none
    | some next ↦ deliver_lines version tx next rest
  ]
]

-- What a line changes in the headers, and in the blocks.
unfoldable pub after : TxAmp → Sent → HeaderFields → HeaderFields
after tx the_file h = record h {
  crc_flags = clear_flag 1 h.crc_flags;
  filename = tx.xmtfilename;
  dttm = tx.xmtdttm;
}
after tx the_id h = record h {
  crc_flags = clear_flag 2 h.crc_flags;
  call_info = tx.xmtcall ++ b' ' ∷ tx.xmtinfo;
}
after tx the_size h = record h {
  numblocks = pos tx.xmtnumblocks;
  crc_flags = clear_flag 4 h.crc_flags;
  filesize = pos (length tx.xmtdata);
  blocksize = pos tx.xmtblocksize;
}
after tx the_desc h = h
after tx the_program h = h
after tx the_eof h = h
after tx the_eot h = h
after tx (the_block i) h = h

unfoldable pub has_after : Sent → (ℕ → Bool) → ℕ → Bool
has_after the_file has = has
has_after the_id has = has
has_after the_size has = has
has_after the_desc has = has
has_after the_program has = has
has_after the_eof has = has
has_after the_eot has = has
has_after (the_block i) has = λ k. (k == i) || has k

-- A transmission of `tx`: its hash and block count are up to date, and its time holds no colon.
pub record IsReady (tx : TxAmp) : Type 0 where
  pub fresh_hash : tx.xmthash ≡ hash_of tx
  pub fresh_count : tx.xmtnumblocks ≡ (xmt_calc_numblocks tx).xmtnumblocks
  pub some_size : 0 < tx.xmtblocksize
  pub small : IsSmall tx
  pub plain_time : All (λ c. (c == b':') ≡ false) tx.xmtdttm

abbrev pub IsPart : TxAmp → Sent → Type 0
IsPart tx (the_block i) = IsBlock tx i
IsPart tx the_file = 0 ≤ 0
IsPart tx the_id = 0 ≤ 0
IsPart tx the_size = 0 ≤ 0
IsPart tx the_desc = 0 ≤ 0
IsPart tx the_program = 0 ≤ 0
IsPart tx the_eof = 0 ≤ 0
IsPart tx the_eot = 0 ≤ 0

-- One line more.
abbrev pub IsTaken : List ℕ → TxAmp → HeaderFields → (ℕ → Bool) → RxAmp → Sent → Type 0
IsTaken version tx headers has rx s =
    (text : List ℕ) × (next : RxAmp) × (text_of version tx s ≡ some text)
    × (rx_parse_line rx (line_of s) (scrc16 text) text ≡ some next)
    × Collected tx (after tx s headers) (has_after s has) next

-- A line that changes no field of the headers.
pub same_fields :
    (tx : TxAmp) {has : ℕ → Bool} {headers : HeaderFields} (rx next : RxAmp)
    → Collected tx headers has rx
    → headers_of next ≡ headers_of rx
    → next.rxhash ≡ rx.rxhash
    → next.rxblocks ≡ rx.rxblocks
    → next.rx_ok_blocks ≡ rx.rx_ok_blocks
    → Collected tx headers has next
same_fields tx rx next c same = recollect tx _ _ rx next c (same ∙ c.same_headers)

module _ (version : List ℕ) (tx : TxAmp) (ready : IsReady tx) where
  few_bytes : length tx.xmtdata < 2 ^ 31
  few_bytes = let (a, b, c) = ready.small in omega arith

  hash_IsWord : IsWord tx.xmthash
  hash_IsWord = rw ready.fresh_hash (hash_of-IsWord tx)

  takes_file :
      (headers : HeaderFields) (has : ℕ → Bool) (rx : RxAmp)
      → Collected tx headers has rx
      → IsTaken version tx headers has rx the_file
  unfolding text_of line_of rx_parse_line after has_after file_text
  takes_file headers has rx c =
      let crc = scrc16 (file_text tx) in
      let same =
        read_file rx crc tx.xmthash tx.xmtdttm tx.xmtfilename hash_IsWord ready.plain_time in
      let parsed : RxAmp = rx_parse_dttm_filename rx crc (file_text tx) in
      let taken : Collected tx (after tx the_file headers) has parsed = rw same (
        recollect tx _ has rx _ c (ap (after tx the_file) c.same_headers)
          (ready.fresh_hash ∙ sym c.same_hash) refl refl) in
      (file_text tx, _, refl, refl, same_fields tx parsed _ taken refl refl refl refl)

  takes_id :
      (headers : HeaderFields) (has : ℕ → Bool) (rx : RxAmp)
      → Collected tx headers has rx
      → IsTaken version tx headers has rx the_id
  unfolding text_of line_of rx_parse_line after has_after id_text
  takes_id headers has rx c =
      let same =
        read_id rx tx.xmthash (tx.xmtcall ++ b' ' ∷ tx.xmtinfo) hash_IsWord
          (c.same_hash ∙ sym ready.fresh_hash) in
      let parsed : RxAmp = rx_parse_id rx (id_text tx) in
      let taken : Collected tx (after tx the_id headers) has parsed =
        rw same (recollect tx _ has rx _ c (ap (after tx the_id) c.same_headers) refl refl refl) in
      (id_text tx, _, refl, refl, same_fields tx parsed _ taken refl refl refl refl)

  takes_size :
      (headers : HeaderFields) (has : ℕ → Bool) (rx : RxAmp)
      → Collected tx headers has rx
      → IsTaken version tx headers has rx the_size
  unfolding text_of line_of rx_parse_line after has_after size_text
  takes_size headers has rx c =
      let same =
        read_size rx tx tx.xmthash hash_IsWord ready.small (c.same_hash ∙ sym ready.fresh_hash) in
      let parsed : RxAmp = rx_parse_size rx (size_text tx) in
      let taken : Collected tx (after tx the_size headers) has parsed =
        rw same
          (recollect tx _ has rx _ c (ap (after tx the_size) c.same_headers) refl refl refl) in
      (size_text tx, _, refl, refl, same_fields tx parsed _ taken refl refl refl refl)

  pub takes_line :
      (s : Sent) (headers : HeaderFields) (has : ℕ → Bool) (rx : RxAmp)
      → IsPart tx s
      → Collected tx headers has rx
      → IsTaken version tx headers has rx s
  unfolding text_of line_of rx_parse_line after has_after rx_parse_desc IsCollectedBy
  takes_line the_file headers has rx part c = takes_file headers has rx c
  takes_line the_id headers has rx part c = takes_id headers has rx c
  takes_line the_size headers has rx part c = takes_size headers has rx c
  takes_line the_desc headers has rx part c =
      (_, _, refl, refl, same_fields tx rx _ c refl refl refl refl)
  takes_line the_program headers has rx part c =
      (_, _, refl, refl, same_fields tx rx _ c refl refl refl refl)
  takes_line the_eof headers has rx part c =
      (_, _, refl, refl, same_fields tx rx _ c refl refl refl refl)
  takes_line the_eot headers has rx part c =
      (_, _, refl, refl, same_fields tx rx _ c refl refl refl refl)
  takes_line (the_block zero) headers has rx part c = absurd (omega (arith, part.0))
  takes_line (the_block (suc j)) headers has rx part c =
      let lt = below part.1 in
      let (next, e, d) = collect_one tx ready.some_size few_bytes headers has rx j lt c in
      (_, next, block_text_lem tx j ready.some_size few_bytes lt, e, d)
    where
      below : {n : ℕ} → suc j ≤ n → j < n
      below h = omega arith
