-- ===== src/Amp/Headers/Reading.antt =====
-- What one header line changes at the receiving half.
use flimg.Prelude.{
  ℕ, suc, ◌≡◌, refl, sym, ap, ap₂, ◌∙◌, Bool, true, false, List, ◌∷◌, ◌++◌, some, ◌==◌,
}
use flimg.Prelude.{All, length, take, drop, take_append, drop_behind}
use flimg.Cstd.{pos, find_char}
use flimg.IntMap.{find}
use flimg.Amp.{TxAmp, RxAmp, same_text}
use flimg.Amp.Blocks.{same_text_refl, find_char_behind}
use flimg.Amp.Collect.{HeaderFields, headers_of, Collected}
use flimg.Amp.Headers.{
  braced, sz_size, clear_flag, behind_brace, hash_word, rx_parse_dttm_filename, rx_parse_hash_line,
  rx_parse_id, rx_parse_size,
}
use flimg.Amp.Headers.Words.{
  IsWord, IsSmall, scan_braced-braced, find_char-braced, drop-braced, behind_brace-braced,
  scan_sizes-braced,
}

-- A change of other fields keeps what was collected.
pub recollect :
    (tx : TxAmp) {old : HeaderFields} (headers : HeaderFields) (has : ℕ → Bool) (rx next : RxAmp)
    → Collected tx old has rx
    → headers_of next ≡ headers
    → next.rxhash ≡ rx.rxhash
    → next.rxblocks ≡ rx.rxblocks
    → next.rx_ok_blocks ≡ rx.rx_ok_blocks
    → Collected tx headers has next
recollect tx headers has rx next c same hash blocks count = record {
  same_hash = hash ∙ c.same_hash;
  same_headers = same;
  sorted = rw blocks c.sorted;
  counted = count ∙ c.counted ∙ ap length (sym blocks);
  answers = λ z. ap (find z) blocks ∙ c.answers z;
}

read_hash_line :
    (rx : RxAmp) (hash rest : List ℕ)
    → IsWord hash
    → rx.rxhash ≡ hash
    → rx_parse_hash_line rx (braced hash rest) ≡ rest
unfolding rx_parse_hash_line
read_hash_line rx hash rest w same =
    let same_word : same_text rx.rxhash hash ≡ true = rw same (same_text_refl hash) in
    rw
      (
        scan_braced-braced hash rest w,
        same_word,
        find_char-braced hash rest w.0,
        rx_parse_hash_line,
      )
      (drop-braced hash rest)

pub read_id :
    (rx : RxAmp) (hash rest : List ℕ)
    → IsWord hash
    → rx.rxhash ≡ hash
    → rx_parse_id rx (braced hash rest)
      ≡ record rx { rxcall_info = rest; rx_crc_flags = clear_flag 2 rx.rx_crc_flags }
unfolding rx_parse_id
read_id rx hash rest w same =
    ap (λ t. record rx { rxcall_info = t; rx_crc_flags = clear_flag 2 rx.rx_crc_flags })
      (read_hash_line rx hash rest w same)

pub read_size :
    (rx : RxAmp) (tx : TxAmp) (hash : List ℕ)
    → IsWord hash
    → IsSmall tx
    → rx.rxhash ≡ hash
    → rx_parse_size rx (braced hash (sz_size tx)) ≡ record rx {
      rxfilesize = pos (length tx.xmtdata);
      rxnumblocks = pos tx.xmtnumblocks;
      rxblocksize = pos tx.xmtblocksize;
      rx_crc_flags = clear_flag 4 rx.rx_crc_flags;
    }
unfolding rx_parse_size
read_size rx tx hash w small same =
    let same_word : same_text rx.rxhash hash ≡ true = rw same (same_text_refl hash) in
    rw (scan_sizes-braced hash tx w small, same_word, rx_parse_size) refl

hash_word-braced : (crc hash rest : List ℕ) → IsWord hash → hash_word crc (braced hash rest) ≡ hash
unfolding hash_word
hash_word-braced crc hash rest w = rw (scan_braced-braced hash rest w, hash_word) refl

file_fields :
    (rx : RxAmp) (crc text rest hash : List ℕ) (p : ℕ)
    → behind_brace text ≡ rest
    → find_char b':' rest ≡ some p
    → hash_word crc text ≡ hash
    → rx_parse_dttm_filename rx crc text ≡ record rx {
      rxdttm = take p rest;
      rxfilename = drop (suc p) rest;
      rxhash = hash;
      rx_crc_flags = clear_flag 1 rx.rx_crc_flags;
    }
unfolding rx_parse_dttm_filename
file_fields rx crc text rest hash p e f g =
    rw (e, f, g, rx_parse_dttm_filename)
      (ap
        (λ t. record rx {
          rxdttm = take p t;
          rxfilename = drop (suc p) t;
          rxhash = hash;
          rx_crc_flags = clear_flag 1 rx.rx_crc_flags;
        })
        e)

-- The time holds no colon, so that the first one ends it.
pub read_file :
    (rx : RxAmp) (crc hash dttm name : List ℕ)
    → IsWord hash
    → All (λ c. (c == b':') ≡ false) dttm
    → rx_parse_dttm_filename rx crc (braced hash (dttm ++ b':' ∷ name)) ≡ record rx {
      rxdttm = dttm;
      rxfilename = name;
      rxhash = hash;
      rx_crc_flags = clear_flag 1 rx.rx_crc_flags;
    }
read_file rx crc hash dttm name w plain =
    let rest : List ℕ = dttm ++ b':' ∷ name in
    file_fields rx crc (braced hash rest) rest hash (length dttm)
      (behind_brace-braced hash rest w.0) (find_char_behind b':' dttm name plain)
      (hash_word-braced crc hash rest w)
    ∙ ap₂
        (λ t u. record rx {
          rxdttm = t;
          rxfilename = u;
          rxhash = hash;
          rx_crc_flags = clear_flag 1 rx.rx_crc_flags;
        })
        (take_append dttm (b':' ∷ name)) (drop_behind dttm b':' name)
