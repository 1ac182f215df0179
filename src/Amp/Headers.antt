-- ===== src/Amp/Headers.antt =====
-- The headers of a file: the header functions of src/utils/amp.cxx, and `rx_parse_line` with what
-- it calls, which reads a header or a block.
pub mod Words
pub mod Reading
pub mod Session
pub mod Flags
pub mod Complete
pub mod Samples
mod Tests
use flimg.Prelude.{ℕ, zero, suc, ◌+◌, ◌-◌, ◌^◌, Bool, not, List, [], ◌∷◌, ◌++◌, Option, none, some}
use flimg.Prelude.{bit_and, ◌==◌, if◌then◌else◌, take, drop, length, codes}
use flimg.Cstd.{ℤ, pos, negsuc, print_int, to_int, find_char, skip_spaces, take_word, scan_int_rest}
use flimg.Crc16.{scrc16}
use flimg.Amp.{TxAmp, RxAmp, same_text, frame, sz_len, rx_add_data}

-- `{hash}` and more.
unfoldable pub braced : List ℕ → List ℕ → List ℕ
braced hash rest = b'{' ∷ (hash ++ b'}' ∷ rest)

-- `sz_size`, in a buffer of 40 bytes that is told to be one shorter.
unfoldable pub sz_size : TxAmp → List ℕ
sz_size tx = take 38 (
    print_int (to_int (length tx.xmtdata))
    ++ b' ' ∷ (print_int (pos tx.xmtnumblocks) ++ b' ' ∷ print_int (pos tx.xmtblocksize)))

-- The texts of the headers, as `temp` holds them.
unfoldable pub file_text : TxAmp → List ℕ
file_text tx = braced tx.xmthash (tx.xmtdttm ++ b':' ∷ tx.xmtfilename)

unfoldable pub id_text : TxAmp → List ℕ
id_text tx = braced tx.xmthash (tx.xmtcall ++ b' ' ∷ tx.xmtinfo)

unfoldable pub desc_text : TxAmp → List ℕ
desc_text tx = braced tx.xmthash tx.xmtdesc

unfoldable pub size_text : TxAmp → List ℕ
size_text tx = braced tx.xmthash (sz_size tx)

-- `version` is the program's name and version in the config.h of the build, a space between them.
unfoldable pub program_text : List ℕ → TxAmp → List ℕ
program_text version tx = braced tx.xmthash version

unfoldable pub eof_text : TxAmp → List ℕ
eof_text tx = b'{' ∷ (tx.xmthash ++ codes ":EOF}")

unfoldable pub eot_text : TxAmp → List ℕ
eot_text tx = b'{' ∷ (tx.xmthash ++ codes ":EOT}")

unfoldable pub file_header : TxAmp → List ℕ
file_header tx = frame (codes "<FILE ") (file_text tx)

unfoldable pub id_header : TxAmp → List ℕ
id_header tx = frame (codes "<ID ") (id_text tx)

unfoldable pub desc_header : TxAmp → List ℕ
desc_header tx = frame (codes "<DESC ") (desc_text tx)

unfoldable pub size_header : TxAmp → List ℕ
size_header tx = frame (codes "<SIZE ") (size_text tx)

unfoldable pub program_header : List ℕ → TxAmp → List ℕ
program_header version tx = frame (codes "<PROG ") (program_text version tx)

unfoldable pub data_eof : TxAmp → List ℕ
data_eof tx = frame (codes "<CNTL ") (eof_text tx)

unfoldable pub data_eot : TxAmp → List ℕ
data_eot tx = frame (codes "<CNTL ") (eot_text tx)

-- `clear_rx`, which leaves the hash, the headers kept for a relay, the program's name and the
-- text of the file header.
unfoldable pub clear_rx : RxAmp → RxAmp
clear_rx rx = record rx {
  rx_raw_cntl = [];
  rx_raw_desc = [];
  rx_raw_id = [];
  rx_raw_prog = [];
  rx_raw_size = [];
  rx_crc_flags = 7;
  rxnumblocks = pos 0;
  rxblocksize = pos 0;
  rxfilesize = pos 0;
  rx_ok_blocks = 0;
  rx_rcvd = [];
  rxblocks = [];
  rxbuffer = [];
  rxcall_info = [];
  rxdesc = [];
  rxdttm = [];
  rxfilename = [];
}

-- `%4s` converts nothing without a character.
unfoldable pub some_word : List ℕ × List ℕ → Option (List ℕ × List ℕ)
some_word ([], rest) = none
some_word (w ∷ ws, rest) = some (w ∷ ws, rest)

-- `sscanf(s, "{%4s", w)`: the word and what follows it.
unfoldable pub scan_braced : List ℕ → Option (List ℕ × List ℕ)
scan_braced [] = none
scan_braced (c ∷ cs) = if c == b'{' then some_word (take_word 4 (skip_spaces cs)) else none

-- `flags &= ~flag`
unfoldable pub clear_flag : ℕ → ℕ → ℕ
clear_flag flag flags = bit_and flags (2 ^ 32 - 1 - flag)

-- `data.erase(0, data.find("}") + 1)`, which erases nothing where there is no brace.
unfoldable pub behind_brace : List ℕ → List ℕ
behind_brace text = elim (find_char b'}' text) [ none ↦ text | some p ↦ drop (suc p) text ]

-- The word that ends up in `crc`, which is the caller's buffer.
unfoldable pub hash_word : List ℕ → List ℕ → List ℕ
hash_word crc text = elim (scan_braced text) [ none ↦ crc | some (w, rest) ↦ w ]

unfoldable pub rx_parse_dttm_filename : RxAmp → List ℕ → List ℕ → RxAmp
rx_parse_dttm_filename rx crc text = elim (find_char b':' (behind_brace text)) [
  | none ↦ rx
  | some pcolon ↦ record rx {
    rxdttm = take pcolon (behind_brace text);
    rxfilename = drop (suc pcolon) (behind_brace text);
    rxhash = hash_word crc text;
    rx_crc_flags = clear_flag 1 rx.rx_crc_flags;
  }
]

unfoldable pub rx_parse_hash_line : RxAmp → List ℕ → List ℕ
rx_parse_hash_line rx text = elim (scan_braced text) [
  | none ↦ []
  | some (hashval, rest) ↦
      if not (same_text rx.rxhash hashval)
      then []
      else elim (find_char b'}' text) [ none ↦ [] | some sp ↦ drop (suc sp) text ]
]

unfoldable pub rx_parse_desc : RxAmp → List ℕ → RxAmp
rx_parse_desc rx text = record rx { rxdesc = rx_parse_hash_line rx text }

unfoldable pub rx_parse_id : RxAmp → List ℕ → RxAmp
rx_parse_id rx text = record rx {
  rxcall_info = rx_parse_hash_line rx text;
  rx_crc_flags = clear_flag 2 rx.rx_crc_flags;
}

-- `sscanf(s, "{%4s}%d %d %d", ...)`: the word and the three numbers.
unfoldable pub scan_sizes : List ℕ → Option (List ℕ × ℤ × ℤ × ℤ)
scan_sizes text = elim (scan_braced text) [
  | none ↦ none
  | some (hashval, []) ↦ none
  | some (hashval, c ∷ cs) ↦ if not (c == b'}') then none else elim (scan_int_rest cs) [
    | none ↦ none
    | some (fs, s) ↦ elim (scan_int_rest s) [
      | none ↦ none
      | some (nb, t) ↦ elim (scan_int_rest t) [
        | none ↦ none
        | some (bs, u) ↦ some (hashval, fs, nb, bs)
      ]
    ]
  ]
]

unfoldable pub rx_parse_size : RxAmp → List ℕ → RxAmp
rx_parse_size rx text = elim (scan_sizes text) [
  | none ↦ rx
  | some (hashval, fs, nb, bs) ↦ if not (same_text rx.rxhash hashval) then rx else record rx {
    rxfilesize = fs;
    rxnumblocks = nb;
    rxblocksize = bs;
    rx_crc_flags = clear_flag 4 rx.rx_crc_flags;
  }
]

pub data LineType : Type 0 where
  file_line id_line dttm_line size_line desc_line data_line prog_line cntl_line : LineType

-- The line as it was sent, put together again for a relay.
unfoldable pub raw_line : List ℕ → List ℕ → List ℕ
raw_line tag text = take 46 (tag ++ sz_len text ++ b' ' ∷ (scrc16 text ++ b'>' ∷ [])) ++ text

-- `rx_parse_line`; its result is always true.
unfoldable pub rx_parse_line : RxAmp → LineType → List ℕ → List ℕ → Option RxAmp
rx_parse_line rx file_line crc text =
    some
      (record (rx_parse_dttm_filename rx crc text) { rx_raw_file = raw_line (codes "<FILE ") text })
rx_parse_line rx desc_line crc text =
    some (record (rx_parse_desc rx text) { rx_raw_desc = raw_line (codes "<DESC ") text })
rx_parse_line rx data_line crc text = rx_add_data rx text
rx_parse_line rx size_line crc text =
    some (record (rx_parse_size rx text) { rx_raw_size = raw_line (codes "<SIZE ") text })
rx_parse_line rx prog_line crc text = some (record rx {
  rxprogname = rx_parse_hash_line rx text;
  rx_raw_prog = raw_line (codes "<PROG ") text;
})
rx_parse_line rx id_line crc text =
    some (record (rx_parse_id rx text) { rx_raw_id = raw_line (codes "<ID ") text })
rx_parse_line rx cntl_line crc text =
    some (record rx { rx_raw_cntl = raw_line (codes "<CNTL ") text })
rx_parse_line rx dttm_line crc text = some rx
