-- ===== src/Amp.antt =====
-- Class `cAmp` of src/include/amp.h and src/utils/amp.cxx: one transfer of a file. The sending half
-- cuts `xmtdata` into numbered blocks under a hash of the file's name and format; the receiving
-- half collects the blocks that carry the hash it waits for.
--
-- The two halves of the object share no field, so each is a record. `none` is the exception
-- `std::out_of_range` that `substr` throws behind a text's end. The mutex has no part in the
-- functions here, which run under it or are called by one thread.
pub mod Blocks
pub mod Chunks
pub mod Collect
pub mod Transfer
pub mod Headers
pub mod Reports
pub mod Incoming
pub mod Sending
mod Samples
mod Tests
use flimg.Prelude.{ℕ, zero, suc, ◌+◌, ◌-◌, ◌*◌, ◌/◌, ◌%◌, ◌^◌, Bool, ◌&&◌, ◌||◌, not, List, [], ◌∷◌}
use flimg.Prelude.{
  ◌++◌, Option, none, some, ltb, leb, ◌==◌, if◌then◌else◌, take, drop, length, codes,
}
use flimg.Cstd.{ℤ, pos, negsuc, print_int, print_nat, scan_int, to_int, find_char}
use flimg.Crc16.{scrc16}
use flimg.IntMap.{IntMap, find, insert, join}

-- `s.substr(at, count)`
unfoldable pub substr : List ℕ → ℕ → ℕ → Option (List ℕ)
substr s at count = if leb at (length s) then some (take count (drop at s)) else none

-- `==` of two strings.
unfoldable pub same_text : List ℕ → List ℕ → Bool
same_text [] [] = Bool.true
same_text [] (y ∷ ys) = Bool.false
same_text (x ∷ xs) [] = Bool.false
same_text (x ∷ xs) (y ∷ ys) = (x == y) && same_text xs ys

-- The sending half.
pub record TxAmp : Type 0 where
  pub xmtdata : List ℕ
  pub xmtdttm : List ℕ
  pub xmtfilename : List ℕ
  pub xmtbase : List ℕ
  pub xmthash : List ℕ
  pub use_compression : Bool
  pub use_forced_compression : Bool
  pub xmtblocksize : ℕ
  pub xmtnumblocks : ℕ
  pub xmtcall : List ℕ
  pub xmtcallto : List ℕ
  pub xmtinfo : List ℕ
  pub xmtdesc : List ℕ
  pub tosend : List ℕ
  pub repeat_header : ℤ
  pub xmt_repeat : ℤ

-- `sz_len`
abbrev pub sz_len : List ℕ → List ℕ
sz_len text = print_int (to_int (length text))

-- The value that `_file_hash` returns.
unfoldable pub hash_of : TxAmp → List ℕ
hash_of tx =
    let compressed = tx.use_compression || tx.use_forced_compression in
    scrc16 (
      (tx.xmtdttm ++ b':' ∷ tx.xmtfilename)
      ++ (if compressed then b'1' else b'0')
        ∷ (tx.xmtbase ++ take 30 (print_int (pos tx.xmtblocksize))))

-- `_file_hash`: the hash, kept in `xmthash`.
unfoldable pub file_hash : TxAmp → TxAmp
file_hash tx = record tx { xmthash = hash_of tx }

-- A tag, the length and the CRC of the text behind it: what each header function returns.
unfoldable pub frame : List ℕ → List ℕ → List ℕ
frame ltype temp = ltype ++ sz_len temp ++ b' ' ∷ (scrc16 temp ++ b'>' ∷ (temp ++ 10 ∷ []))

-- The `{hash:index}` text of a block.
unfoldable pub block_mark : List ℕ → ℕ → List ℕ
block_mark hash index = take 46 (b'{' ∷ (hash ++ b':' ∷ (print_int (pos index) ++ b'}' ∷ [])))

-- The text of `data_block` between its header and its line feed. `(index - 1) * xmtblocksize` is a
-- product of `int`s: a position that exceeds one is undefined in C, and has no text here. The
-- position of block 0 is 0 with a block size of 0, and otherwise wraps around to one behind every
-- text. A block number is not negative.
unfoldable pub block_text : TxAmp → ℕ → Option (List ℕ)
block_text tx zero = if tx.xmtblocksize == 0 then some (block_mark (hash_of tx) 0) else none
block_text tx (suc before) =
    if leb (2 ^ 31) (before * tx.xmtblocksize)
    then none
    else elim (substr tx.xmtdata (before * tx.xmtblocksize) tx.xmtblocksize) [
      | none ↦ none
      | some text ↦ some (block_mark (hash_of tx) (suc before) ++ text)
    ]

unfoldable pub data_block : TxAmp → ℕ → Option (TxAmp × List ℕ)
data_block tx index = elim (block_text tx index) [
  | none ↦ none
  | some temp ↦ some (file_hash tx, frame (codes "<DATA ") temp)
]

-- `xmt_calc_numblocks`; a block size of 0 is undefined in C. The number is kept in an `int`: it is
-- this one of a text below 2 ^ 31 bytes, which the theorems ask for.
unfoldable pub xmt_calc_numblocks : TxAmp → TxAmp
xmt_calc_numblocks tx =
    let size = tx.xmtblocksize in
    let whole = length tx.xmtdata / size in
    let left = length tx.xmtdata % size in
    record tx { xmtnumblocks = whole + (if left == 0 then 0 else 1) }

-- The receiving half.
pub record RxAmp : Type 0 where
  pub rxhash : List ℕ
  pub rxnumblocks : ℤ
  pub rx_ok_blocks : ℕ
  pub rx_crc_flags : ℕ
  pub rxblocks : IntMap
  pub rx_data_header : IntMap
  pub rx_rcvd : List ℕ
  pub rxdttm : List ℕ
  pub rxfilename : List ℕ
  pub rxdesc : List ℕ
  pub rxcall_info : List ℕ
  pub rxprogname : List ℕ
  pub rxfilesize : ℤ
  pub rxblocksize : ℤ
  pub rx_raw_file : List ℕ
  pub rx_raw_id : List ℕ
  pub rx_raw_size : List ℕ
  pub rx_raw_desc : List ℕ
  pub rx_raw_prog : List ℕ
  pub rx_raw_cntl : List ℕ
  pub rxbuffer : List ℕ

-- The entry of `rx_data_header`: the header as it was sent, for a relay.
unfoldable pub relay_header : List ℕ → ℕ → List ℕ
relay_header text close =
    take 46 (codes "<DATA " ++ sz_len text ++ b' ' ∷ (scrc16 text ++ b'>' ∷ take (close + 1) text))

-- The part of `rx_add_data` behind the search for the block number.
unfoldable pub keep_block : RxAmp → List ℕ → ℤ → ℕ → RxAmp
keep_block rx text blknbr close = record rx {
  rxblocks = insert blknbr (drop (close + 1) text) rx.rxblocks;
  rx_data_header = insert blknbr (relay_header text close) rx.rx_data_header;
  rx_rcvd = rx.rx_rcvd ++ print_int blknbr ++ b' ' ∷ [];
  rx_ok_blocks = rx.rx_ok_blocks + 1;
}

-- The part behind the conversion of the block number.
unfoldable pub add_numbered : RxAmp → List ℕ → ℤ → RxAmp
add_numbered rx text blknbr = elim (find blknbr rx.rxblocks) [
  | some old ↦ rx
  | none ↦ elim (find_char b'}' text) [ none ↦ rx | some close ↦ keep_block rx text blknbr close ]
]

-- `rx_add_data`
unfoldable pub rx_add_data : RxAmp → List ℕ → Option RxAmp
rx_add_data rx text = elim (substr text 1 4) [
  | none ↦ none
  | some hash ↦
      if not (same_text rx.rxhash hash) then some rx else elim (substr text 6 (length text)) [
        | none ↦ none
        | some number ↦ elim (scan_int number) [
          | none ↦ some rx
          | some blknbr ↦ some (add_numbered rx text blknbr)
        ]
      ]
]

-- `rx_completed`
unfoldable pub rx_completed : RxAmp → Bool
rx_completed rx = ltb 0 rx.rx_ok_blocks && elim rx.rxnumblocks [
  | pos n ↦ (rx.rx_ok_blocks == n) && (rx.rx_crc_flags == 0)
  | negsuc n ↦ Bool.false
]

-- The text that `rx_recvd_string` returns.
unfoldable pub rx_recvd_string : RxAmp → List ℕ
rx_recvd_string rx = if rx_completed rx then join rx.rxblocks else []
