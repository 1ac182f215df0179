-- ===== src/Amp/Sending.antt =====
-- `xmt_string` of src/utils/amp.cxx: the text of a transmission, of the whole file or of the blocks
-- that `tosend` lists. `none` is the exception of `data_block`.
pub mod Fills
pub mod Whole
pub mod Answer
mod Tests
use flimg.Prelude.{ℕ, zero, suc, List, [], ◌∷◌, ◌++◌, Option, none, some}
use flimg.Prelude.{ltb, if◌then◌else◌, length, codes}
use flimg.Cstd.{ℤ, pos, negsuc, scan_int}
use flimg.Amp.{TxAmp, data_block, xmt_calc_numblocks}
use flimg.Amp.Headers.{
  file_header, id_header, size_header, desc_header, program_header, data_eof, data_eot,
}
use flimg.Amp.Reports.{is_empty, iterations, erase_digits, erase_others}

unfoldable pub with_callto : TxAmp → TxAmp
with_callto tx = record tx {
  xmtcallto = if is_empty tx.xmtcallto then codes "QST" else tx.xmtcallto;
}

unfoldable pub call_from_to : TxAmp → List ℕ
call_from_to tx = tx.xmtcallto ++ codes " DE " ++ tx.xmtcall ++ 10 ∷ 10 ∷ []

-- The three lines that are made in front of the count of the blocks and of the new hash.
unfoldable pub heading : TxAmp → List ℕ
heading tx = file_header tx ++ id_header tx ++ size_header tx

unfoldable pub repeated : ℕ → List ℕ → List ℕ
repeated zero text = []
repeated (suc n) text = text ++ repeated n text

-- The loop over `repeat_header`.
unfoldable pub header_lines : List ℕ → TxAmp → List ℕ
header_lines lines tx =
    repeated (iterations tx.repeat_header)
      (lines ++ (if is_empty tx.xmtdesc then [] else desc_header tx))

-- What comes first, and what comes behind it.
unfoldable pub and_then :
    Option (TxAmp × List ℕ) → (TxAmp → Option (TxAmp × List ℕ)) → Option (TxAmp × List ℕ)
and_then none next = none
and_then (some (tx, text)) next = elim (next tx) [
  | none ↦ none
  | some (last, more) ↦ some (last, text ++ more)
]

-- The loop over all blocks, `k` of them from index `i` on.
unfoldable pub block_loop : ℕ → ℕ → TxAmp → Option (TxAmp × List ℕ)
block_loop zero i tx = some (tx, [])
block_loop (suc k) i tx = and_then (data_block tx (suc i)) (block_loop k (suc i))

-- A number of the list: 0 asks for the headers.
unfoldable pub fill : List ℕ → TxAmp → Option ℤ → Option (TxAmp × List ℕ)
fill lines tx none = some (tx, [])
fill lines tx (some (pos zero)) = some (tx, header_lines lines tx)
fill lines tx (some (pos (suc i))) =
    if ltb tx.xmtnumblocks (suc i) then some (tx, []) else data_block tx (suc i)
fill lines tx (some (negsuc i)) = some (tx, [])

-- The loop over the list, on fuel: each turn takes at least one character off the text.
unfoldable pub fill_loop : List ℕ → ℕ → List ℕ → TxAmp → Option (TxAmp × List ℕ)
fill_loop lines zero blocks tx = some (tx, [])
fill_loop lines (suc fuel) [] tx = some (tx, [])
fill_loop lines (suc fuel) (c ∷ cs) tx =
    and_then (fill lines tx (scan_int (c ∷ cs)))
      (fill_loop lines fuel (erase_others (erase_digits (c ∷ cs))))

unfoldable pub file_lines : List ℕ → TxAmp → Option (TxAmp × List ℕ)
file_lines lines tx =
    if is_empty tx.tosend
    then and_then (some (tx, header_lines lines tx)) (block_loop tx.xmtnumblocks 0)
    else fill_loop lines (length tx.tosend) tx.tosend tx

-- The end of the text: the lines so often, and the mark of the end.
unfoldable pub closed : List ℕ → TxAmp → List ℕ → List ℕ
closed start last fstring =
    start ++ repeated (iterations last.xmt_repeat) (fstring ++ data_eof last) ++ data_eot last

-- The text that `xmt_string` returns, and the object behind it.
unfoldable pub xmt_string : List ℕ → TxAmp → Option (TxAmp × List ℕ)
xmt_string version tx =
    let from = with_callto tx in
    elim (file_lines (heading from) (xmt_calc_numblocks from)) [
      | none ↦ none
      | some (last, fstring) ↦
          some (last, closed (call_from_to from ++ program_header version from) last fstring)
    ]
