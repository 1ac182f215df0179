-- ===== src/Amp/Incoming.antt =====
-- `tx_parse_report` of src/utils/amp.cxx: the reports in `report_buffer` become the list of blocks
-- to send. `none` is the exception of `substr`.
pub mod Text
pub mod Report
pub mod Single
pub mod Numbers
pub mod Kinds
pub mod Agreement
mod Tests
use flimg.Prelude.{
  ℕ, zero, suc, ◌+◌, ◌-◌, Bool, true, false, not, ◌&&◌, List, [], ◌∷◌, ◌++◌, Option, none, some,
}
use flimg.Prelude.{leb, ◌==◌, if◌then◌else◌, take, drop, length, codes}
use flimg.Cstd.{
  ℤ, pos, negsuc, c_str, find_char, find_text, found_behind, skip_spaces, take_word, scan_int_rest,
}
use flimg.Crc16.{scrc16}
use flimg.Amp.{TxAmp, substr, same_text}
use flimg.Amp.Headers.{some_word}
use flimg.Amp.Reports.{reformat_missing_blocks}

abbrev pub sz_missing : List ℕ
sz_missing = codes "<MISSING "

abbrev pub sz_preamble : List ℕ
sz_preamble = codes "PREAMBLE"

-- What the loop changes besides the buffer.
pub record Taken : Type 0 where
  pub tosend : List ℕ
  pub preamble_block : List ℕ
  pub preamble_detected_flag : Bool

-- `sscanf(s, "<MISSING %d %4s>", &len, crc)` of a text that begins with the tag.
unfoldable pub scan_missing : List ℕ → Option (ℤ × List ℕ)
scan_missing text = elim (scan_int_rest (drop 9 text)) [
  | none ↦ none
  | some (len, s) ↦ elim (some_word (take_word 4 (skip_spaces s))) [
    | none ↦ none
    | some (crc, rest) ↦ some (len, crc)
  ]
]

-- `length() >= p1 + 1 + len`, a sum without sign, and `substr(p1 + 1, len)`.
unfoldable pub fits : ℕ → ℤ → ℕ → Bool
fits p1 (pos len) total = leb (p1 + 1 + len) total
fits p1 (negsuc n) total = leb (n + 1) (p1 + 1) && leb (p1 - n) total

unfoldable pub report_data : ℕ → ℤ → List ℕ → List ℕ
report_data p1 (pos len) text = take len (drop (p1 + 1) text)
report_data p1 (negsuc n) text = drop (p1 + 1) text

-- The two branches behind the checks.
unfoldable pub take_numbers : Taken → List ℕ → Option Taken
take_numbers st report = elim (find_text sz_preamble report) [
  | some p ↦ some (record st { preamble_block = codes " 0"; preamble_detected_flag = true })
  | none ↦ elim (substr report 6 (length report)) [
    | none ↦ none
    | some blocks ↦ some (record st { tosend = st.tosend ++ b' ' ∷ blocks })
  ]
]

unfoldable pub take_report : List ℕ → Taken → List ℕ → List ℕ → Option Taken
take_report xmthash st report crc = elim (substr report 1 4) [
  | none ↦ none
  | some hash ↦
      if not (same_text xmthash hash)
      then some st
      else if not (same_text crc (scrc16 (c_str report)))
      then some st
      else take_numbers st report
]

-- The body of the loop, for a buffer that begins with the tag.
unfoldable pub read_report : List ℕ → Taken → List ℕ → Option Taken
read_report xmthash st text = elim (scan_missing text) [
  | none ↦ some st
  | some (len, crc) ↦ elim (found_behind 9 (find_char b'>' (drop 9 text))) [
    | none ↦ some st
    | some p1 ↦
        if not (fits p1 len (length text))
        then some st
        else take_report xmthash st (report_data p1 len text) crc
  ]
]

-- The loop, from a tag at `p`: what it takes, and the buffer that is left. It goes on to look from
-- `p + 2` in the shortened buffer. Each turn takes at least two bytes off what is left to look at,
-- so that the length of the buffer is enough fuel.
unfoldable pub report_loop : List ℕ → ℕ → ℕ → List ℕ → Taken → Option (Taken × List ℕ)
report_loop xmthash zero p buffer st = some (st, buffer)
report_loop xmthash (suc fuel) p buffer st =
    let text = drop p buffer in
    elim (read_report xmthash st text) [
      | none ↦ none
      | some next ↦ elim (found_behind (p + 2) (find_text sz_missing (drop (p + 2) text))) [
        | none ↦ some (next, text)
        | some q ↦ report_loop xmthash fuel q text next
      ]
    ]

-- What `tx_parse_report` leaves behind.
pub record Reported : Type 0 where
  pub tosend : List ℕ
  pub missing_block_count : ℕ
  pub report_buffer : List ℕ
  pub preamble_detected_flag : Bool

unfoldable pub reported : Taken → List ℕ → Reported
reported st buffer =
    let (count, tosend) = reformat_missing_blocks (st.tosend ++ st.preamble_block) in
    record {
      tosend = tosend;
      missing_block_count = count;
      report_buffer = buffer;
      preamble_detected_flag = st.preamble_detected_flag;
    }

unfoldable pub tx_parse_report : TxAmp → Bool → List ℕ → Option Reported
tx_parse_report tx preamble report_buffer =
    let st : Taken = record {
      tosend = tx.tosend;
      preamble_block = [];
      preamble_detected_flag = preamble;
    } in
    elim (find_text sz_missing report_buffer) [
      | none ↦ some (reported st report_buffer)
      | some p ↦ elim (report_loop tx.xmthash (suc (length report_buffer)) p report_buffer st) [
        | none ↦ none
        | some (last, buffer) ↦ some (reported last buffer)
      ]
    ]
