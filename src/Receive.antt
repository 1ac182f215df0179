-- ===== src/Receive.antt =====
-- What happens to a frame that `process_que` of src/flimg.cxx passes on: `process_data_stream`, with
-- `rx_parse_buffer` and the constructor of src/utils/amp.cxx.
--
-- The amps that receive are the list of their receiving halves, in the order of `rx_amp`. The
-- windows are left out, and so is the saving of a file that is complete. `none` is an exception of
-- `substr`.
pub mod Layout
pub mod Growing
pub mod Parsing
pub mod Scanning
pub mod Places
pub mod Streams
pub mod Steps
pub mod Whole
pub mod Isolation
pub mod Straying
mod Tests
use flimg.Prelude.{
  ℕ, zero, suc, ◌+◌, ◌-◌, Bool, true, false, not, List, [], ◌∷◌, ◌++◌, Option, none, some,
}
use flimg.Prelude.{leb, ltb, ◌==◌, if◌then◌else◌, drop, set, get_elem?, length, codes}
use flimg.Cstd.{
  ℤ, pos, negsuc, c_str, find_char, find_text, found_behind, skip_spaces, take_word, scan_int_rest,
}
use flimg.Amp.{RxAmp, same_text, rx_completed}
use flimg.Amp.Headers.{
  LineType, file_line, id_line, dttm_line, size_line, desc_line, data_line, prog_line, cntl_line,
  some_word, rx_parse_line,
}
use flimg.Amp.Incoming.{fits, report_data}

-- `ltypes`
unfoldable pub ltypes : LineType → List ℕ
ltypes file_line = codes "<FILE "
ltypes id_line = codes "<ID "
ltypes dttm_line = codes "<DTTM "
ltypes size_line = codes "<SIZE "
ltypes desc_line = codes "<DESC "
ltypes data_line = codes "<DATA "
ltypes prog_line = codes "<PROG "
ltypes cntl_line = codes "<CNTL "

-- The numbers from `_FILE` to `_CNTL`.
abbrev pub line_types : List LineType
line_types =
    file_line ∷ id_line ∷ dttm_line ∷ size_line ∷ desc_line ∷ data_line ∷ prog_line ∷ cntl_line ∷ []

-- `sscanf(s, "%d %4s", &len, crc)`, where it converts both.
unfoldable pub scan_length : List ℕ → Option (ℤ × List ℕ)
scan_length text = elim (scan_int_rest text) [
  | none ↦ none
  | some (len, s) ↦ elim (some_word (take_word 4 (skip_spaces s))) [
    | none ↦ none
    | some (crc, rest) ↦ some (len, crc)
  ]
]

-- `len > 2048 + 6`
unfoldable pub exceeds : ℤ → Bool
exceeds (pos len) = ltb 2054 len
exceeds (negsuc n) = false

-- `rxbuffer.erase(0, p1 + 1 + len)`
unfoldable pub erased : ℕ → ℤ → List ℕ → List ℕ
erased p1 (pos len) buffer = drop (p1 + 1 + len) buffer
erased p1 (negsuc n) buffer = drop (p1 - n) buffer

-- `rxbuffer.erase(0, 1)`
unfoldable pub drop_one : RxAmp → RxAmp
drop_one rx = record rx { rxbuffer = drop 1 rx.rxbuffer }

-- A turn of the loop goes on to the next tag, or the function returns.
pub data Turn : Type 0 where
  goes_on : RxAmp → Turn
  ends : Option RxAmp → Turn

unfoldable pub take_line : LineType → List ℕ → ℕ → ℤ → RxAmp → Turn
take_line ltype crc p1 len rx = elim (rx_parse_line rx ltype crc (report_data p1 len rx.rxbuffer)) [
  | none ↦ ends none
  | some next ↦ ends (some (record next { rxbuffer = erased p1 len next.rxbuffer }))
]

-- The part for a buffer that begins with the tag.
unfoldable pub look_at : LineType → RxAmp → Turn
look_at ltype rx =
    let size = length (ltypes ltype) in
    elim (scan_length (drop size rx.rxbuffer)) [
      | none ↦ goes_on rx
      | some (len, crc) ↦
          if exceeds len
          then ends (some (drop_one rx))
          else elim (found_behind size (find_char b'>' (drop size rx.rxbuffer))) [
            | none ↦ ends (some (if ltb 15 (length rx.rxbuffer) then drop_one rx else rx))
            | some p1 ↦
                if fits p1 len (length rx.rxbuffer)
                then take_line ltype crc p1 len rx
                else goes_on rx
          ]
    ]

unfoldable pub look : LineType → RxAmp → Turn
look ltype rx = elim (find_text (ltypes ltype) rx.rxbuffer) [
  | none ↦ goes_on rx
  | some p ↦ look_at ltype (record rx { rxbuffer = drop p rx.rxbuffer })
]

unfoldable pub parse_loop : List LineType → RxAmp → Option RxAmp
parse_loop [] rx = some rx
parse_loop (ltype ∷ more) rx = elim (look ltype rx) [
  | goes_on next ↦ parse_loop more next
  | ends result ↦ result
]

unfoldable pub rx_parse_buffer : RxAmp → Option RxAmp
rx_parse_buffer rx = if ltb (length rx.rxbuffer) 16 then some rx else parse_loop line_types rx

unfoldable pub rx_append : RxAmp → List ℕ → RxAmp
rx_append rx s = record rx { rxbuffer = rx.rxbuffer ++ s }

-- A new amp, as the constructor leaves its receiving half.
unfoldable pub new_amp : RxAmp
new_amp = record {
  rxhash = [];
  rxnumblocks = pos 0;
  rx_ok_blocks = 0;
  rx_crc_flags = 7;
  rxblocks = [];
  rx_data_header = [];
  rx_rcvd = [];
  rxdttm = [];
  rxfilename = [];
  rxdesc = [];
  rxcall_info = [];
  rxprogname = [];
  rxfilesize = pos 0;
  rxblocksize = pos 0;
  rx_raw_file = [];
  rx_raw_id = [];
  rx_raw_size = [];
  rx_raw_desc = [];
  rx_raw_prog = [];
  rx_raw_cntl = [];
  rxbuffer = [];
}

-- The hash that `sscanf(s, "<%s %d %4s>{%4s", tag, &len, crc, hash)` finds, where it converts all
-- four.
unfoldable pub scan_mark : List ℕ → Option (List ℕ)
scan_mark (c ∷ d ∷ cs) =
    if (c == b'>')
    then (if d == b'{'
        then elim (some_word (take_word 4 (skip_spaces cs))) [
          | none ↦ none
          | some (hash, rest) ↦ some hash
        ]
        else none)
    else none
scan_mark _ = none

unfoldable pub scan_numbers : List ℕ → Option (List ℕ)
scan_numbers s = elim (scan_int_rest s) [
  | none ↦ none
  | some (len, t) ↦ elim (some_word (take_word 4 (skip_spaces t))) [
    | none ↦ none
    | some (crc, u) ↦ scan_mark u
  ]
]

unfoldable pub scan_frame : List ℕ → Option (List ℕ)
scan_frame [] = none
scan_frame (c ∷ cs) =
    if not (c == b'<') then none else elim (some_word (take_word (length cs) (skip_spaces cs))) [
      | none ↦ none
      | some (tag, s) ↦ scan_numbers s
    ]

-- The loop that looks for an amp with the hash.
unfoldable pub existing : List ℕ → List RxAmp → Option ℕ
existing hash [] = none
existing hash (amp ∷ amps) =
    if same_text hash amp.rxhash
    then some 0
    else elim (existing hash amps) [ none ↦ none | some i ↦ some (suc i) ]

-- A new amp for the hash, with the frame in its buffer.
unfoldable pub started : List ℕ → List ℕ → RxAmp
started hash retbuff =
    rx_append (record new_amp { rxhash = hash; rxfilename = codes "Unassigned" }) retbuff

-- The frame goes to an amp of the list, unless its file is complete.
unfoldable pub goes_to : List RxAmp → ℕ → RxAmp → List ℕ → Option (List RxAmp)
goes_to amps i amp retbuff =
    if rx_completed amp then some amps else elim (rx_parse_buffer (rx_append amp retbuff)) [
      | none ↦ none
      | some next ↦ some (set amps i next)
    ]

unfoldable pub process_data_stream : List RxAmp → List ℕ → Option (List RxAmp)
process_data_stream amps retbuff = elim (scan_frame (c_str retbuff)) [
  | none ↦ some amps
  | some hash ↦ elim (existing hash amps) [
    | none ↦ elim (rx_parse_buffer (started hash retbuff)) [
      | none ↦ none
      | some nu ↦ some (amps ++ nu ∷ [])
    ]
    | some i ↦ elim (get_elem? amps i) [ none ↦ some amps | some amp ↦ goes_to amps i amp retbuff ]
  ]
]
