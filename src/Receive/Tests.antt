-- ===== src/Receive/Tests.antt =====
-- The theorems at a file of five bytes in blocks of two.
use flimg.Prelude.{ℕ, ◌≡◌, refl, arith, true, List, [], ◌∷◌, some, codes}
use flimg.Prelude.{All, length, get_elem?, ◌≤◌, ◌≢◌, inl, sym, ◌∙◌}
use flimg.Cstd.{
  c_str, take_word, skip_spaces, scan_int_rest, scan_int, drop_digits, drop_sign, find_char,
  found_behind, print_int, find_text, starts_with,
}
use flimg.Crc16.{scrc16}
use flimg.Amp.{
  RxAmp, hash_of, block_text, block_mark, substr, same_text, rx_completed, rx_recvd_string,
}
use flimg.Amp.Headers.{
  data_line, some_word, raw_line, rx_parse_line, braced, file_text, id_text, size_text,
  program_text, eof_text, sz_size,
}
use flimg.Amp.Headers.Session.{
  Sent, the_file, the_id, the_size, the_program, the_eof, the_block, text_of, line_of,
}
use flimg.Amp.Headers.Samples.{greeting, lines, greeting-IsReady, lines-IsWhole, lines-IsPart}
use flimg.Receive.{
  new_amp, ltypes, existing, scan_frame, scan_numbers, scan_mark, scan_length, process_data_stream,
  rx_parse_buffer, started, rx_append, parse_loop, look, look_at, take_line, exceeds, erased,
}
use flimg.Amp.Incoming.{fits, report_data}
use flimg.Receive.Layout.{passed_frame, IsFramed, earlier, later}
use flimg.Receive.Isolation.{process_data_stream-others}
use flimg.Receive.Straying.{rx_parse_buffer-stray}
use flimg.Receive.Streams.{IsFramedPart, deliver_frames}
use flimg.Receive.Whole.{deliver_frames_lem}

abbrev version : List ℕ
version = codes "flimg-2.1.9"

is_framed :
    (s : Sent) (text : List ℕ)
    → text_of version greeting s ≡ some text
    → IsFramed (line_of s) text
    → IsFramedPart version greeting s
is_framed s text e framed other f = let same : text ≡ other = cc (e, f) in rw (← same) framed

framed_file : IsFramedPart version greeting the_file
unfolding text_of line_of file_text braced find_text starts_with ltypes earlier hash_of scrc16
    print_int
framed_file =
    is_framed the_file _ refl (record { long = omega arith; fitting = omega arith; untagged = tt })

framed_id : IsFramedPart version greeting the_id
unfolding text_of line_of id_text braced find_text starts_with ltypes earlier hash_of scrc16
    print_int
framed_id =
    is_framed the_id _ refl
      (record { long = omega arith; fitting = omega arith; untagged = (refl, tt) })

framed_size : IsFramedPart version greeting the_size
unfolding text_of line_of size_text sz_size print_int braced find_text starts_with ltypes earlier
    hash_of scrc16
framed_size =
    is_framed the_size _ refl
      (record { long = omega arith; fitting = omega arith; untagged = (refl, (refl, (refl, tt))) })

framed_program : IsFramedPart version greeting the_program
unfolding text_of line_of program_text braced find_text starts_with ltypes earlier hash_of scrc16
    print_int
framed_program = is_framed the_program _ refl (record {
  long = omega arith;
  fitting = omega arith;
  untagged = (refl, (refl, (refl, (refl, (refl, (refl, tt))))));
})

framed_eof : IsFramedPart version greeting the_eof
unfolding text_of line_of eof_text find_text starts_with ltypes earlier hash_of scrc16 print_int
framed_eof = is_framed the_eof _ refl (record {
  long = omega arith;
  fitting = omega arith;
  untagged = (refl, (refl, (refl, (refl, (refl, (refl, (refl, tt)))))));
})

framed_block_one : IsFramedPart version greeting (the_block 1)
unfolding text_of line_of block_text block_mark print_int substr find_text starts_with ltypes
    earlier hash_of scrc16
framed_block_one = is_framed (the_block 1) _ refl (record {
  long = omega arith;
  fitting = omega arith;
  untagged = (refl, (refl, (refl, (refl, (refl, tt)))));
})

framed_block_two : IsFramedPart version greeting (the_block 2)
unfolding text_of line_of block_text block_mark print_int substr find_text starts_with ltypes
    earlier hash_of scrc16
framed_block_two = is_framed (the_block 2) _ refl (record {
  long = omega arith;
  fitting = omega arith;
  untagged = (refl, (refl, (refl, (refl, (refl, tt)))));
})

framed_block_three : IsFramedPart version greeting (the_block 3)
unfolding text_of line_of block_text block_mark print_int substr find_text starts_with ltypes
    earlier hash_of scrc16
framed_block_three = is_framed (the_block 3) _ refl (record {
  long = omega arith;
  fitting = omega arith;
  untagged = (refl, (refl, (refl, (refl, (refl, tt)))));
})

lines-IsFramed : All (IsFramedPart version greeting) lines
lines-IsFramed = (
  framed_program,
  (
    framed_block_two,
    (
      framed_size,
      (
        framed_block_three,
        (framed_id, (framed_block_two, (framed_file, (framed_block_one, (framed_eof, tt))))),
      ),
    ),
  ),
)

-- An amp of another file.
abbrev other_amp : RxAmp
other_amp = record new_amp { rxhash = codes "0000" }

deliver_frames_lem_example :
    (last : RxAmp) × (deliver_frames version greeting (other_amp ∷ []) lines
      ≡ some (other_amp ∷ last ∷ []))
    × (rx_completed last ≡ true)
    × (rx_recvd_string last ≡ codes "HELLO")
    × (last.rxfilename ≡ codes "hi.txt")
    × (last.rxdttm ≡ codes "20150101120000")
unfolding existing same_text hash_of scrc16 new_amp print_int
deliver_frames_lem_example =
    deliver_frames_lem version greeting (other_amp ∷ []) lines greeting-IsReady (omega arith) refl
      lines-IsPart lines-IsFramed lines-IsWhole

-- A control line for a file that no amp has.
abbrev eof_frame : List ℕ
eof_frame = codes "<CNTL 10 0000>{1111:EOF}"

abbrev two_amps : List RxAmp
two_amps =
    other_amp
    ∷ record new_amp {
      rxhash = codes "1111";
      rxfilename = codes "Unassigned";
      rx_raw_cntl = raw_line (codes "<CNTL ") (codes "{1111:EOF}");
    }
    ∷ []

names : scan_frame (c_str eof_frame) ≡ some (codes "1111")
unfolding scan_frame scan_numbers scan_mark some_word take_word skip_spaces scan_int_rest scan_int
    drop_digits drop_sign c_str
names = refl

names_other : scan_frame (c_str eof_frame) ≢ some (codes "0000")
names_other h = let k = sym names ∙ h in ground arith

reads_control :
    rx_parse_buffer (started (codes "1111") eof_frame)
    ≡ some (record new_amp {
      rxhash = codes "1111";
      rxfilename = codes "Unassigned";
      rx_raw_cntl = raw_line (codes "<CNTL ") (codes "{1111:EOF}");
    })
unfolding rx_parse_buffer started rx_append parse_loop look look_at take_line find_text starts_with
    ltypes scan_length scan_int_rest scan_int drop_digits drop_sign skip_spaces take_word some_word
    find_char found_behind fits report_data exceeds erased rx_parse_line new_amp
reads_control = refl

adds_amp : process_data_stream (other_amp ∷ []) eof_frame ≡ some two_amps
unfolding process_data_stream existing same_text
adds_amp = rw (names, reads_control, process_data_stream) refl

process_data_stream-others_example : (get_elem? two_amps 0 ≡ some other_amp) × (length two_amps ≤ 2)
process_data_stream-others_example =
    process_data_stream-others (other_amp ∷ []) two_amps eof_frame 0 other_amp adds_amp refl
      (inl names_other)

-- A block with a file tag in its text.
abbrev stray_text : List ℕ
stray_text = codes "{ABCD:1}see <FILE x"

abbrev stray_amp : RxAmp
stray_amp = record new_amp {
  rxhash = codes "ABCD";
  rxbuffer = passed_frame (ltypes data_line) stray_text;
}

rx_parse_buffer-stray_example :
    rx_parse_buffer stray_amp ≡ some (record stray_amp { rxbuffer = codes "<FILE x" })
unfolding ltypes find_text starts_with scan_length later scan_int_rest scan_int
rx_parse_buffer-stray_example =
    rx_parse_buffer-stray stray_amp stray_text 12 refl (omega arith) refl refl
      (refl, (refl, (refl, (refl, (refl, (refl, (refl, tt)))))))
