-- ===== src/Amp/Reports/Tests.antt =====
-- The theorems on reports at concrete inputs.
use flimg.Prelude.{◌≡◌, refl, arith, [], ◌∷◌, length, codes}
use flimg.Cstd.{pos, print_int, scan_int}
use flimg.IntMap.{find, eqb_int}
use flimg.Amp.{RxAmp}
use flimg.Amp.Reports.{
  report_body, rx_missing, rx_missing_loop, reformat_missing_blocks, read_blocks, erase_others,
  erase_digits, push_block, has_block,
}
use flimg.Amp.Reports.Reading.{missing_from}
use flimg.Amp.Reports.Agreement.{comma_list, reformat_missing_blocks-report_body}
use flimg.Amp.Reports.Fuel.{Runs, read_blocks-Runs}

-- Four blocks, of which the second has come.
abbrev one_of_four : RxAmp
one_of_four = record {
  rxhash = codes "0123";
  rxnumblocks = pos 4;
  rx_ok_blocks = 1;
  rx_crc_flags = 0;
  rxblocks = (pos 2, codes "LL") ∷ [];
  rx_data_header = [];
  rx_rcvd = codes "2 ";
  rxdttm = [];
  rxfilename = [];
  rxdesc = [];
  rxcall_info = [];
  rxprogname = [];
  rxfilesize = pos 0;
  rxblocksize = pos 0;
  rx_raw_file = [];
  rx_raw_id = [];
  rx_raw_size = [];
  rx_raw_desc = [];
  rx_raw_prog = [];
  rx_raw_cntl = [];
  rxbuffer = [];
}

reformat_missing_blocks-report_body_example :
    let ms = missing_from one_of_four.rxblocks 4 1 in
    reformat_missing_blocks (report_body one_of_four) ≡ (length ms, comma_list ms)
reformat_missing_blocks-report_body_example =
    reformat_missing_blocks-report_body one_of_four (omega arith)

lacks_three : missing_from one_of_four.rxblocks 4 1 ≡ 1 ∷ 3 ∷ 4 ∷ []
unfolding missing_from find eqb_int
lacks_three = refl

tells_three : rx_missing one_of_four ≡ codes "1, 3, 4"
unfolding rx_missing rx_missing_loop find eqb_int print_int
tells_three = refl

read_blocks-Runs_example : Runs (codes "7,-3 7") [] (read_blocks 6 (codes "7,-3 7") [])
read_blocks-Runs_example = read_blocks-Runs (codes "7,-3 7") []

-- A sign behind the first number is skipped with the separators, and a repetition is left out.
reads_unsigned : read_blocks 6 (codes "7,-3 7") [] ≡ pos 7 ∷ pos 3 ∷ []
unfolding read_blocks erase_others erase_digits push_block scan_int has_block eqb_int
reads_unsigned = refl
