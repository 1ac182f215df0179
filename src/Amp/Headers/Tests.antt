-- ===== src/Amp/Headers/Tests.antt =====
-- `deliver_lines_lem` at a file of five bytes in blocks of two.
use flimg.Prelude.{◌≡◌, refl, arith, true, [], some, codes}
use flimg.Cstd.{pos}
use flimg.Amp.{RxAmp, hash_of, rx_completed, rx_recvd_string, xmt_calc_numblocks}
use flimg.Amp.Headers.{clear_rx}
use flimg.Amp.Headers.Session.{deliver_lines}
use flimg.Amp.Headers.Complete.{deliver_lines_lem}
use flimg.Amp.Headers.Samples.{greeting, lines, greeting-IsReady, lines-IsWhole, lines-IsPart}

abbrev untold : RxAmp
untold = record {
  rxhash = hash_of greeting;
  rxnumblocks = pos 8;
  rx_ok_blocks = 2;
  rx_crc_flags = 0;
  rxblocks = [];
  rx_data_header = [];
  rx_rcvd = codes "1 2 ";
  rxdttm = [];
  rxfilename = codes "old.txt";
  rxdesc = [];
  rxcall_info = [];
  rxprogname = [];
  rxfilesize = pos 0;
  rxblocksize = pos 0;
  rx_raw_file = [];
  rx_raw_id = [];
  rx_raw_size = [];
  rx_raw_desc = [];
  rx_raw_prog = [];
  rx_raw_cntl = [];
  rxbuffer = [];
}

deliver_lines_lem_example :
    (last : RxAmp) × (deliver_lines (codes "flimg-2.1.9") greeting (clear_rx untold) lines
      ≡ some last)
    × (rx_completed last ≡ true)
    × (rx_recvd_string last ≡ codes "HELLO")
    × (last.rxfilename ≡ codes "hi.txt")
    × (last.rxdttm ≡ codes "20150101120000")
unfolding xmt_calc_numblocks
deliver_lines_lem_example =
    deliver_lines_lem (codes "flimg-2.1.9") greeting untold lines greeting-IsReady (omega arith)
      refl lines-IsPart lines-IsWhole
