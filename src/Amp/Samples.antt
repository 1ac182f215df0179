-- ===== src/Amp/Samples.antt =====
-- A file of five bytes in blocks of two, and a receiving half that waits for it.
use flimg.Prelude.{refl, true, false, [], codes}
use flimg.Cstd.{pos}
use flimg.Amp.{TxAmp, RxAmp, hash_of, xmt_calc_numblocks}
use flimg.Amp.Collect.{AwaitsBlocks}

abbrev pub hello : TxAmp
hello = record {
  xmtdata = codes "HELLO";
  xmtdttm = codes "20150101120000";
  xmtfilename = codes "hi.txt";
  xmtbase = codes "base64";
  xmthash = [];
  use_compression = false;
  use_forced_compression = true;
  xmtblocksize = 2;
  xmtnumblocks = 0;
  xmtcall = codes "W1AW";
  xmtcallto = codes "QST";
  xmtinfo = codes "op";
  xmtdesc = [];
  tosend = [];
  repeat_header = pos 1;
  xmt_repeat = pos 1;
}

abbrev pub listening : RxAmp
listening = record {
  rxhash = hash_of hello;
  rxnumblocks = pos 3;
  rx_ok_blocks = 0;
  rx_crc_flags = 0;
  rxblocks = [];
  rx_data_header = [];
  rx_rcvd = [];
  rxdttm = [];
  rxfilename = [];
  rxdesc = [];
  rxcall_info = [];
  rxprogname = [];
  rxfilesize = pos 0;
  rxblocksize = pos 0;
  rx_raw_file = [];
  rx_raw_id = [];
  rx_raw_size = [];
  rx_raw_desc = [];
  rx_raw_prog = [];
  rx_raw_cntl = [];
  rxbuffer = [];
}

pub listening-AwaitsBlocks : AwaitsBlocks hello listening
unfolding xmt_calc_numblocks
listening-AwaitsBlocks = record {
  same_hash = refl;
  same_count = refl;
  headers_read = refl;
  no_block = refl;
  none_counted = refl;
}
