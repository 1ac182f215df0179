-- ===== src/Amp/Headers/Samples.antt =====
-- A file of five bytes in blocks of two, ready to be sent, and the lines of a transmission.
use flimg.Prelude.{All, ℕ, zero, suc, ◌≡◌, refl, arith, true, false, List, [], ◌∷◌, codes}
use flimg.Cstd.{pos}
use flimg.Amp.{TxAmp, hash_of, xmt_calc_numblocks}
use flimg.Amp.Transfer.{mem, IsBlock}
use flimg.Amp.Headers.Session.{
  Sent, the_file, the_id, the_size, the_program, the_eof, the_block, IsReady, IsPart,
}
use flimg.Amp.Headers.Flags.{one_of, is_file, is_id, is_size}
use flimg.Amp.Headers.Complete.{blocks_of, IsWhole}

abbrev named : TxAmp
named = record {
  xmtdata = codes "HELLO";
  xmtdttm = codes "20150101120000";
  xmtfilename = codes "hi.txt";
  xmtbase = codes "base64";
  xmthash = [];
  use_compression = false;
  use_forced_compression = true;
  xmtblocksize = 2;
  xmtnumblocks = 3;
  xmtcall = codes "W1AW";
  xmtcallto = codes "QST";
  xmtinfo = codes "op";
  xmtdesc = [];
  tosend = [];
  repeat_header = pos 1;
  xmt_repeat = pos 1;
}

abbrev pub greeting : TxAmp
greeting = record {
  xmtdata = codes "HELLO";
  xmtdttm = codes "20150101120000";
  xmtfilename = codes "hi.txt";
  xmtbase = codes "base64";
  xmthash = hash_of named;
  use_compression = false;
  use_forced_compression = true;
  xmtblocksize = 2;
  xmtnumblocks = 3;
  xmtcall = codes "W1AW";
  xmtcallto = codes "QST";
  xmtinfo = codes "op";
  xmtdesc = [];
  tosend = [];
  repeat_header = pos 1;
  xmt_repeat = pos 1;
}

abbrev pub lines : List Sent
lines =
    the_program
    ∷ the_block 2
    ∷ the_size
    ∷ the_block 3
    ∷ the_id
    ∷ the_block 2
    ∷ the_file
    ∷ the_block 1
    ∷ the_eof
    ∷ []

pub greeting-IsReady : IsReady greeting
unfolding xmt_calc_numblocks hash_of
greeting-IsReady = record {
  fresh_hash = refl;
  fresh_count = refl;
  some_size = omega arith;
  small = (omega arith, omega arith, omega arith);
  plain_time = (
    refl,
    (
      refl,
      (
        refl,
        (refl, (refl, (refl, (refl, (refl, (refl, (refl, (refl, (refl, (refl, (refl, tt))))))))))),
      ),
    ),
  );
}

all_sent : (i : ℕ) → IsBlock greeting i → mem i (blocks_of lines) ≡ true
unfolding xmt_calc_numblocks mem blocks_of
all_sent zero (p, q) = absurd (omega arith)
all_sent (suc zero) h = refl
all_sent (suc (suc zero)) h = refl
all_sent (suc (suc (suc zero))) h = refl
all_sent (suc (suc (suc (suc i)))) (p, q) = absurd (omega arith)

pub lines-IsWhole : IsWhole greeting lines
unfolding one_of is_file is_id is_size
lines-IsWhole = record {
  file_sent = refl;
  id_sent = refl;
  size_sent = refl;
  blocks_sent = all_sent;
}

pub lines-IsPart : All (IsPart greeting) lines
unfolding xmt_calc_numblocks
lines-IsPart = omega arith
