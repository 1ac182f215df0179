-- ===== src/Amp/Sending/Tests.antt =====
-- The theorems on transmissions at a file of five bytes in blocks of two.
use flimg.Prelude.{ℕ, ◌≡◌, arith, true, List, [], ◌∷◌, some, codes, All, length}
use flimg.Cstd.{pos}
use flimg.Amp.{TxAmp, RxAmp, rx_completed, rx_recvd_string, xmt_calc_numblocks}
use flimg.Amp.Transfer.{deliver, IsBlock}
use flimg.Amp.Reports.{report_body, reformat_missing_blocks}
use flimg.Amp.Reports.Agreement.{comma_list}
use flimg.Amp.Samples.{hello, listening, listening-AwaitsBlocks}
use flimg.Amp.Sending.Answer.{answered_report}

abbrev asking : TxAmp
asking = record hello { tosend = codes "1,3" }

answered_report_example :
    (mid : RxAmp) × (ms : List ℕ) × (last : RxAmp) × (deliver hello listening (2 ∷ []) ≡ some mid)
    × (reformat_missing_blocks (report_body mid) ≡ (length ms, comma_list ms))
    × All (IsBlock hello) ms
    × (deliver hello mid ms ≡ some last)
    × (rx_completed last ≡ true)
    × (rx_recvd_string last ≡ codes "HELLO")
unfolding xmt_calc_numblocks
answered_report_example =
    answered_report hello listening (2 ∷ []) (omega arith) (omega arith) (omega arith) (omega arith)
      listening-AwaitsBlocks ((omega arith, omega arith), tt)
