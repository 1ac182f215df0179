-- ===== src/Amp/Incoming/Tests.antt =====
-- `tx_parse_report-rx_report` where two of three blocks are missing.
use flimg.Prelude.{◌≡◌, refl, arith, false, some, [], ◌∷◌}
use flimg.Cstd.{pos}
use flimg.Amp.{TxAmp, RxAmp, hash_of}
use flimg.Amp.Reports.{iterations, rx_report, report_body}
use flimg.Amp.Reports.Reading.{missing_from}
use flimg.Amp.Samples.{hello, listening}
use flimg.Amp.Incoming.{tx_parse_report}
use flimg.Amp.Incoming.Kinds.{answered}
use flimg.Amp.Incoming.Agreement.{tx_parse_report-rx_report}

abbrev sending : TxAmp
sending = record hello { xmthash = hash_of hello }

abbrev waiting : RxAmp
waiting = record listening { rxblocks = (pos 2, b'L' ∷ []) ∷ [] }

tx_parse_report-rx_report_example :
    tx_parse_report sending false (rx_report waiting)
    ≡ some (answered (missing_from waiting.rxblocks 3 1) 0 false (rx_report waiting))
unfolding report_body hash_of flimg.Amp.Headers.braced flimg.Crc16.scrc16 flimg.Amp.Reports.or_word
    flimg.Amp.Reports.rx_report_loop flimg.IntMap.find flimg.IntMap.eqb_int flimg.Cstd.print_int
tx_parse_report-rx_report_example =
    tx_parse_report-rx_report sending waiting false refl refl refl (omega arith) (omega arith)
