-- ===== src/Amp/Incoming/Agreement.antt =====
-- What `tx_parse_report` makes of the report of a receiving half.
use flimg.Prelude.{
  ℕ, zero, suc, ◌^◌, ◌<◌, ◌≡◌, refl, sym, ap, ap₂, ◌∙◌, arith, Bool, false, List, [], ◌∷◌, ◌++◌,
  some,
}
use flimg.Prelude.{length, ◌==◌}
use flimg.Cstd.{find_text, starts_with, is_digit}
use flimg.Crc16.{scrc16, hex_digit}
use flimg.Amp.{TxAmp, RxAmp, hash_of}
use flimg.Amp.Headers.{braced}
use flimg.Amp.Incoming.{sz_missing, Taken, take_numbers, take_report, reported, tx_parse_report}
use flimg.Amp.Incoming.Kinds.{answered, nothing_yet, IsAnswered, answers_each}
use flimg.Amp.Incoming.Text.{spaced-lacks, IsNoHex, scrc16-lacks}
use flimg.Amp.Incoming.Report.{tail_of, takes_report, turned}
use flimg.Amp.Incoming.Single.{
  IsClearOf, length-scrc16, other_lt, other_p, braced_without, one_report, rx_report_lem,
}
use flimg.Amp.Reports.{iterations, report_body, or_word, rx_report}
use flimg.Amp.Reports.Reading.{
  missing_from, spaced, missing_from-IsAscending, missing_from-lt, rx_report_loop-missing_from,
}
use flimg.Amp.Reports.Agreement.{numbers_stay}

no_zero : IsNoHex 0
unfolding hex_digit
no_zero d h = ground arith

word_without : (n : ℕ) (flags : ℕ) → n < b'A' → IsClearOf n (or_word [] flags)
unfolding or_word
word_without n zero h = (
  ground arith,
  (
    ground arith,
    (
      ground arith,
      (
        ground arith,
        (ground arith, (ground arith, (ground arith, (ground arith, (ground arith, tt))))),
      ),
    ),
  ),
)
word_without n (suc flags) h = (
  ground arith,
  (
    ground arith,
    (
      ground arith,
      (ground arith, (ground arith, (ground arith, (ground arith, (ground arith, tt))))),
    ),
  ),
)

said_without :
    (n : ℕ) (ms : List ℕ) (flags : ℕ)
    → n < b'A'
    → is_digit n ≡ false
    → (n == b' ') ≡ false
    → IsClearOf n (or_word (spaced ms) flags)
unfolding spaced
said_without n [] flags small h e = word_without n flags small
said_without n (m ∷ ms) flags small h e = rw (numbers_stay m ms flags) (spaced-lacks n (m ∷ ms) h e)

hash_of_without : (n : ℕ) (tx : TxAmp) → IsNoHex n → IsClearOf n (hash_of tx)
unfolding hash_of
hash_of_without n tx h = scrc16-lacks n _ h

length-hash_of : (tx : TxAmp) → length (hash_of tx) ≡ 4
unfolding hash_of
length-hash_of tx = length-scrc16 _

module _ (tx : TxAmp) (before : Bool) (nothing : tx.tosend ≡ []) where
  parsed :
      (held : List ℕ) (next : Taken)
      → IsClearOf b'<' held
      → take_report tx.xmthash (nothing_yet before) held (scrc16 held) ≡ some next
      → let text : List ℕ = sz_missing ++ tail_of (length held) (scrc16 held) held in
        tx_parse_report tx before text ≡ some (reported next text)
  unfolding tx_parse_report find_text starts_with
  parsed held next h e =
      rw (nothing, one_report tx.xmthash held _ (nothing_yet before) next h e, tx_parse_report) refl

-- The body of a report, and its text, with the hash of the file.
body_lem :
    (rx : RxAmp)
    → iterations rx.rxnumblocks < 10 ^ 8
    → report_body rx
      ≡ or_word (spaced (missing_from rx.rxblocks (iterations rx.rxnumblocks) 1)) rx.rx_crc_flags
unfolding report_body
body_lem rx h =
    ap (λ t. or_word t rx.rx_crc_flags)
      (rx_report_loop-missing_from rx.rxblocks (iterations rx.rxnumblocks) 1 [] (omega arith))

takes_said :
    (tx : TxAmp) (ms : List ℕ) (flags : ℕ) (next : Taken) (before : Bool)
    → let held = braced (hash_of tx) (or_word (spaced ms) flags) in
      take_numbers (nothing_yet before) held ≡ some next
      → take_report (hash_of tx) (nothing_yet before) held (scrc16 held) ≡ some next
takes_said tx ms flags next before e =
    let said : List ℕ = or_word (spaced ms) flags in
    takes_report (hash_of tx) said (nothing_yet before) (length-hash_of tx) (
      turned 0 (braced (hash_of tx) said) (
        braced_without 0 (hash_of tx) said refl refl (hash_of_without 0 tx no_zero)
          (said_without 0 ms flags (omega arith) refl refl)))
    ∙ e

-- Take a receiving half and a sending half with the hash of the same file, fewer than 10 ^ 8
-- blocks, a report of less than 2 ^ 31 bytes, and a sending half with nothing to send yet. From
-- the text of `rx_report` alone in its buffer, `tx_parse_report` makes the list of exactly the
-- blocks that the receiving half lacks; where it lacks none but a header, the list is the block 0,
-- which stands for the headers; and where it lacks nothing, the list stays empty.
pub tx_parse_report-rx_report :
    (tx : TxAmp) (rx : RxAmp) (before : Bool)
    → rx.rxhash ≡ hash_of tx
    → tx.xmthash ≡ hash_of tx
    → tx.tosend ≡ []
    → iterations rx.rxnumblocks < 10 ^ 8
    → length (braced rx.rxhash (report_body rx)) < 2 ^ 31
    → tx_parse_report tx before (rx_report rx)
      ≡ some (
          answered
            (missing_from rx.rxblocks (iterations rx.rxnumblocks) 1)
            rx.rx_crc_flags
            before
            (rx_report rx))
unfolding IsAnswered
tx_parse_report-rx_report tx rx before same fresh nothing few short =
    let k = iterations rx.rxnumblocks in
    let ms = missing_from rx.rxblocks k 1 in
    let held : List ℕ = braced rx.rxhash (report_body rx) in
    let said : held ≡ braced (hash_of tx) (or_word (spaced ms) rx.rx_crc_flags) =
      ap₂ braced same (body_lem rx few) in
    let (next, taken, done) =
      answers_each (hash_of tx) ms rx.rx_crc_flags before (rx_report rx) (length-hash_of tx)
        (hash_of_without b'P' tx other_p) (missing_from-IsAscending rx.rxblocks k 1 0 (omega arith))
        (missing_from-lt rx.rxblocks k 1 (10 ^ 8) (omega arith)) in
    let read : take_report tx.xmthash (nothing_yet before) held (scrc16 held) ≡ some next =
      ap₂ (λ h t. take_report h (nothing_yet before) t (scrc16 t)) fresh said
      ∙ takes_said tx ms rx.rx_crc_flags next before taken in
    let plain : IsClearOf b'<' held = rw said (
      braced_without b'<' (hash_of tx) (or_word (spaced ms) rx.rx_crc_flags) refl refl
        (hash_of_without b'<' tx other_lt)
        (said_without b'<' ms rx.rx_crc_flags (omega arith) refl refl)) in
    ap (tx_parse_report tx before) (rx_report_lem rx short)
    ∙ parsed tx before nothing held next plain read
    ∙ ap (λ t. some (reported next t)) (sym (rx_report_lem rx short))
    ∙ ap some done
