-- ===== src/Amp/Incoming/Kinds.antt =====
-- The three kinds of report, and what the sending half makes of each.
use flimg.Prelude.{
  ℕ, zero, suc, ◌^◌, ◌<◌, ◌≡◌, refl, ap, ◌∙◌, Bool, true, List, [], ◌∷◌, append-nil, some,
}
use flimg.Prelude.{All, length, codes}
use flimg.Cstd.{
  ℤ, pos, find_text, starts_with, found_behind, is_digit, scan_int, skip_spaces, print_nat,
}
use flimg.IntMap.{eqb_int}
use flimg.Amp.{TxAmp, RxAmp, hash_of, frame, sz_len}
use flimg.Amp.Headers.{braced}
use flimg.Amp.Incoming.{Taken, take_numbers, reported, Reported}
use flimg.Amp.Incoming.Numbers.{reads_blank}
use flimg.Amp.Incoming.Text.{spaced-lacks}
use flimg.Amp.Incoming.Single.{IsClearOf, take_numbers_lem, preamble_taken}
use flimg.Amp.Reports.{
  iterations, report_body, or_word, rx_report, erase_digits, erase_others, has_block, push_block,
  read_blocks, reformat_missing_blocks, sort, join_blocks,
}
use flimg.Amp.Reports.Reading.{spaced, IsAscending}
use flimg.Amp.Reports.Agreement.{comma_list, numbers_stay}

-- What the sending half is to make of a report on the blocks `ms`: they, or the headers alone.
unfoldable pub wanted : List ℕ → ℕ → ℕ × List ℕ
wanted (m ∷ ms) flags = (length (m ∷ ms), comma_list (m ∷ ms))
wanted [] zero = (0, [])
wanted [] (suc flags) = (1, codes "0")

unfoldable pub wants_headers : List ℕ → ℕ → Bool → Bool
wants_headers (m ∷ ms) flags before = before
wants_headers [] zero before = before
wants_headers [] (suc flags) before = true

unfoldable pub answered : List ℕ → ℕ → Bool → List ℕ → Reported
answered ms flags before buffer = record {
  tosend = (wanted ms flags).1;
  missing_block_count = (wanted ms flags).0;
  report_buffer = buffer;
  preamble_detected_flag = wants_headers ms flags before;
}

abbrev pub nothing_yet : Bool → Taken
nothing_yet before = record { tosend = []; preamble_block = []; preamble_detected_flag = before }

-- The three kinds of report.
unfoldable pub IsAnswered :
    (hash : List ℕ) (ms : List ℕ) (flags : ℕ) (before : Bool) (buffer : List ℕ) → Type 0
IsAnswered hash ms flags before buffer =
    (next : Taken) × (take_numbers (nothing_yet before) (braced hash (or_word (spaced ms) flags))
      ≡ some next)
    × (reported next buffer ≡ answered ms flags before buffer)

confirmed :
    (before : Bool) (buffer : List ℕ)
    → reported (record (nothing_yet before) { tosend = b' ' ∷ codes "CONFIRMED" }) buffer
      ≡ answered [] 0 before buffer
unfolding reported answered wanted wants_headers reformat_missing_blocks read_blocks erase_others
    erase_digits push_block scan_int skip_spaces sort join_blocks
confirmed before buffer = refl

headers_only :
    (before : Bool) (flags : ℕ) (buffer : List ℕ)
    → reported
        (record (nothing_yet before) { preamble_block = codes " 0"; preamble_detected_flag = true })
        buffer
      ≡ answered [] (suc flags) before buffer
unfolding reported answered wanted wants_headers reformat_missing_blocks read_blocks erase_others
    erase_digits push_block has_block scan_int skip_spaces sort join_blocks eqb_int
    flimg.Amp.Reports.insert_block flimg.Cstd.print_int
headers_only before flags buffer = refl

numbered :
    (i n : ℕ) (ns : List ℕ) (flags : ℕ) (before : Bool) (buffer : List ℕ)
    → IsAscending i (n ∷ ns)
    → All (λ k. k < 10 ^ 8) (n ∷ ns)
    → reported (record (nothing_yet before) { tosend = b' ' ∷ spaced (n ∷ ns) }) buffer
      ≡ answered (n ∷ ns) flags before buffer
unfolding reported answered wanted wants_headers
numbered i n ns flags before buffer a b =
    ap
      (λ r. record {
        tosend = r.1;
        missing_block_count = r.0;
        report_buffer = buffer;
        preamble_detected_flag = before;
      })
      (ap reformat_missing_blocks (append-nil (b' ' ∷ spaced (n ∷ ns))) ∙ reads_blank i n ns a b)

pub answers_each :
    (hash : List ℕ) (ms : List ℕ) (flags : ℕ) (before : Bool) (buffer : List ℕ)
    → length hash ≡ 4
    → IsClearOf b'P' hash
    → IsAscending 0 ms
    → All (λ k. k < 10 ^ 8) ms
    → IsAnswered hash ms flags before buffer
unfolding IsAnswered or_word spaced
answers_each hash [] zero before buffer e h a b = (
  _,
  take_numbers_lem (nothing_yet before) hash (codes "CONFIRMED") e h
      (refl, (refl, (refl, (refl, (refl, (refl, (refl, (refl, (refl, tt))))))))),
  confirmed before buffer,
)
answers_each hash [] (suc flags) before buffer e h a b =
    (_, preamble_taken (nothing_yet before) hash h, headers_only before flags buffer)
answers_each hash (m ∷ ms) flags before buffer e h a b = (
  _,
  ap (λ t. take_numbers (nothing_yet before) (braced hash t)) (numbers_stay m ms flags)
      ∙ take_numbers_lem (nothing_yet before) hash (spaced (m ∷ ms)) e h
          (spaced-lacks b'P' (m ∷ ms) refl refl),
  numbered 0 m ms flags before buffer a b,
)
