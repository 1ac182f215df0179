-- ===== src/Amp/Incoming/Single.antt =====
-- A buffer that holds one report.
use flimg.Prelude.{ℕ, suc, ◌^◌, ◌<◌, ◌≡◌, refl, arith, true, false, List, [], ◌∷◌, ◌++◌, none, some}
use flimg.Prelude.{All, All-append, length, drop, ◌==◌, codes}
use flimg.Cstd.{find_text, starts_with, found_behind, print_nat, print_int}
use flimg.Cstd.Decimal.{to_int-pos}
use flimg.Crc16.{scrc16, hex_digit}
use flimg.Amp.{RxAmp, frame}
use flimg.Amp.Headers.{braced}
use flimg.Amp.Headers.Words.{scrc16-IsPlain}
use flimg.Amp.Reports.{rx_report, report_body}
use flimg.Amp.Incoming.{sz_missing, sz_preamble, Taken, take_numbers, take_report, report_loop}
use flimg.Amp.Incoming.Text.{lacks_text, IsNoHex, scrc16-lacks, print_nat-lacks}
use flimg.Amp.Incoming.Report.{tail_of, reads_held, body_inside}

-- The text has no `n`.
abbrev pub IsClearOf : ℕ → List ℕ → Type 0
IsClearOf n s = All (λ c. (n == c) ≡ false) s

pub other_lt : IsNoHex b'<'
unfolding hex_digit
other_lt d h = ground arith

pub other_gt : IsNoHex b'>'
unfolding hex_digit
other_gt d h = ground arith

pub other_p : IsNoHex b'P'
unfolding hex_digit
other_p d h = ground arith

hash_without_p : (s : List ℕ) → IsClearOf b'P' (scrc16 s)
hash_without_p s = scrc16-lacks b'P' s other_p

hash_without_lt : (s : List ℕ) → IsClearOf b'<' (scrc16 s)
hash_without_lt s = scrc16-lacks b'<' s other_lt

pub braced_without :
    (n : ℕ) (hash body : List ℕ)
    → (n == b'{') ≡ false
    → (n == b'}') ≡ false
    → IsClearOf n hash
    → IsClearOf n body
    → IsClearOf n (braced hash body)
unfolding braced
braced_without n hash body first close h b =
    (first, All-append (λ c. (n == c) ≡ false) hash (b'}' ∷ body) h (close, b))

pub length-scrc16 : (s : List ℕ) → length (scrc16 s) ≡ 4
unfolding scrc16
length-scrc16 s = refl

no_second :
    (n : ℕ) (crc held : List ℕ)
    → IsClearOf b'<' crc
    → IsClearOf b'<' held
    → find_text sz_missing (drop 2 (sz_missing ++ tail_of n crc held)) ≡ none
unfolding tail_of
no_second n crc held c h =
    let q : ℕ → Type 0 = λ x. (b'<' == x) ≡ false in
    lacks_text b'<' (codes "MISSING ") _ (
      refl,
      (
        refl,
        (
          refl,
          (
            refl,
            (
              refl,
              (
                refl,
                (
                  refl,
                  All-append q (print_nat n) (b' ' ∷ (crc ++ b'>' ∷ (held ++ 10 ∷ [])))
                      (print_nat-lacks b'<' n refl)
                      (
                        refl,
                        All-append q crc (b'>' ∷ (held ++ 10 ∷ [])) c
                            (refl, All-append q held (10 ∷ []) h (refl, tt)),
                      ),
                ),
              ),
            ),
          ),
        ),
      ),
    )

pub one_report :
    (xmthash held : List ℕ) (fuel : ℕ) (st next : Taken)
    → IsClearOf b'<' held
    → take_report xmthash st held (scrc16 held) ≡ some next
    → let text : List ℕ = sz_missing ++ tail_of (length held) (scrc16 held) held in
      report_loop xmthash (suc fuel) 0 text st ≡ some (next, text)
unfolding report_loop found_behind
one_report xmthash held fuel st next h e =
    rw
      (
        reads_held (length held) (scrc16 held) held (length-scrc16 held) (scrc16-IsPlain held)
            xmthash st refl (scrc16-lacks b'>' held other_gt),
        e,
        no_second (length held) (scrc16 held) held (hash_without_lt held) h,
        report_loop,
      )
      refl

pub rx_report_lem :
    (rx : RxAmp)
    → length (braced rx.rxhash (report_body rx)) < 2 ^ 31
    → let held = braced rx.rxhash (report_body rx) in
      rx_report rx ≡ sz_missing ++ tail_of (length held) (scrc16 held) held
unfolding rx_report frame tail_of braced print_int
rx_report_lem rx h = rw (to_int-pos (length (braced rx.rxhash (report_body rx))) h) refl

pub take_numbers_lem :
    (st : Taken) (hash body : List ℕ)
    → length hash ≡ 4
    → IsClearOf b'P' hash
    → IsClearOf b'P' body
    → take_numbers st (braced hash body) ≡ some (record st { tosend = st.tosend ++ b' ' ∷ body })
unfolding take_numbers
take_numbers_lem st hash body e h b =
    rw
      (
        lacks_text b'P' (codes "REAMBLE") (braced hash body)
            (braced_without b'P' hash body refl refl h b),
        body_inside hash body e,
        take_numbers,
      )
      refl

found_late :
    (n : ℕ) (ns xs s : List ℕ) (p : ℕ)
    → IsClearOf n xs
    → find_text (n ∷ ns) s ≡ some p
    → (q : ℕ) × (find_text (n ∷ ns) (xs ++ s) ≡ some q)
unfolding find_text starts_with
found_late n ns [] s p a e = (p, e)
found_late n ns (x ∷ xs) s p (h, a) e =
    let (q, f) = found_late n ns xs s p a e in (suc q, rw (h, f) refl)

pub preamble_taken :
    (st : Taken) (hash : List ℕ)
    → IsClearOf b'P' hash
    → take_numbers st (braced hash sz_preamble)
      ≡ some (record st { preamble_block = codes " 0"; preamble_detected_flag = true })
unfolding take_numbers braced find_text starts_with
preamble_taken st hash h =
    let (q, f) =
      found_late b'P' (codes "REAMBLE") (b'{' ∷ hash) (b'}' ∷ sz_preamble) 1 (refl, h) refl in
    rw (f, take_numbers) refl
