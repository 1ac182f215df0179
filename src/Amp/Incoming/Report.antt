-- ===== src/Amp/Incoming/Report.antt =====
-- `tx_parse_report` takes a report of `rx_report` as it was meant.
use flimg.Prelude.{
  ℕ, suc, ◌+◌, ◌≡◌, refl, sym, ap, ap₂, ◌∙◌, arith, true, false, List, [], ◌∷◌, ◌++◌, append_assoc,
  some,
}
use flimg.Prelude.{
  All, All-append, length, length-append, take, drop, ◌==◌, take_append, take_all, drop_behind,
}
use flimg.Cstd.{c_str, pos, find_char, found_behind, print_nat, skip_spaces, take_word}
use flimg.Crc16.{scrc16}
use flimg.Amp.{substr}
use flimg.Amp.Blocks.{find_char_behind, same_text_refl, substr_all}
use flimg.Amp.Headers.{braced, some_word}
use flimg.Amp.Headers.Words.{IsPlain, take_word-append, skip_spaces-plain, scan_int_rest-print_nat}
use flimg.Amp.Incoming.{
  sz_missing, Taken, scan_missing, fits, report_data, take_numbers, take_report, read_report,
}
use flimg.Amp.Incoming.Text.{print_nat-lacks}

-- The text of a report behind its tag: the length of what it holds, the CRC, and what it holds.
unfoldable pub tail_of : ℕ → List ℕ → List ℕ → List ℕ
tail_of n crc held = print_nat n ++ b' ' ∷ (crc ++ b'>' ∷ (held ++ 10 ∷ []))

pub turned : (n : ℕ) (s : List ℕ) → All (λ c. (n == c) ≡ false) s → All (λ c. (c == n) ≡ false) s
turned n [] a = tt
turned n (c ∷ cs) (h, a) = (ground arith, turned n cs a)

pub word_first :
    (crc rest : List ℕ)
    → length crc ≡ 4
    → All IsPlain crc
    → some_word (take_word 4 (skip_spaces (b' ' ∷ (crc ++ rest)))) ≡ some (crc, rest)
unfolding some_word skip_spaces
word_first [] rest e a = absurd (omega arith)
word_first (c ∷ cs) rest e (p, a) =
    ap (λ s. some_word (take_word 4 s)) (skip_spaces-plain c (cs ++ rest) p)
    ∙ ap (λ n. some_word (take_word n (c ∷ (cs ++ rest)))) (sym e)
    ∙ ap some_word (take_word-append (c ∷ cs) rest (p, a))

module _ (n : ℕ) (crc held : List ℕ) (e : length crc ≡ 4) (plain : All IsPlain crc) where
  scan_missing_lem : scan_missing (sz_missing ++ tail_of n crc held) ≡ some (pos n, crc)
  unfolding scan_missing tail_of
  scan_missing_lem =
      rw
        (
          scan_int_rest-print_nat n (b' ' ∷ (crc ++ b'>' ∷ (held ++ 10 ∷ []))) refl,
          word_first crc (b'>' ∷ (held ++ 10 ∷ [])) e plain,
          scan_missing,
        )
        refl

  -- Where the text in front of `>` ends.
  front : List ℕ
  front = print_nat n ++ b' ' ∷ crc

  in_front : tail_of n crc held ≡ front ++ b'>' ∷ (held ++ 10 ∷ [])
  unfolding front tail_of
  in_front = simp append_assoc refl

  closed_at :
      All (λ c. (b'>' == c) ≡ false) crc → find_char b'>' (tail_of n crc held) ≡ some (length front)
  unfolding front
  closed_at no_end =
      ap (find_char b'>') in_front
      ∙ find_char_behind b'>' front (held ++ 10 ∷ []) (
          turned b'>' front (
            All-append (λ c. (b'>' == c) ≡ false) (print_nat n) (b' ' ∷ crc)
              (print_nat-lacks b'>' n refl) (refl, no_end)))

  held_in :
      n ≡ length held
      → report_data (9 + length front) (pos n) (sz_missing ++ tail_of n crc held) ≡ held
  unfolding report_data
  held_in same =
      ap₂ (λ k t. take n (drop k (sz_missing ++ t))) behind_front in_front
      ∙ ap (take n) (drop_behind (sz_missing ++ front) b'>' (held ++ 10 ∷ []))
      ∙ ap (λ k. take k (held ++ 10 ∷ [])) same
      ∙ take_append held (10 ∷ [])
    where
      behind_front : 9 + length front + 1 ≡ suc (length (sz_missing ++ front))
      behind_front = omega arith

  fits_in :
      n ≡ length held
      → fits (9 + length front) (pos n) (length (sz_missing ++ tail_of n crc held)) ≡ true
  unfolding fits
  fits_in same =
      let size = ap length in_front in
      let parts = length-append front (b'>' ∷ (held ++ 10 ∷ [])) in
      let inner = length-append held (10 ∷ []) in ground arith

  -- The body of the loop gets what the report holds.
  pub reads_held :
      (xmthash : List ℕ) (st : Taken)
      → n ≡ length held
      → All (λ c. (b'>' == c) ≡ false) crc
      → read_report xmthash st (sz_missing ++ tail_of n crc held) ≡ take_report xmthash st held crc
  unfolding read_report found_behind
  reads_held xmthash st same no_end =
      rw (scan_missing_lem, closed_at no_end, fits_in same, read_report)
        (ap (λ t. take_report xmthash st t crc) (held_in same))

c_str-whole : (s : List ℕ) → All (λ c. (c == 0) ≡ false) s → c_str s ≡ s
unfolding c_str
c_str-whole [] a = refl
c_str-whole (c ∷ cs) (h, a) = rw h (ap (λ t. c ∷ t) (c_str-whole cs a))

hash_inside : (hash body : List ℕ) → length hash ≡ 4 → substr (braced hash body) 1 4 ≡ some hash
unfolding substr braced
hash_inside [] body e = absurd (omega arith)
hash_inside (a ∷ []) body e = absurd (omega arith)
hash_inside (a ∷ b ∷ []) body e = absurd (omega arith)
hash_inside (a ∷ b ∷ c ∷ []) body e = absurd (omega arith)
hash_inside (a ∷ b ∷ c ∷ d ∷ []) body e = ground arith
hash_inside (a ∷ b ∷ c ∷ d ∷ x ∷ rest) body e = absurd (omega arith)

pub body_inside :
    (hash body : List ℕ)
    → length hash ≡ 4
    → substr (braced hash body) 6 (length (braced hash body)) ≡ some body
unfolding substr braced
body_inside [] body e = absurd (omega arith)
body_inside (a ∷ []) body e = absurd (omega arith)
body_inside (a ∷ b ∷ []) body e = absurd (omega arith)
body_inside (a ∷ b ∷ c ∷ []) body e = absurd (omega arith)
body_inside (a ∷ b ∷ c ∷ d ∷ []) body e =
    let text : List ℕ = braced (a ∷ b ∷ c ∷ d ∷ []) body in
    substr_all text 6 (length text) (omega arith)
    ∙ ap some (take_all (length text) body (omega arith))
body_inside (a ∷ b ∷ c ∷ d ∷ x ∷ rest) body e = absurd (omega arith)

-- The checks pass for a report on this file.
pub takes_report :
    (hash body : List ℕ) (st : Taken)
    → length hash ≡ 4
    → All (λ c. (c == 0) ≡ false) (braced hash body)
    → take_report hash st (braced hash body) (scrc16 (braced hash body))
      ≡ take_numbers st (braced hash body)
unfolding take_report
takes_report hash body st e a =
    rw
      (
        hash_inside hash body e,
        same_text_refl hash,
        c_str-whole (braced hash body) a,
        same_text_refl (scrc16 (braced hash body)),
        take_report,
      )
      refl
