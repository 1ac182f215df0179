-- ===== src/Receive/Scanning.antt =====
-- The hash that `process_data_stream` reads in a frame.
use flimg.Prelude.{
  ℕ, ◌≡◌, refl, ap, ◌∙◌, arith, true, false, List, [], ◌∷◌, ◌++◌, some, append_assoc,
}
use flimg.Prelude.{All, All-append, length, ◌==◌}
use flimg.Cstd.{c_str, is_digit, print_nat, take_word, skip_spaces}
use flimg.Crc16.{scrc16}
use flimg.Amp.Headers.{
  LineType, file_line, id_line, dttm_line, size_line, desc_line, data_line, prog_line, cntl_line,
  some_word,
}
use flimg.Amp.Headers.Words.{
  IsPlain, IsWord, scan_int_rest-print_nat, scan_int_rest-blank, scrc16-IsPlain,
}
use flimg.Cstd.Decimal.{print_nat-IsDigit}
use flimg.Amp.Incoming.Report.{word_first}
use flimg.Amp.Incoming.Single.{length-scrc16}
use flimg.Receive.{ltypes, scan_mark, scan_numbers, scan_frame}
use flimg.Receive.Layout.{passed_frame}

scan_frame-ltypes :
    (t : LineType) (rest : List ℕ) → scan_frame (ltypes t ++ rest) ≡ scan_numbers (b' ' ∷ rest)
unfolding scan_frame ltypes take_word skip_spaces some_word
scan_frame-ltypes file_line rest = refl
scan_frame-ltypes id_line rest = refl
scan_frame-ltypes dttm_line rest = refl
scan_frame-ltypes size_line rest = refl
scan_frame-ltypes desc_line rest = refl
scan_frame-ltypes data_line rest = refl
scan_frame-ltypes prog_line rest = refl
scan_frame-ltypes cntl_line rest = refl

scan_mark-braced :
    (hash rest : List ℕ) → IsWord hash → scan_mark (b'>' ∷ b'{' ∷ (hash ++ rest)) ≡ some hash
unfolding scan_mark skip_spaces
scan_mark-braced hash rest (h, plain) = rw (word_first hash rest h.0 plain, scan_mark) refl

scan_numbers-frame :
    (n : ℕ) (crc rest : List ℕ)
    → length crc ≡ 4
    → All IsPlain crc
    → scan_numbers (b' ' ∷ (print_nat n ++ b' ' ∷ (crc ++ rest))) ≡ scan_mark rest
unfolding scan_numbers
scan_numbers-frame n crc rest e plain =
    rw
      (
        scan_int_rest-blank (print_nat n ++ b' ' ∷ (crc ++ rest)),
        scan_int_rest-print_nat n (b' ' ∷ (crc ++ rest)) refl,
        word_first crc rest e plain,
        scan_numbers,
      )
      refl

-- The C string of a text that begins without zeros.
abbrev IsNonzero : ℕ → Type 0
IsNonzero c = (c == 0) ≡ false

c_str-append : (s rest : List ℕ) → All IsNonzero s → c_str (s ++ rest) ≡ s ++ c_str rest
unfolding c_str
c_str-append [] rest a = refl
c_str-append (c ∷ cs) rest (h, a) = rw h (ap (λ t. c ∷ t) (c_str-append cs rest a))

plain_set : (s : List ℕ) → All IsPlain s → All IsNonzero s
plain_set [] a = tt
plain_set (c ∷ cs) (h, a) = (ground arith, plain_set cs a)

digits_set : (s : List ℕ) → All (λ c. is_digit c ≡ true) s → All IsNonzero s
digits_set [] a = tt
digits_set (c ∷ cs) (h, a) = (ground arith, digits_set cs a)

ltypes_set : (t : LineType) → All IsNonzero (ltypes t)
unfolding ltypes
ltypes_set file_line = (refl, (refl, (refl, (refl, (refl, (refl, tt))))))
ltypes_set id_line = (refl, (refl, (refl, (refl, tt))))
ltypes_set dttm_line = (refl, (refl, (refl, (refl, (refl, (refl, tt))))))
ltypes_set size_line = (refl, (refl, (refl, (refl, (refl, (refl, tt))))))
ltypes_set desc_line = (refl, (refl, (refl, (refl, (refl, (refl, tt))))))
ltypes_set data_line = (refl, (refl, (refl, (refl, (refl, (refl, tt))))))
ltypes_set prog_line = (refl, (refl, (refl, (refl, (refl, (refl, tt))))))
ltypes_set cntl_line = (refl, (refl, (refl, (refl, (refl, (refl, tt))))))

module _ (t : LineType) (hash rest : List ℕ) (word : IsWord hash) where
  -- A text that begins with the hash.
  marked : List ℕ
  marked = b'{' ∷ (hash ++ rest)

  head_part : List ℕ
  head_part =
      ltypes t ++ (print_nat (length marked) ++ b' ' ∷ (scrc16 marked ++ b'>' ∷ b'{' ∷ hash))

  head_set : All IsNonzero head_part
  unfolding head_part
  head_set = All-append IsNonzero (ltypes t) _ (ltypes_set t) (
      All-append IsNonzero (print_nat (length marked)) _
        (digits_set (print_nat (length marked)) (print_nat-IsDigit (length marked)))
        (
          refl,
          All-append IsNonzero (scrc16 marked) _ (plain_set (scrc16 marked) (scrc16-IsPlain marked))
              (refl, (refl, plain_set hash word.1)),
        ))

  split_frame : passed_frame (ltypes t) marked ≡ head_part ++ rest
  unfolding passed_frame head_part marked
  split_frame = simp append_assoc refl

  spread :
      head_part ++ c_str rest
      ≡ ltypes t
        ++ (print_nat (length marked)
            ++ b' ' ∷ (scrc16 marked ++ b'>' ∷ b'{' ∷ (hash ++ c_str rest)))
  unfolding head_part
  spread = simp append_assoc refl

  -- The frame of such a text names its hash.
  pub scan_frame-passed_frame :
      scan_frame (c_str (passed_frame (ltypes t) (b'{' ∷ (hash ++ rest)))) ≡ some hash
  unfolding marked
  scan_frame-passed_frame =
      ap (λ s. scan_frame (c_str s)) split_frame
      ∙ ap scan_frame (c_str-append head_part rest head_set ∙ spread)
      ∙ scan_frame-ltypes t _
      ∙ scan_numbers-frame (length marked) (scrc16 marked) (b'>' ∷ b'{' ∷ (hash ++ c_str rest))
          (length-scrc16 marked) (scrc16-IsPlain marked)
      ∙ scan_mark-braced hash (c_str rest) word
