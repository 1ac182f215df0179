-- ===== src/Receive/Parsing.antt =====
-- A frame in an empty buffer is read as the line that it was made from.
use flimg.Prelude.{
  ℕ, suc, ◌+◌, ◌≤◌, ◌≡◌, refl, sym, ap, ◌∙◌, arith, true, false, List, [], ◌∷◌, ◌++◌, none, some,
  append_assoc,
}
use flimg.Prelude.{
  All, All-append, length, length-append, take, drop, take_all, drop_append, drop_add, drop_all,
  drop_behind, ltb, ◌==◌,
}
use flimg.Cstd.{is_digit, pos, find_char, find_text, found_behind, print_nat}
use flimg.Cstd.Decimal.{print_nat-cons}
use flimg.Cstd.Finding.{find_text-append, find_text-Absent}
use flimg.Crc16.{scrc16}
use flimg.Amp.{RxAmp}
use flimg.Amp.Blocks.{find_char_behind}
use flimg.Amp.Headers.{
  LineType, file_line, id_line, dttm_line, size_line, desc_line, data_line, prog_line, cntl_line,
  rx_parse_line,
}
use flimg.Amp.Headers.Words.{scan_int_rest-print_nat, scrc16-IsPlain}
use flimg.Amp.Incoming.{fits, report_data}
use flimg.Amp.Incoming.Text.{IsNoHex, scrc16-lacks, print_nat-lacks}
use flimg.Amp.Incoming.Report.{word_first, turned}
use flimg.Amp.Incoming.Single.{length-scrc16, other_lt, other_gt}
use flimg.Receive.Growing.{rx_parse_line-IsGrown}
use flimg.Receive.{
  ltypes, scan_length, exceeds, erased, ends, take_line, look_at, look, parse_loop, rx_parse_buffer,
}
use flimg.Receive.Layout.{
  passed_frame, earlier, later, line_types_lem, IsFramed, Differ, earlier-Differ, Lacks, Absent-tag,
}

-- A character that stands in no number, blank or CRC.
abbrev IsOther : ℕ → Type 0
IsOther n = (is_digit n ≡ false) × ((n == b' ') ≡ false) × IsNoHex n

module _ (text : List ℕ) where
  -- What stands between the tag and the bracket.
  front : List ℕ
  front = print_nat (length text) ++ b' ' ∷ scrc16 text

  behind_tag : List ℕ
  behind_tag = print_nat (length text) ++ b' ' ∷ (scrc16 text ++ b'>' ∷ text)

  in_front : behind_tag ≡ front ++ b'>' ∷ text
  unfolding front behind_tag
  in_front = simp append_assoc refl

  front-lacks : (n : ℕ) → IsOther n → All (λ c. (n == c) ≡ false) front
  unfolding front
  front-lacks n (a, b, c) =
      All-append (λ c. (n == c) ≡ false) (print_nat (length text)) (b' ' ∷ scrc16 text)
        (print_nat-lacks n (length text) a) (b, scrc16-lacks n text c)

  IsOther-bracket : IsOther b'>'
  IsOther-bracket = (refl, refl, other_gt)

  IsOther-tag : IsOther b'<'
  IsOther-tag = (refl, refl, other_lt)

  cut : (tag : List ℕ) → passed_frame tag text ≡ (tag ++ (front ++ b'>' ∷ [])) ++ text
  unfolding passed_frame front
  cut tag = simp append_assoc refl

  pub header : LineType → List ℕ
  header t = ltypes t ++ (front ++ b'>' ∷ [])

  -- Another tag is found where it stands in the text.
  pub found_inside :
      (t e : LineType)
      → Differ t e
      → find_text (ltypes e) (passed_frame (ltypes t) text)
        ≡ found_behind (length (header t)) (find_text (ltypes e) text)
  unfolding Lacks header
  found_inside t e d =
      ap (find_text (ltypes e)) (cut (ltypes t))
      ∙ find_text-Absent (ltypes e) (header t) text (
          Absent-tag t e (front ++ b'>' ∷ []) text d
            (All-append Lacks front (b'>' ∷ []) (front-lacks b'<' IsOther-tag) (refl, tt)))

  pub behind_header :
      (t : LineType) (p : ℕ)
      → drop (length (header t) + p) (passed_frame (ltypes t) text) ≡ drop p text
  unfolding header
  behind_header t p =
      ap (drop (length (ltypes t ++ (front ++ b'>' ∷ [])) + p)) (cut (ltypes t))
      ∙ drop_add (length (ltypes t ++ (front ++ b'>' ∷ []))) p _
      ∙ ap (drop p) (drop_append (ltypes t ++ (front ++ b'>' ∷ [])) text)

  not_found :
      (t e : LineType)
      → Differ t e
      → find_text (ltypes e) text ≡ none
      → find_text (ltypes e) (passed_frame (ltypes t) text) ≡ none
  unfolding found_behind
  not_found t e d h = found_inside t e d ∙ ap (found_behind (length (header t))) h

  scan_length_lem : scan_length behind_tag ≡ some (pos (length text), scrc16 text)
  unfolding scan_length behind_tag
  scan_length_lem =
      rw
        (
          scan_int_rest-print_nat (length text) (b' ' ∷ (scrc16 text ++ b'>' ∷ text)) refl,
          word_first (scrc16 text) (b'>' ∷ text) (length-scrc16 text) (scrc16-IsPlain text),
          scan_length,
        )
        refl

  closed_at : find_char b'>' behind_tag ≡ some (length front)
  closed_at =
      ap (find_char b'>') in_front
      ∙ find_char_behind b'>' front text (turned b'>' front (front-lacks b'>' IsOther-bracket))

  module _ (tag : List ℕ) where
    behind_bracket : drop (length tag + length front + 1) (tag ++ behind_tag) ≡ text
    behind_bracket =
        ap (λ t. drop (length tag + length front + 1) (tag ++ t)) in_front
        ∙ ap (λ t. drop (length tag + length front + 1) t)
            (sym (append_assoc tag front (b'>' ∷ text)))
        ∙ ap (λ n. drop n ((tag ++ front) ++ b'>' ∷ text)) together
        ∙ drop_behind (tag ++ front) b'>' text
      where
        together : length tag + length front + 1 ≡ suc (length (tag ++ front))
        together = omega (arith, length-append {0} tag front)

    data_in : report_data (length tag + length front) (pos (length text)) (tag ++ behind_tag) ≡ text
    unfolding report_data
    data_in = ap (take (length text)) behind_bracket ∙ take_all (length text) text (omega arith)

    whole_length : length (tag ++ behind_tag) ≡ length tag + length front + 1 + length text
    whole_length = omega (
      arith,
      length-append {0} tag behind_tag,
      ap length in_front,
      length-append {0} front (b'>' ∷ text),
    )

    fits_in :
        fits (length tag + length front) (pos (length text)) (length (tag ++ behind_tag)) ≡ true
    unfolding fits
    fits_in = let size = whole_length in ground arith

    nothing_left : erased (length tag + length front) (pos (length text)) (tag ++ behind_tag) ≡ []
    unfolding erased
    nothing_left =
        drop_all (length tag + length front + 1 + length text) (tag ++ behind_tag)
          (omega (arith, whole_length))

  module _ (t : LineType) (rx next : RxAmp) (held : rx.rxbuffer ≡ ltypes t ++ behind_tag)
      (fitting : length text ≤ 2054)
      (parsed : rx_parse_line rx t (scrc16 text) text ≡ some next) where
    place : ℕ
    place = length (ltypes t) + length front

    taken :
        take_line t (scrc16 text) place (pos (length text)) rx
        ≡ ends (some (record next { rxbuffer = [] }))
    unfolding take_line place
    taken =
        let read = ap (report_data place (pos (length text))) held ∙ data_in (ltypes t) in
        let same = (rx_parse_line-IsGrown rx t (scrc16 text) text next parsed).same_buffer in
        rw (read, parsed, take_line)
          (ap (λ b. ends (some (record next { rxbuffer = b })))
            (ap (erased place (pos (length text))) (same ∙ held) ∙ nothing_left (ltypes t)))

    not_long : exceeds (pos (length text)) ≡ false
    unfolding exceeds
    not_long = ground arith

    looked_at : look_at t rx ≡ ends (some (record next { rxbuffer = [] }))
    unfolding look_at found_behind place
    looked_at =
        let behind : drop (length (ltypes t)) rx.rxbuffer ≡ behind_tag =
          ap (drop (length (ltypes t))) held ∙ drop_append (ltypes t) behind_tag in
        let fit : fits place (pos (length text)) (length rx.rxbuffer) ≡ true =
          ap (λ b. fits place (pos (length text)) (length b)) held ∙ fits_in (ltypes t) in
        let scanned = ap scan_length behind ∙ scan_length_lem in
        let closed = ap (find_char b'>') behind ∙ closed_at in
        rw (scanned, not_long, closed, fit, look_at) taken

    looked : look t rx ≡ ends (some (record next { rxbuffer = [] }))
    unfolding look
    looked =
        let first : find_text (ltypes t) rx.rxbuffer ≡ some 0 =
          ap (find_text (ltypes t)) held ∙ find_text-append (ltypes t) behind_tag in
        rw (first, look) looked_at

pub not_less : (a b : ℕ) → b ≤ a → ltb a b ≡ false
not_less a b h = ground arith

tag_length : (t : LineType) → 4 ≤ length (ltypes t)
unfolding ltypes
tag_length file_line = omega arith
tag_length id_line = omega arith
tag_length dttm_line = omega arith
tag_length size_line = omega arith
tag_length desc_line = omega arith
tag_length data_line = omega arith
tag_length prog_line = omega arith
tag_length cntl_line = omega arith

front_length : (text : List ℕ) → 6 ≤ length (front text)
unfolding front
front_length text =
    let (c, cs, e, d) = print_nat-cons (length text) in
    omega (
      arith,
      ap length e,
      length-append {0} (print_nat (length text)) (b' ' ∷ scrc16 text),
      length-scrc16 text,
    )

pub frame_long :
    (t : LineType) (text : List ℕ) → 5 ≤ length text → 16 ≤ length (passed_frame (ltypes t) text)
unfolding passed_frame behind_tag
frame_long t text long =
    omega (arith, tag_length t, front_length text, whole_length text (ltypes t))

skips :
    (es ts : List LineType) (rx : RxAmp)
    → All (λ e. find_text (ltypes e) rx.rxbuffer ≡ none) es
    → parse_loop (es ++ ts) rx ≡ parse_loop ts rx
unfolding parse_loop look
skips [] ts rx a = refl
skips (e ∷ es) ts rx (h, a) = rw (h, look, parse_loop) (skips es ts rx a)

each_not_found :
    (t : LineType) (text : List ℕ) (rx : RxAmp) (es : List LineType)
    → rx.rxbuffer ≡ passed_frame (ltypes t) text
    → All (Differ t) es
    → All (λ e. find_text (ltypes e) text ≡ none) es
    → All (λ e. find_text (ltypes e) rx.rxbuffer ≡ none) es
each_not_found t text rx [] held d a = tt
each_not_found t text rx (e ∷ es) held (de, d) (h, a) =
    (ap (find_text (ltypes e)) held ∙ not_found text t e de h, each_not_found t text rx es held d a)

-- A whole frame in the buffer: it is read as its line, and leaves the buffer empty.
pub rx_parse_buffer-frame :
    (t : LineType) (text : List ℕ) (rx next : RxAmp)
    → IsFramed t text
    → rx.rxbuffer ≡ passed_frame (ltypes t) text
    → rx_parse_line rx t (scrc16 text) text ≡ some next
    → rx_parse_buffer rx ≡ some (record next { rxbuffer = [] })
unfolding rx_parse_buffer passed_frame behind_tag
rx_parse_buffer-frame t text rx next framed held parsed =
    let long : ltb (length rx.rxbuffer) 16 ≡ false =
      not_less (length rx.rxbuffer) 16
        (omega (arith, ap length held, frame_long t text framed.long)) in
    rw (long, rx_parse_buffer)
      (ap (λ ts. parse_loop ts rx) (line_types_lem t)
        ∙ skips (earlier t) (t ∷ later t) rx
            (each_not_found t text rx (earlier t) held (earlier-Differ t) framed.untagged)
        ∙ unfold parse_loop in
          rw (looked text t rx next held framed.fitting parsed, parse_loop) refl)
