-- ===== src/Receive/Straying.antt =====
-- A block whose text holds the tag of a header is lost.
use flimg.Prelude.{ℕ, ◌+◌, ◌≤◌, ◌≡◌, refl, ap, ◌∙◌, arith, false, List, [], ◌∷◌, none, some}
use flimg.Prelude.{All, length, drop, ltb}
use flimg.Cstd.{find_text, found_behind, starts_with}
use flimg.Amp.{RxAmp}
use flimg.Amp.Headers.{LineType, file_line, data_line}
use flimg.Receive.{
  ltypes, line_types, scan_length, goes_on, look_at, look, parse_loop, rx_parse_buffer,
}
use flimg.Receive.Layout.{passed_frame, later, Differ}
use flimg.Receive.Parsing.{not_less, frame_long, header, found_inside, behind_header}

passes_over :
    (es : List LineType) (rx : RxAmp)
    → All (λ e. find_text (ltypes e) rx.rxbuffer ≡ none) es
    → parse_loop es rx ≡ some rx
unfolding parse_loop look
passes_over [] rx a = refl
passes_over (e ∷ es) rx (h, a) = rw (h, look, parse_loop) (passes_over es rx a)

differ : Differ data_line file_line
unfolding ltypes starts_with Differ
differ rest = refl

gives_up :
    (rx : RxAmp) (at : ℕ) (rest : List ℕ)
    → find_text (ltypes file_line) rx.rxbuffer ≡ some at
    → drop at rx.rxbuffer ≡ rest
    → scan_length (drop 6 rest) ≡ none
    → look file_line rx ≡ goes_on (record rx { rxbuffer = rest })
unfolding look look_at ltypes
gives_up rx at rest place left bare =
    let unread : scan_length (drop 6 (drop at rx.rxbuffer)) ≡ none =
      ap (λ b. scan_length (drop 6 b)) left ∙ bare in
    rw (place, look, unread, look_at) (ap (λ b. goes_on (record rx { rxbuffer = b })) left)

goes_through :
    (rx next : RxAmp)
    → look file_line rx ≡ goes_on next
    → All (λ e. find_text (ltypes e) next.rxbuffer ≡ none) (later file_line)
    → parse_loop line_types rx ≡ some next
unfolding parse_loop later
goes_through rx next e a = rw (e, parse_loop) (passes_over (later file_line) next a)

-- Take the frame of a block of at least five bytes in the buffer, with a file tag in the block's
-- text that no length and CRC follow, and no other tag behind it. `rx_parse_buffer` erases the
-- buffer up to that tag and reads nothing: the amp has neither the block nor anything else of it.
pub rx_parse_buffer-stray :
    (rx : RxAmp) (text : List ℕ) (p : ℕ)
    → rx.rxbuffer ≡ passed_frame (ltypes data_line) text
    → 5 ≤ length text
    → find_text (ltypes file_line) text ≡ some p
    → scan_length (drop 6 (drop p text)) ≡ none
    → All (λ t. find_text (ltypes t) (drop p text) ≡ none) (later file_line)
    → rx_parse_buffer rx ≡ some (record rx { rxbuffer = drop p text })
unfolding rx_parse_buffer
rx_parse_buffer-stray rx text p held long found bare alone =
    let at : ℕ = length (header text data_line) + p in
    let size : ltb (length rx.rxbuffer) 16 ≡ false =
      not_less (length rx.rxbuffer) 16
        (omega (arith, ap length held, frame_long data_line text long)) in
    let place : find_text (ltypes file_line) rx.rxbuffer ≡ some at =
      ap (find_text (ltypes file_line)) held
      ∙ found_inside text data_line file_line differ
      ∙ unfold found_behind in ap (found_behind (length (header text data_line))) found in
    let left : drop at rx.rxbuffer ≡ drop p text =
      ap (drop at) held ∙ behind_header text data_line p in
    rw (size, rx_parse_buffer)
      (goes_through rx (record rx { rxbuffer = drop p text })
        (gives_up rx at (drop p text) place left bare) alone)
