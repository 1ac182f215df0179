-- ===== src/Frames/Passing.antt =====
-- A frame at the front of the ring is passed on.
use flimg.Prelude.{
  ℕ, zero, suc, ◌-◌, ◌%◌, ◌^◌, ◌≤◌, ◌<◌, ◌≡◌, ◌≢◌, refl, sym, ap, ◌∙◌, arith, Bool, true, false,
  ◌||◌, List, [], ◌∷◌, ◌++◌, some, append_assoc, append-nil, min,
}
use flimg.Prelude.{
  All, All-append, leb, ltb, ◌==◌, ==_refl, take, drop, length, take_append, drop_append, codes,
  if◌then◌else◌,
}
use flimg.Cstd.{print_nat, print_int}
use flimg.Crc16.{crc16, scrc16}
use flimg.Amp.{same_text, frame}
use flimg.Amp.Incoming.Text.{print_nat-lacks, scrc16-lacks}
use flimg.Amp.Incoming.Single.{other_gt}
use flimg.CircularQueue.{
  CircularQueue, read_que_data, adjust_locked, adjust_read_que_index, look_ahead_to_terminator,
  look_ahead_crc,
}
use flimg.CircularQueue.Valid.{IsValid, read_que_data-IsValid, adjust_locked-IsValid}
use flimg.CircularQueue.Contents.{
  contents, room, non_null, contents-adjust_locked, contents-read_que_data,
}
use flimg.CircularQueue.Search.{
  until, until_found, look_ahead_to_terminator_lem, look_ahead_crc_lem,
}
use flimg.CircularQueue.Trace.{crc-IsValid}
use flimg.Frames.{
  arriving, ends_tag, bounded, tag_loop, data_loop, passed, hand_over, read_frame, process_que,
}
use flimg.Frames.Tag.{IsName, tag_for, scan_tag-tag_for}

-- The ring afterwards: it is valid, and holds `s` and what has arrived.
unfoldable pub Holds : ℕ → List ℕ → CircularQueue → Type 0
Holds po2 s q = IsValid po2 q × ((extra : List ℕ) × (contents q ≡ s ++ extra))

looked-Holds :
    (po2 : ℕ) (q : CircularQueue) (s incoming : List ℕ) (count : ℕ)
    → Holds po2 s q
    → Holds po2 s (read_que_data q count incoming)
unfolding Holds
looked-Holds po2 q s incoming count (v, (extra, e)) =
    let come = if ltb count 32 then take (room q) (non_null incoming) else [] in
    (
      read_que_data-IsValid count incoming v,
      (
        extra ++ come,
        contents-read_que_data count incoming v ∙ ap (λ t. t ++ come) e ∙ append_assoc s extra come,
      ),
    )

adjust-Holds :
    (po2 : ℕ) (q : CircularQueue) (front s incoming : List ℕ)
    → 0 < length front
    → Holds po2 (front ++ s) q
    → Holds po2 s (adjust_read_que_index q (length front) incoming).1
unfolding Holds adjust_read_que_index
adjust-Holds po2 q [] s incoming p h = elim p [ ]
adjust-Holds po2 q (c ∷ cs) s incoming p (v, (extra, e)) =
    looked-Holds po2 (adjust_locked q (suc (length cs))) s incoming _ (
      adjust_locked-IsValid (suc (length cs)) v,
      (
        extra,
        contents-adjust_locked (suc (length cs)) v
            ∙ ap (drop (suc (length cs))) (e ∙ append_assoc (c ∷ cs) s extra)
            ∙ drop_append (c ∷ cs) (s ++ extra),
      ),
    )

take_over :
    (n : ℕ) (xs ys : List ℕ) → length xs ≤ n → take n (xs ++ ys) ≡ xs ++ take (n - length xs) ys
take_over n [] ys h = ap (λ k. take k ys) (omega arith)
take_over zero (x ∷ xs) ys h = absurd (omega arith)
take_over (suc n) (x ∷ xs) ys h =
    ap (λ t. x ∷ t) (take_over n xs ys (omega arith) ∙ ap (λ k. xs ++ take k ys) (omega arith))

absent_in : (n : ℕ) (s : List ℕ) → All (λ c. (n == c) ≡ false) s → All (λ c. c ≢ n) s
absent_in n [] a = tt
absent_in n (c ∷ cs) (h, a) = (ground arith, absent_in n cs a)

ends_tag-close : (s : List ℕ) → ends_tag (s ++ b'>' ∷ []) ≡ true
unfolding ends_tag
ends_tag-close [] = refl
ends_tag-close (c ∷ []) = refl
ends_tag-close (c ∷ d ∷ ds) = ends_tag-close (d ∷ ds)

-- A tag up to its last character.
open_tag : List ℕ → List ℕ → List ℕ
open_tag name text = b'<' ∷ (name ++ b' ' ∷ (print_nat (length text) ++ b' ' ∷ scrc16 text))

tag_for-open_tag : (name text : List ℕ) → tag_for name text ≡ open_tag name text ++ b'>' ∷ []
unfolding tag_for open_tag
tag_for-open_tag name text =
    let n = print_nat (length text) in
    ap (λ t. b'<' ∷ t)
      (ap (λ t. name ++ b' ' ∷ t) (sym (append_assoc n (b' ' ∷ scrc16 text) (b'>' ∷ [])))
        ∙ sym (append_assoc name (b' ' ∷ (n ++ b' ' ∷ scrc16 text)) (b'>' ∷ [])))

open_tag-open :
    (name text : List ℕ) → IsName name → All (λ c. (b'>' == c) ≡ false) (open_tag name text)
unfolding open_tag
open_tag-open name text n =
    let behind = print_nat (length text) ++ b' ' ∷ scrc16 text in
    (
      refl,
      All-append (λ c. (b'>' == c) ≡ false) name (b' ' ∷ behind) n.open_
          (
            refl,
            All-append (λ c. (b'>' == c) ≡ false) (print_nat (length text)) (b' ' ∷ scrc16 text)
                (print_nat-lacks b'>' (length text) refl) (refl, scrc16-lacks b'>' text other_gt),
          ),
    )

-- What a look-ahead of `n` bytes to the end of a tag puts out.
tag_seen :
    (n : ℕ) (name text rest : List ℕ)
    → IsName name
    → length (tag_for name text) ≤ n
    → until b'>' (take n (tag_for name text ++ rest)) ≡ tag_for name text
tag_seen n name text rest i h =
    let start = open_tag name text in
    let tail = take (n - length (tag_for name text)) rest in
    ap (until b'>') (
      take_over n (tag_for name text) rest h
      ∙ ap (λ t. t ++ tail) (tag_for-open_tag name text)
      ∙ append_assoc start (b'>' ∷ []) tail)
    ∙ until_found b'>' start tail (absent_in b'>' start (open_tag-open name text i))
    ∙ sym (tag_for-open_tag name text)

tag_for-closed : (name text : List ℕ) → ends_tag (tag_for name text) ≡ true
tag_for-closed name text =
    ap ends_tag (tag_for-open_tag name text) ∙ ends_tag-close (open_tag name text)

crc-Holds :
    (po2 n : ℕ) (q : CircularQueue) (s d : List ℕ)
    → Holds po2 s q
    → Holds po2 s (look_ahead_crc q n true 0 d).2
unfolding look_ahead_crc Holds
crc-Holds po2 zero q s d h = h
crc-Holds po2 (suc n) q s d (v, (extra, e)) = looked-Holds po2 _ s d _ (crc-IsValid _ v, (extra, e))

crc_looked :
    {po2 : ℕ} (n : ℕ) (q : CircularQueue) (d : List ℕ)
    → IsValid po2 q
    → 0 < n
    → ((look_ahead_crc q n true 0 d).0 ≡ take n (contents q))
      × ((look_ahead_crc q n true 0 d).1 ≡ crc16 (take n (contents q)))
crc_looked zero q d v p = absurd (omega arith)
crc_looked (suc n) q d v p = look_ahead_crc_lem n 0 d v

or_true : (b : Bool) → (b || true) ≡ true
or_true true = refl
or_true false = refl

module _ (po2 : ℕ) (name text : List ℕ) (i : IsName name) where
  -- The first loop ends at once.
  tag_found :
      (q : CircularQueue) (s d : List ℕ) (more : List (List ℕ))
      → Holds po2 (tag_for name text ++ s) q
      → length (tag_for name text) ≤ 20
      → tag_loop q (d ∷ more) ≡ record {
        got = some (tag_for name text);
        ring = (look_ahead_to_terminator q b'>' 20 d).1;
        rest = more;
      }
  unfolding tag_loop Holds
  tag_found q s d more (v, (extra, e)) h =
      let seen =
        look_ahead_to_terminator_lem b'>' 20 d v (omega arith)
        ∙ ap (λ t. until b'>' (take 20 t)) (e ∙ append_assoc (tag_for name text) s extra)
        ∙ tag_seen 20 name text (s ++ extra) i h in
      rw (seen, tag_for-closed name text, or_true (leb 20 (length (tag_for name text)))) refl

  -- So does the second.
  data_found :
      (q : CircularQueue) (s d : List ℕ) (more : List (List ℕ))
      → Holds po2 (text ++ s) q
      → 0 < length text
      → data_loop (length text) q (d ∷ more) ≡ record {
        got = some (text, crc16 text);
        ring = (look_ahead_crc q (length text) true 0 d).2;
        rest = more;
      }
  unfolding data_loop Holds
  data_found q s d more (v, (extra, e)) some_text =
      let (front, fit) = crc_looked (length text) q d v some_text in
      let held =
        ap (take (length text)) (e ∙ append_assoc text s extra) ∙ take_append text (s ++ extra) in
      let whole : leb (length text) (length text) ≡ true = ground arith in
      rw (front ∙ held, fit ∙ ap crc16 held, whole) refl

  after_tag :
      (q : CircularQueue) (s d : List ℕ)
      → Holds po2 s q
      → Holds po2 s (look_ahead_to_terminator q b'>' 20 d).1
  unfolding look_ahead_to_terminator
  after_tag q s d h = looked-Holds po2 q s d _ h

  after_data :
      (q : CircularQueue) (s d : List ℕ)
      → Holds po2 s q
      → Holds po2 s (look_ahead_crc q (length text) true 0 d).2
  after_data q s d h = crc-Holds po2 (length text) q s d h

  handed_over :
      (q : CircularQueue) (s d : List ℕ) (more : List (List ℕ))
      → Holds po2 (text ++ s) q
      → 0 < length text
      → (next : CircularQueue) × (hand_over
            (tag_for name text)
            name
            (crc16 text)
            (data_loop (length text) q (d ∷ more))
          ≡ passed (same_text name (codes "MISSING")) (tag_for name text ++ text) next)
        × Holds po2 s next
  unfolding hand_over
  handed_over q s d more h some_text =
      let ring = (look_ahead_crc q (length text) true 0 d).2 in
      (
        (adjust_read_que_index ring (length text) (arriving more)).1,
        ap (hand_over (tag_for name text) name (crc16 text)) (data_found q s d more h some_text)
            ∙ rw (==_refl (crc16 text)) refl,
        adjust-Holds po2 ring text s (arriving more) some_text (after_data q (text ++ s) d h),
      )

  frame_read :
      (q : CircularQueue) (s d : List ℕ) (more : List (List ℕ))
      → 0 < length text
      → length text ≤ 2175
      → read_frame (record { got = some (tag_for name text); ring = q; rest = d ∷ more })
        ≡ hand_over (tag_for name text) name (crc16 text) (
            data_loop (length text) (adjust_read_que_index q (length (tag_for name text)) d).1 more)
  unfolding read_frame arriving bounded
  frame_read q s d more some_text short =
      let count : min (length text) 2175 ≡ length text = omega arith in
      let held : (length text == 0) ≡ false = ground arith in
      rw (tag_for-closed name text, scan_tag-tag_for name text i, count, held) refl

  frame-tag_for :
      (rest : List ℕ)
      → length text ≤ 2175
      → frame (b'<' ∷ (name ++ b' ' ∷ [])) text ++ rest ≡ tag_for name text ++ (text ++ 10 ∷ rest)
  unfolding frame tag_for print_int
  frame-tag_for rest short =
      let small : length text % 2 ^ 32 ≡ length text = omega arith in
      let signed : ltb (length text) (2 ^ 31) ≡ true = ground arith in
      rw (small, signed) (simp append_assoc)

-- A frame as the headers of the sender print it, at the front of a valid ring, is passed on by one
-- call of `process_que`, whatever is delivered during three callbacks and after them: to the
-- reports exactly if its tag is MISSING, and without its line feed, which stays in front of what
-- the ring held behind the frame and of what has arrived. The name in the tag is of 1 to 31
-- characters without blanks and `>`, the tag is of 20 characters at most, and the text is of 1 to
-- 2175 bytes.
pub process_que-passes :
    (po2 : ℕ) (q : CircularQueue) (name text rest d1 d2 d3 : List ℕ) (more : List (List ℕ))
    → IsValid po2 q
    → IsName name
    → 0 < length text
    → length text ≤ 2175
    → length (tag_for name text) ≤ 20
    → contents q ≡ frame (b'<' ∷ (name ++ b' ' ∷ [])) text ++ rest
    → (next : CircularQueue) × (process_que q (d1 ∷ d2 ∷ d3 ∷ more)
        ≡ passed (same_text name (codes "MISSING")) (tag_for name text ++ text) next)
      × Holds po2 (10 ∷ rest) next
unfolding process_que Holds tag_for
process_que-passes po2 q name text rest d1 d2 d3 more v i some_text short fits e =
    let tag = tag_for name text in
    let behind = text ++ 10 ∷ rest in
    let start : Holds po2 (tag ++ behind) q =
      (v, ([], e ∙ frame-tag_for po2 name text i rest short ∙ sym (append-nil (tag ++ behind)))) in
    let ring = (look_ahead_to_terminator q b'>' 20 d1).1 in
    let moved =
      adjust-Holds po2 ring tag behind d2 (omega arith)
        (after_tag po2 name text i q (tag ++ behind) d1 start) in
    let (next, result, held) =
      handed_over po2 name text i (adjust_read_que_index ring (length tag) d2).1 (10 ∷ rest) d3 more
        moved some_text in
    (
      next,
      ap read_frame (tag_found po2 name text i q behind d1 (d2 ∷ d3 ∷ more) start fits)
          ∙ frame_read po2 name text i ring (10 ∷ rest) d2 (d3 ∷ more) some_text short
          ∙ result,
      held,
    )
