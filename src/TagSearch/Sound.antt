-- ===== src/TagSearch/Sound.antt =====
-- The parser makes its call only where the ring begins with a tag, and keeps the ring valid.
use flimg.Prelude.{
  ℕ, zero, suc, ◌-◌, ◌%◌, ◌≤◌, ◌≡◌, inl, inr, refl, sym, ap, ◌∙◌, arith, Bool, true, false, List,
  [], ◌∷◌, ◌++◌, map, some,
}
use flimg.Prelude.{leb, if◌then◌else◌, drop, take, length, length-take, get_elem?, Bool-cases}
use flimg.CircularQueue.{CircularQueue, look_ahead, look_ahead_for_character, read_que_data}
use flimg.CircularQueue.Valid.{IsValid, read_que_data-IsValid, adjust_read_que_index-IsValid}
use flimg.CircularQueue.Contents.{contents, contents-read_que_data, look_ahead_bytes-eq-take}
use flimg.Frames.{arriving}
use flimg.TagSearch.{
  search_tags, match_loop, is_listed, Shifted, shift_loop, Turn, advanced, inhibited, at_tag,
  look_at_tag, tag_turn,
}
use flimg.TagSearch.Match.{is_listed-IsListed}

-- The ring begins with the first four bytes of a tag of the table.
pub record IsAtTag (q : CircularQueue) : Type 0 where
  pub tag : List ℕ
  pub number : ℕ
  pub in_table : get_elem? search_tags number ≡ some tag
  pub same_start : map (λ c. c % 256) (take 4 (contents q)) ≡ take 4 tag

unfoldable pub IsSoundTurn : ℕ → Turn → Type 0
IsSoundTurn po2 (advanced q) = IsValid po2 q
IsSoundTurn po2 (inhibited q) = IsValid po2 q × IsAtTag q
IsSoundTurn po2 (at_tag q) = IsValid po2 q × IsAtTag q

-- What the wait ends with: at most four bytes, and four only if the ring begins with them.
record IsShifted (po2 : ℕ) (s : Shifted) : Type 0 where
  valid : IsValid po2 s.ring
  short : length s.bytes ≤ 4
  front : length s.bytes ≡ 4 → take 4 (contents s.ring) ≡ s.bytes

take_long : (n : ℕ) (xs ys : List ℕ) → n ≤ length xs → take n (xs ++ ys) ≡ take n xs
take_long zero xs ys h = refl
take_long (suc n) [] ys h = absurd (omega arith)
take_long (suc n) (x ∷ xs) ys h = ap (λ t. x ∷ t) (take_long n xs ys (omega arith))

front_stays :
    {po2 : ℕ} {q : CircularQueue} (left : ℕ) (incoming : List ℕ)
    → IsValid po2 q
    → length (take 4 (contents q)) ≡ 4
    → take 4 (contents (read_que_data q left incoming)) ≡ take 4 (contents q)
front_stays {po2} {q} left incoming v h =
    ap (take 4) (contents-read_que_data left incoming v)
    ∙ take_long 4 (contents q) _ (omega (arith, length-take 4 (contents q), h))

shift_loop-IsShifted :
    {po2 : ℕ} (seen : List ℕ) (q : CircularQueue) (deliveries : List (List ℕ))
    → IsShifted po2 (record { bytes = seen; ring = q; rest = [] })
    → IsShifted po2 (shift_loop seen q deliveries)
unfolding shift_loop look_ahead
shift_loop-IsShifted seen q [] s = s
shift_loop-IsShifted {po2} seen q (incoming ∷ more) s =
    let (bytes, next) = look_ahead q 4 incoming in
    let seen_bytes = look_ahead_bytes-eq-take 4 s.valid in
    let left = q.buffer_count - length bytes in
    let now : IsShifted po2 (record { bytes = bytes; ring = next; rest = more }) = record {
      valid = read_que_data-IsValid left incoming s.valid;
      short = omega (arith, ap length seen_bytes, length-take 4 (contents q));
      front =
          λ e. front_stays left incoming s.valid (ap length (sym seen_bytes) ∙ e) ∙ sym seen_bytes;
    } in
    elim (Bool-cases (leb 4 (length bytes))) [
      | inl e ↦ rw e now
      | inr e ↦ rw e (
          shift_loop-IsShifted bytes next more
            (record { valid = now.valid; short = now.short; front = now.front }))
    ]

look_at_tag-IsSoundTurn :
    {po2 : ℕ} (resume : Bool) (s : Shifted)
    → IsShifted po2 s
    → IsSoundTurn po2 (look_at_tag resume s)
unfolding look_at_tag IsSoundTurn
look_at_tag-IsSoundTurn {po2} resume s i =
    elim (Bool-cases (is_listed (match_loop 0 s.bytes) search_tags)) [
      | inr e ↦ rw e (adjust_read_que_index-IsValid 1 (arriving s.rest) i.valid)
      | inl e ↦
          let listed = is_listed-IsListed s.bytes i.short e in
          let here : IsAtTag s.ring = record {
            tag = listed.tag;
            number = listed.number;
            in_table = listed.in_table;
            same_start = ap (map (λ c. c % 256)) (i.front listed.four) ∙ listed.same_start;
          } in
          rw e (either resume here)
    ]
  where
    either :
        (b : Bool)
        → IsAtTag s.ring
        → IsSoundTurn po2 (if b then at_tag s.ring else inhibited s.ring)
    either true here = (i.valid, here)
    either false here = (i.valid, here)

-- From a valid ring and whatever is delivered during the turn, a turn of the parser's loop leaves a
-- valid ring; and where it makes its call, or would but for the inhibition of data, the ring begins
-- with the first four bytes of a tag of the table, each byte taken modulo 256.
pub tag_turn-IsSoundTurn :
    {po2 : ℕ} (resume : Bool) (q : CircularQueue) (deliveries : List (List ℕ))
    → IsValid po2 q
    → IsSoundTurn po2 (tag_turn resume q deliveries)
unfolding tag_turn look_ahead_for_character IsSoundTurn
tag_turn-IsSoundTurn {po2} resume q deliveries v =
    let ((read_count, found), next) = look_ahead_for_character q b'<' false (arriving deliveries) in
    let valid : IsValid po2 next = read_que_data-IsValid _ (arriving deliveries) v in
    elim (Bool-cases found) [
      | inl e ↦ rw e (
          look_at_tag-IsSoundTurn resume _ (
            shift_loop-IsShifted [] _ (drop 2 deliveries) (record {
              valid =
                  adjust_read_que_index-IsValid (read_count - 1) (arriving (drop 1 deliveries))
                    valid;
              short = omega arith;
              front = λ e. absurd (omega (arith, e));
            })))
      | inr e ↦ rw e (adjust_read_que_index-IsValid read_count (arriving (drop 1 deliveries)) valid)
    ]
