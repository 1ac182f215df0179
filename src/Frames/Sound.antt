-- ===== src/Frames/Sound.antt =====
-- Only frames whose CRC fits are passed on, and the ring stays valid.
use flimg.Prelude.{
  ℕ, zero, suc, ◌<◌, ◌≤◌, ◌≡◌, refl, sym, ap, ◌∙◌, arith, Bool, true, ◌||◌, List, [], ◌∷◌, ◌++◌,
  Option, none, some,
}
use flimg.Prelude.{
  leb, leb→le, ◌==◌, ==_iff, drop, take, length, length-take, codes, Bool-cases, Option-cases, inl,
  inr,
}
use flimg.Cstd.{ℤ}
use flimg.Crc16.{crc16}
use flimg.Amp.{same_text}
use flimg.CircularQueue.{CircularQueue, look_ahead_to_terminator, look_ahead_crc}
use flimg.CircularQueue.Valid.{IsValid, read_que_data-IsValid, adjust_read_que_index-IsValid}
use flimg.CircularQueue.Contents.{contents}
use flimg.CircularQueue.Search.{look_ahead_crc_lem}
use flimg.CircularQueue.Trace.{crc-IsValid}
use flimg.Frames.{
  arriving, ends_tag, scan_tag, bounded, Waited, tag_loop, data_loop, Result, gave_up, skipped,
  passed, skip_one, hand_over, read_frame, process_que,
}

-- A frame is a tag and as many bytes as the tag says, at most 2175, with the CRC in the tag; it
-- goes to the reports if the tag is MISSING.
pub record IsFrame (missing : Bool) (frame : List ℕ) : Type 0 where
  pub tag_buffer : List ℕ
  pub payload : List ℕ
  pub a_tag : List ℕ
  pub temp : ℤ
  pub joined : frame ≡ tag_buffer ++ payload
  pub scanned : scan_tag tag_buffer ≡ some (a_tag, temp, crc16 payload)
  pub closed : ends_tag tag_buffer ≡ true
  pub whole : length payload ≡ bounded temp
  pub sorted : missing ≡ same_text a_tag (codes "MISSING")

-- What each result is to be.
unfoldable pub IsSound : ℕ → Result → Type 0
IsSound po2 (gave_up q) = IsValid po2 q
IsSound po2 (skipped q) = IsValid po2 q
IsSound po2 (passed missing frame q) = IsValid po2 q × IsFrame missing frame

tag_loop-IsValid :
    {po2 : ℕ} (q : CircularQueue) (deliveries : List (List ℕ))
    → IsValid po2 q
    → IsValid po2 (tag_loop q deliveries).ring
unfolding tag_loop look_ahead_to_terminator
tag_loop-IsValid q [] v = v
tag_loop-IsValid q (incoming ∷ more) v =
    let (tag, next) = look_ahead_to_terminator q b'>' 20 incoming in
    let valid = read_que_data-IsValid _ incoming v in
    elim (Bool-cases (leb 20 (length tag) || ends_tag tag)) [
      | inl e ↦ rw e valid
      | inr e ↦ rw e (tag_loop-IsValid next more valid)
    ]

-- What the second loop ends with.
IsChecked : ℕ → Option (List ℕ × ℕ) → Type 0
IsChecked count none = count ≤ count
IsChecked count (some (bytes, crc_val)) = (length bytes ≡ count) × (crc_val ≡ crc16 bytes)

abbrev IsRead : ℕ → ℕ → Waited (List ℕ × ℕ) → Type 0
IsRead po2 count w = IsValid po2 w.ring × IsChecked count w.got

all_of_them :
    (count : ℕ) (bytes whole : List ℕ)
    → bytes ≡ take count whole
    → leb count (length bytes) ≡ true
    → length bytes ≡ count
all_of_them count bytes whole e h =
    omega (arith, leb→le count (length bytes) h, ap length e, length-take count whole)

look_ahead_crc-IsValid :
    {po2 : ℕ} {q : CircularQueue} (count : ℕ) (incoming : List ℕ)
    → IsValid po2 q
    → IsValid po2 (look_ahead_crc q count true 0 incoming).2
unfolding look_ahead_crc
look_ahead_crc-IsValid zero incoming v = v
look_ahead_crc-IsValid (suc n) incoming v = read_que_data-IsValid _ incoming (crc-IsValid _ v)

data_loop-IsRead :
    {po2 : ℕ} (count : ℕ) (q : CircularQueue) (deliveries : List (List ℕ))
    → 0 < count
    → IsValid po2 q
    → IsRead po2 count (data_loop count q deliveries)
unfolding data_loop IsChecked
data_loop-IsRead zero q deliveries p v = absurd (omega arith)
data_loop-IsRead (suc n) q [] p v = (v, omega arith)
data_loop-IsRead (suc n) q (incoming ∷ more) p v =
    let (bytes, crc_val, next) = look_ahead_crc q (suc n) true 0 incoming in
    let (front, fit) = look_ahead_crc_lem n 0 incoming v in
    let valid = look_ahead_crc-IsValid (suc n) incoming v in
    elim (Bool-cases (leb (suc n) (length bytes))) [
      | inl e ↦
          rw e (valid, (all_of_them (suc n) bytes (contents q) front e, fit ∙ ap crc16 (sym front)))
      | inr e ↦ rw e (data_loop-IsRead (suc n) next more p valid)
    ]

skip_one-IsSound :
    {po2 : ℕ} (q : CircularQueue) (deliveries : List (List ℕ))
    → IsValid po2 q
    → IsSound po2 (skip_one q deliveries)
unfolding skip_one IsSound
skip_one-IsSound q deliveries v = adjust_read_que_index-IsValid 1 (arriving deliveries) v

module _ {po2 : ℕ} (tag_buffer a_tag : List ℕ) (temp : ℤ) (chksum : ℕ)
    (closed : ends_tag tag_buffer ≡ true)
    (scanned : scan_tag tag_buffer ≡ some (a_tag, temp, chksum)) where
  hand_over_got :
      (got : Option (List ℕ × ℕ)) (q : CircularQueue) (rest : List (List ℕ))
      → IsValid po2 q
      → IsChecked (bounded temp) got
      → IsSound po2
          (hand_over tag_buffer a_tag chksum (record { got = got; ring = q; rest = rest }))
  unfolding hand_over IsSound IsChecked
  hand_over_got none q rest v c = v
  hand_over_got (some (bytes, crc_val)) q rest v (whole, fit) =
      elim (Bool-cases (chksum == crc_val)) [
        | inl e ↦
            let same : chksum ≡ crc16 bytes = (==_iff chksum crc_val).0 e ∙ fit in
            rw e (
              adjust_read_que_index-IsValid (length bytes) (arriving rest) v,
              record {
                tag_buffer = tag_buffer;
                payload = bytes;
                a_tag = a_tag;
                temp = temp;
                joined = refl;
                scanned = scanned ∙ ap (λ k. some (a_tag, temp, k)) same;
                closed = closed;
                whole = whole;
                sorted = refl;
              },
            )
        | inr e ↦ rw e (skip_one-IsSound q rest v)
      ]

read_frame_got :
    {po2 : ℕ} (got : Option (List ℕ)) (q : CircularQueue) (rest : List (List ℕ))
    → IsValid po2 q
    → IsSound po2 (read_frame (record { got = got; ring = q; rest = rest }))
unfolding read_frame IsSound
read_frame_got none q rest v = v
read_frame_got (some tag_buffer) q rest v = elim (Bool-cases (ends_tag tag_buffer)) [
  | inr e ↦ rw e (skip_one-IsSound q rest v)
  | inl e ↦ elim (Option-cases (scan_tag tag_buffer)) [
    | inl s ↦ rw (e, s) (skip_one-IsSound q rest v)
    | inr ((a_tag, temp, chksum), s) ↦ elim (Bool-cases (bounded temp == 0)) [
      | inl z ↦ rw (e, s, z) (skip_one-IsSound q rest v)
      | inr z ↦
          let moved = adjust_read_que_index-IsValid (length tag_buffer) (arriving rest) v in
          let (valid, checked) =
            data_loop-IsRead (bounded temp) _ (drop 1 rest) (ground arith) moved in
          rw (e, s, z) (hand_over_got tag_buffer a_tag temp chksum e s _ _ _ valid checked)
    ]
  ]
]

-- From a valid ring and whatever is delivered during the call, `process_que` leaves a valid ring;
-- and where it passes something on, that is a tag that ends with `>` and can be read, and behind it
-- as many bytes as the tag says, at most 2175, whose CRC is the one in the tag. It goes to the
-- reports exactly if the tag is MISSING.
pub process_que-IsSound :
    {po2 : ℕ} (q : CircularQueue) (deliveries : List (List ℕ))
    → IsValid po2 q
    → IsSound po2 (process_que q deliveries)
unfolding process_que
process_que-IsSound q deliveries v = read_frame_got _ _ _ (tag_loop-IsValid q deliveries v)
