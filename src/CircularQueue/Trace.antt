-- ===== src/CircularQueue/Trace.antt =====
-- The ring against a plain queue: no sequence of calls tells them apart.
use flimg.Prelude.{ℕ, suc, ◌-◌, ◌^◌, ◌≡◌, refl, sym, ap, ap₂, ◌∙◌, arith, Bool, true, false, min}
use flimg.Prelude.{List, [], ◌∷◌, ◌++◌, length, take, drop}
use flimg.Prelude.{ltb, if◌then◌else◌}
use mathlib.Core.Path.{subst}
use flimg.Crc16.{Ccrc16, reset, crc16}
use flimg.CircularQueue.{
  CircularQueue, add_to_queue, read_que_data, look_ahead, look_ahead_bytes, look_ahead_crc,
  crc_bytes, adjust_count, adjust_read_que_index, look_ahead_to_terminator,
  look_ahead_for_character,
}
use flimg.CircularQueue.Valid.{
  IsValid, add_to_queue-IsValid, read_que_data-IsValid, adjust_locked-IsValid,
}
use flimg.CircularQueue.Contents.{
  contents, length-contents, non_null, contents-add_to_queue, contents-read_que_data,
  contents-adjust_locked, look_ahead_bytes-eq-take,
}
use flimg.CircularQueue.Search.{
  until, position, to_terminator_bytes-until, look_ahead_for_character_cleared, look_ahead_crc_lem,
}

-- A call, with what fldigi delivers during it where the operation asks for more.
pub data Call : Type 0 where
  add : List ℕ → Call
  look : ℕ → List ℕ → Call
  look_crc : ℕ → List ℕ → Call
  look_terminator : ℕ → ℕ → List ℕ → Call
  look_character : ℕ → List ℕ → Call
  adjust : ℕ → List ℕ → Call

-- What a call puts out: bytes, a number, a flag.
abbrev pub Reply : Type 0
Reply = List ℕ × ℕ × Bool

-- One call on the ring. The caller of `lookAheadForCharacter` clears its flag first.
unfoldable pub step : CircularQueue → Call → Reply × CircularQueue
step q (add cs) = (([], 0, false), add_to_queue q cs)
step q (look size incoming) =
    let r = look_ahead q (suc size) incoming in ((r.0, length r.0, false), r.1)
step q (look_crc size incoming) =
    let r = look_ahead_crc q (suc size) true 0 incoming in ((r.0, r.1, false), r.2)
step q (look_terminator t size incoming) =
    let r = look_ahead_to_terminator q t (suc size) incoming in ((r.0, length r.0, false), r.1)
step q (look_character c incoming) =
    let r = look_ahead_for_character q c false incoming in (([], r.0.0, r.0.1), r.1)
step q (adjust count incoming) =
    let r = adjust_read_que_index q (suc count) incoming in (([], r.0, false), r.1)

-- The plain queue of at most `cap` bytes: what arrives during a call is appended, if the call
-- leaves fewer than 32 bytes behind what it read.
module _ (cap : ℕ) where
  abbrev arrive : List ℕ → ℕ → List ℕ → List ℕ
  arrive bytes left incoming =
      bytes ++ (if ltb left 32 then take (cap - length bytes) (non_null incoming) else [])

  unfoldable pub queue_step : List ℕ → Call → Reply × List ℕ
  queue_step bytes (add cs) = (([], 0, false), bytes ++ take (cap - length bytes) cs)
  queue_step bytes (look size incoming) =
      let out = take (suc size) bytes in
      ((out, length out, false), arrive bytes (length bytes - length out) incoming)
  queue_step bytes (look_crc size incoming) =
      let out = take (suc size) bytes in
      ((out, crc16 out, false), arrive bytes (length bytes - length out) incoming)
  queue_step bytes (look_terminator t size incoming) =
      let out = until t (take (suc size) bytes) in
      ((out, length out, false), arrive bytes (length bytes - length out) incoming)
  queue_step bytes (look_character c incoming) =
      let seen = position c 0 bytes in
      (([], seen.0, seen.1), arrive bytes (length bytes - seen.0) incoming)
  queue_step bytes (adjust count incoming) =
      let rest = drop (suc count) bytes in
      (
        ([], (if ltb 0 (length bytes) then min (suc count) (length bytes) else suc count), false),
        arrive rest (length rest) incoming,
      )

  unfoldable pub queue_run : List ℕ → List Call → List Reply
  queue_run bytes [] = []
  queue_run bytes (c ∷ cs) = let r = queue_step bytes c in r.0 ∷ queue_run r.1 cs

unfoldable pub run : CircularQueue → List Call → List Reply
run q [] = []
run q (c ∷ cs) = let r = step q c in r.0 ∷ run r.1 cs

-- The ring holds these bytes.
record Holds (po2 : ℕ) (bytes : List ℕ) (q : CircularQueue) : Type 0 where
  valid : IsValid po2 q
  holds : contents q ≡ bytes

-- The replies agree, and the ring again holds what the queue does.
abbrev Agrees : ℕ → Reply × CircularQueue → Reply × List ℕ → Type 0
Agrees po2 ring queue = (ring.0 ≡ queue.0) × Holds po2 queue.1 ring.1

read_que_data-Holds :
    {po2 : ℕ} {q : CircularQueue} (left : ℕ) (incoming : List ℕ)
    → IsValid po2 q
    → Holds po2 (arrive (2 ^ po2) (contents q) left incoming) (read_que_data q left incoming)
read_que_data-Holds {po2} {q} left incoming v = record {
  valid = read_que_data-IsValid left incoming v;
  holds =
      contents-read_que_data left incoming v
      ∙ ap₂ (λ s n. contents q ++ (if ltb left 32 then take (s - n) (non_null incoming) else []))
          v.sized (sym (length-contents q));
}

-- Behind a call that looked at `seen` bytes.
after_look :
    {po2 : ℕ} {q : CircularQueue} (seen seen' : ℕ) (incoming : List ℕ)
    → IsValid po2 q
    → seen ≡ seen'
    → Holds po2
        (arrive (2 ^ po2) (contents q) (length (contents q) - seen') incoming)
        (read_que_data q (q.buffer_count - seen) incoming)
after_look {po2} {q} seen seen' incoming v e =
    subst
      (λ left.
        Holds po2 (arrive (2 ^ po2) (contents q) left incoming)
          (read_que_data q (q.buffer_count - seen) incoming))
      (ap₂ ◌-◌ (sym (length-contents q)) e) (read_que_data-Holds (q.buffer_count - seen) incoming v)

add-Agrees :
    {po2 : ℕ} {q : CircularQueue} (cs : List ℕ)
    → IsValid po2 q
    → Agrees po2 (step q (add cs)) (queue_step (2 ^ po2) (contents q) (add cs))
unfolding step queue_step
add-Agrees {po2} {q} cs v = (
  refl,
  record {
    valid = add_to_queue-IsValid cs v;
    holds =
        contents-add_to_queue cs v
        ∙ ap₂ (λ s n. contents q ++ take (s - n) cs) v.sized (sym (length-contents q));
  },
)

look-Agrees :
    {po2 : ℕ} {q : CircularQueue} (size : ℕ) (incoming : List ℕ)
    → IsValid po2 q
    → Agrees po2
        (step q (look size incoming))
        (queue_step (2 ^ po2) (contents q) (look size incoming))
unfolding step queue_step look_ahead
look-Agrees {po2} {q} size incoming v =
    let e = look_ahead_bytes-eq-take (suc size) v in
    (ap {B = Reply} (λ t. (t, length t, false)) e, after_look _ _ incoming v (ap length e))

pub crc-IsValid :
    {po2 : ℕ} {q : CircularQueue} (s : Ccrc16)
    → IsValid po2 q
    → IsValid po2 (record q { crc_validate = s })
crc-IsValid s v = record {
  sized = v.sized;
  allocated = v.allocated;
  mask = v.mask;
  running = v.running;
  fits = v.fits;
  apart = v.apart;
}

look_crc-Agrees :
    {po2 : ℕ} {q : CircularQueue} (size : ℕ) (incoming : List ℕ)
    → IsValid po2 q
    → Agrees po2
        (step q (look_crc size incoming))
        (queue_step (2 ^ po2) (contents q) (look_crc size incoming))
unfolding step queue_step look_ahead_crc
look_crc-Agrees {po2} {q} size incoming v =
    let e = look_ahead_crc_lem size 0 incoming v in
    (
      ap₂ {C = Reply} (λ t n. (t, n, false)) e.0 e.1,
      after_look {q = record q { crc_validate = crc_bytes reset (look_ahead_bytes q (suc size)) }} _
          _ incoming (crc-IsValid _ v) (ap length e.0),
    )

look_terminator-Agrees :
    {po2 : ℕ} {q : CircularQueue} (t size : ℕ) (incoming : List ℕ)
    → IsValid po2 q
    → Agrees po2
        (step q (look_terminator t size incoming))
        (queue_step (2 ^ po2) (contents q) (look_terminator t size incoming))
unfolding step queue_step look_ahead_to_terminator
look_terminator-Agrees {po2} {q} t size incoming v =
    let e = to_terminator_bytes-until t (suc size) v in
    (ap {B = Reply} (λ u. (u, length u, false)) e, after_look _ _ incoming v (ap length e))

look_character-Agrees :
    {po2 : ℕ} {q : CircularQueue} (c : ℕ) (incoming : List ℕ)
    → IsValid po2 q
    → Agrees po2
        (step q (look_character c incoming))
        (queue_step (2 ^ po2) (contents q) (look_character c incoming))
unfolding step queue_step look_ahead_for_character
look_character-Agrees {po2} {q} c incoming v =
    let e = look_ahead_for_character_cleared c incoming v in
    (
      ap {B = Reply} (λ (r : ℕ × Bool). ([], r.0, r.1)) e,
      after_look _ _ incoming v (ap (λ (r : ℕ × Bool). r.0) e),
    )

after_adjust :
    {po2 : ℕ} {q : CircularQueue} (rest incoming : List ℕ)
    → IsValid po2 q
    → contents q ≡ rest
    → Holds po2
        (arrive (2 ^ po2) rest (length rest) incoming)
        (read_que_data q q.buffer_count incoming)
after_adjust {po2} {q} rest incoming v e =
    subst
      (λ t.
        Holds po2 (arrive (2 ^ po2) t (length t) incoming)
          (read_que_data q q.buffer_count incoming))
      e
      (subst
        (λ left.
          Holds po2 (arrive (2 ^ po2) (contents q) left incoming)
            (read_que_data q q.buffer_count incoming))
        (sym (length-contents q)) (read_que_data-Holds q.buffer_count incoming v))

-- The number that `adjustReadQueIndex` returns.
adjust_count_lem :
    (q : CircularQueue) (count : ℕ)
    → adjust_count q count
      ≡ (if ltb 0 (length (contents q)) then min count (length (contents q)) else count)
unfolding adjust_count
adjust_count_lem q count = rw (length-contents q) (ground arith)

adjust-Agrees :
    {po2 : ℕ} {q : CircularQueue} (count : ℕ) (incoming : List ℕ)
    → IsValid po2 q
    → Agrees po2
        (step q (adjust count incoming))
        (queue_step (2 ^ po2) (contents q) (adjust count incoming))
unfolding step queue_step adjust_read_que_index
adjust-Agrees {po2} {q} count incoming v = (
  ap {B = Reply} (λ n. ([], n, false)) (adjust_count_lem q (suc count)),
  after_adjust (drop (suc count) (contents q)) incoming (adjust_locked-IsValid (suc count) v)
      (contents-adjust_locked (suc count) v),
)

step-Agrees :
    {po2 : ℕ} {q : CircularQueue} (c : Call)
    → IsValid po2 q
    → Agrees po2 (step q c) (queue_step (2 ^ po2) (contents q) c)
step-Agrees (add cs) v = add-Agrees cs v
step-Agrees (look size incoming) v = look-Agrees size incoming v
step-Agrees (look_crc size incoming) v = look_crc-Agrees size incoming v
step-Agrees (look_terminator t size incoming) v = look_terminator-Agrees t size incoming v
step-Agrees (look_character c incoming) v = look_character-Agrees c incoming v
step-Agrees (adjust count incoming) v = adjust-Agrees count incoming v

-- On a valid ring of 2 ^ po2 bytes every sequence of calls gives the replies (bytes, counts,
-- CRCs, flags) that a queue bounded at 2 ^ po2 bytes gives which starts with the ring's contents,
-- whatever fldigi delivers during the calls.
pub run_refines :
    {po2 : ℕ} (calls : List Call) {q : CircularQueue}
    → IsValid po2 q
    → run q calls ≡ queue_run (2 ^ po2) (contents q) calls
unfolding run queue_run
run_refines [] v = refl
run_refines {po2} (c ∷ cs) {q} v =
    let (reply, held) = step-Agrees c v in
    ap₂ ◌∷◌ reply (run_refines cs held.valid ∙ ap (λ t. queue_run (2 ^ po2) t cs) held.holds)
