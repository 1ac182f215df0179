-- ===== src/CircularQueue/Contents.antt =====
-- What a valid ring holds, oldest byte first, and what each operation makes of it.
use flimg.Prelude.{
  ℕ, zero, suc, ◌+◌, ◌-◌, ◌%◌, ◌^◌, ◌≤◌, ◌<◌, ◌≡◌, refl, sym, ap, ap₂, ◌∙◌, arith, bit_and, true,
}
use flimg.Prelude.{
  List, [], ◌∷◌, ◌++◌, append-nil, append_assoc, length, take, drop, set, get_or, take_nil,
  take-cons, drop_all, drop_all,
}
use flimg.Prelude.{ltb, leb, ◌==◌, ◌&&◌, if◌then◌else◌, Bool-cases, inl, inr}
use native.Mathlib.Decide.{dec_lt}
use native.Mathlib.Nat.{mod-mod, mod-add-mod}
use flimg.CircularQueue.{
  CircularQueue, store, add_to_queue, store_non_null, add_to_queue_null_filtered, read_que_data,
  refill, unstall, take_out, settle, adjust_count, adjust_locked, look_ahead_loop, look_ahead_bytes,
}
use flimg.CircularQueue.Window.{window, length-window, window_mod, window-set, drop-window}
use flimg.CircularQueue.Valid.{
  IsValid, masked, write_at, store-IsValid, store_non_null-IsValid, adjust_count-le, take_out-empty,
}

abbrev pub contents : CircularQueue → List ℕ
contents q = window q.buffer q.buffer_size q.read_index q.buffer_count

pub length-contents : (q : CircularQueue) → length (contents q) ≡ q.buffer_count
length-contents q = length-window q.buffer q.buffer_size q.read_index q.buffer_count

-- The room that is left.
abbrev pub room : CircularQueue → ℕ
room q = q.buffer_size - q.buffer_count

pub contents-store :
    {po2 : ℕ} {q : CircularQueue} (c : ℕ)
    → IsValid po2 q
    → q.buffer_count < q.buffer_size
    → contents (store q c) ≡ contents q ++ (c ∷ [])
unfolding store
contents-store {po2} {q} c v lt =
    ap (λ i. window (set q.buffer i c) q.buffer_size q.read_index (q.buffer_count + 1))
      (write_at v ∙ ap (λ s. (q.read_index + q.buffer_count) % s) (sym v.sized))
    ∙ window-set q.buffer q.buffer_size q.read_index q.buffer_count c
        (omega (arith, v.sized, v.allocated)) lt

room-store : (q : CircularQueue) (c : ℕ) → room (store q c) ≡ room q - 1
unfolding store
room-store q c = omega arith

-- One byte more at the end, and what is then taken of the rest.
take_behind :
    {n : ℕ} (xs : List ℕ) (c : ℕ) (cs : List ℕ)
    → 0 < n
    → (xs ++ (c ∷ [])) ++ take (n - 1) cs ≡ xs ++ take n (c ∷ cs)
take_behind {n} xs c cs pos =
    append_assoc xs (c ∷ []) (take (n - 1) cs) ∙ ap (λ t. xs ++ t) (sym (take-cons n c cs pos))

full_room :
    (q : CircularQueue) (cs : List ℕ)
    → leb q.buffer_size q.buffer_count ≡ true
    → contents q ≡ contents q ++ take (room q) cs
full_room q cs full =
    let none_left : room q ≡ 0 = ground arith in
    sym (append-nil (contents q)) ∙ ap (λ n. contents q ++ take n cs) (sym none_left)

-- `addToQueue` appends as many bytes as there is room for.
pub contents-add_to_queue :
    {po2 : ℕ} (cs : List ℕ) {q : CircularQueue}
    → IsValid po2 q
    → contents (add_to_queue q cs) ≡ contents q ++ take (room q) cs
unfolding add_to_queue
contents-add_to_queue [] {q} v =
    sym (append-nil (contents q)) ∙ ap (λ t. contents q ++ t) (sym (take_nil (room q)))
contents-add_to_queue {po2} (c ∷ cs) {q} v = elim (Bool-cases (leb q.buffer_size q.buffer_count)) [
  | inl full ↦ rw full (full_room q (c ∷ cs) full)
  | inr free ↦
      let lt : q.buffer_count < q.buffer_size = ground arith in
      rw free (
        contents-add_to_queue cs (store-IsValid v c (omega (arith, v.sized)))
        ∙ ap₂ (λ t n. t ++ take n cs) (contents-store c v lt) (room-store q c)
        ∙ take_behind (contents q) c cs (omega arith))
]

-- The queue stalls exactly when bytes are left over.
stalled-add_to_queue :
    (cs : List ℕ) (q : CircularQueue)
    → (add_to_queue q cs).stalled ≡ (if ltb (room q) (length cs) then true else q.stalled)
unfolding add_to_queue store
stalled-add_to_queue [] q = ground arith
stalled-add_to_queue (c ∷ cs) q = ground (arith, stalled-add_to_queue cs (store q c))

-- The text without its null characters.
abbrev pub non_null : List ℕ → List ℕ
non_null [] = []
non_null (c ∷ cs) = if c == 0 then non_null cs else c ∷ non_null cs

null_step :
    {po2 : ℕ} {q : CircularQueue} (c : ℕ) (cs : List ℕ)
    → IsValid po2 q
    → q.buffer_count < q.buffer_size
    → contents (store_non_null q c) ++ take (room (store_non_null q c)) (non_null cs)
      ≡ contents q ++ take (room q) (non_null (c ∷ cs))
unfolding store_non_null
null_step {po2} {q} c cs v lt = elim (Bool-cases (c == 0)) [
  | inl null ↦ rw null
  | inr other ↦ rw other (
      ap₂ (λ t n. t ++ take n (non_null cs)) (contents-store c v lt) (room-store q c)
      ∙ take_behind (contents q) c (non_null cs) (omega arith))
]

-- `addToQueueNullFiltered` appends as many of the characters that are not null.
pub contents-add_to_queue_null_filtered :
    {po2 : ℕ} (cs : List ℕ) {q : CircularQueue}
    → IsValid po2 q
    → contents (add_to_queue_null_filtered q cs) ≡ contents q ++ take (room q) (non_null cs)
unfolding add_to_queue_null_filtered
contents-add_to_queue_null_filtered [] {q} v =
    sym (append-nil (contents q)) ∙ ap (λ t. contents q ++ t) (sym (take_nil (room q)))
contents-add_to_queue_null_filtered {po2} (c ∷ cs) {q} v =
    elim (Bool-cases (leb q.buffer_size q.buffer_count)) [
      | inl full ↦ rw full (full_room q (non_null (c ∷ cs)) full)
      | inr free ↦
          let lt : q.buffer_count < q.buffer_size = ground arith in
          rw free (
            contents-add_to_queue_null_filtered cs
              (store_non_null-IsValid c v (omega (arith, v.sized)))
            ∙ null_step c cs v lt)
    ]

-- Taking `n` bytes out drops them at the front.
contents-take_out :
    {po2 : ℕ} {q : CircularQueue} (n : ℕ)
    → IsValid po2 q
    → n ≤ q.buffer_count
    → contents (take_out q n) ≡ drop n (contents q)
unfolding take_out
contents-take_out {po2} {q} n v le = elim (Bool-cases (ltb 0 q.buffer_count)) [
  | inl held ↦ rw held (
      window_mod q.buffer q.buffer_size (bit_and (q.read_index + n) q.index_mask) (q.read_index + n)
        (q.buffer_count - n) place
      ∙ sym (drop-window q.buffer q.buffer_size q.read_index q.buffer_count n le))
  | inr empty ↦
      let nothing : n ≡ 0 = ground arith in rw empty (ap (λ k. drop k (contents q)) (sym nothing))
]
  where
    place :
        bit_and (q.read_index + n) q.index_mask % q.buffer_size ≡ (q.read_index + n) % q.buffer_size
    place =
        ap₂ ◌%◌ (masked v (q.read_index + n)) v.sized
        ∙ mod-mod (q.read_index + n) (2 ^ po2)
        ∙ ap (λ s. (q.read_index + n) % s) (sym v.sized)

contents-settle : (q : CircularQueue) → contents (settle q) ≡ contents q
unfolding settle
contents-settle q = elim (Bool-cases (ltb q.buffer_count 1)) [
  | inl empty ↦
      let nothing : 0 ≡ q.buffer_count = ground arith in
      rw empty (ap (window q.buffer q.buffer_size q.read_index) nothing)
  | inr held ↦ rw held
]

contents-unstall : (q : CircularQueue) (n : ℕ) → contents (unstall q n) ≡ contents q
unfolding unstall
contents-unstall q n = elim (Bool-cases (q.stalled && ltb n q.buffer_size)) [
  | inl e ↦ rw e
  | inr e ↦ rw e
]

-- The drop at the front that a count means: all, if it exceeds what the ring holds.
drop_clamped :
    (q : CircularQueue) (count : ℕ)
    → drop (adjust_count q count) (contents q) ≡ drop count (contents q)
unfolding adjust_count
drop_clamped q count = elim (Bool-cases (ltb 0 q.buffer_count && leb q.buffer_count count)) [
  | inl all ↦ rw all (
      drop_all q.buffer_count (contents q) (omega (arith, length-contents q))
      ∙ sym (drop_all count (contents q) (ground (arith, length-contents q))))
  | inr part ↦ rw part
]

-- `adjustReadQueIndex` drops `count` bytes at the front, or all if there are no more.
pub contents-adjust_locked :
    {po2 : ℕ} {q : CircularQueue} (count : ℕ)
    → IsValid po2 q
    → contents (adjust_locked q count) ≡ drop count (contents q)
unfolding adjust_locked
contents-adjust_locked {po2} {q} count v =
    contents-settle (take_out q (adjust_count q count)) ∙ elim (dec_lt 0 q.buffer_count) [
      | yes held ↦
          contents-take_out (adjust_count q count) v (adjust_count-le q count held)
          ∙ drop_clamped q count
      | no empty ↦
          ap contents (take_out-empty q (adjust_count q count) (omega arith))
          ∙ drop_all 0 (contents q) (omega (arith, length-contents q))
          ∙ sym (drop_all count (contents q) (omega (arith, length-contents q)))
    ]

look_ahead_loop-eq-take :
    {po2 : ℕ} {q : CircularQueue}
    → IsValid po2 q
    → (size count h k : ℕ) → h % q.buffer_size ≡ k % q.buffer_size
    → look_ahead_loop q size count h ≡ take size (window q.buffer q.buffer_size k count)
unfolding look_ahead_loop
look_ahead_loop-eq-take v zero count h k e = refl
look_ahead_loop-eq-take v (suc size) zero h k e = refl
look_ahead_loop-eq-take {po2} {q} v (suc size) (suc count) h k e =
    ap₂ ◌∷◌ (ap (λ i. get_or q.buffer i 0) here)
      (look_ahead_loop-eq-take v size count (bit_and h q.index_mask + 1) (k + 1) next)
  where
    here : bit_and h q.index_mask ≡ k % q.buffer_size
    here = masked v h ∙ ap (λ s. h % s) (sym v.sized) ∙ e

    next : (bit_and h q.index_mask + 1) % q.buffer_size ≡ (k + 1) % q.buffer_size
    next = ap (λ t. (t + 1) % q.buffer_size) here ∙ mod-add-mod k q.buffer_size 1

-- `lookAhead` copies the first `size` bytes, or all if there are no more.
pub look_ahead_bytes-eq-take :
    {po2 : ℕ} {q : CircularQueue} (size : ℕ)
    → IsValid po2 q
    → look_ahead_bytes q size ≡ take size (contents q)
unfolding look_ahead_bytes
look_ahead_bytes-eq-take {po2} {q} size v =
    rw v.running (look_ahead_loop-eq-take v size q.buffer_count q.read_index q.read_index refl)

-- What the callback delivers is appended as far as there is room, when few bytes are left.
pub contents-read_que_data :
    {po2 : ℕ} {q : CircularQueue} (count : ℕ) (incoming : List ℕ)
    → IsValid po2 q
    → contents (read_que_data q count incoming)
      ≡ contents q ++ (if ltb count 32 then take (room q) (non_null incoming) else [])
unfolding read_que_data refill
contents-read_que_data {po2} {q} count incoming v =
    contents-unstall (refill q count incoming) count ∙ elim (Bool-cases (ltb count 32)) [
      | inl few ↦ rw few (contents-add_to_queue_null_filtered incoming v)
      | inr many ↦ rw many (sym (append-nil (contents q)))
    ]
