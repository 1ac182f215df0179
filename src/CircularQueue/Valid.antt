-- ===== src/CircularQueue/Valid.antt =====
-- The invariant of the ring: indices in range, and the two of them `buffer_count` apart.
use flimg.Prelude.{
  ℕ, zero, suc, ◌+◌, ◌-◌, ◌*◌, ◌/◌, ◌%◌, ◌^◌, ◌≤◌, ◌<◌, ◌≡◌, refl, sym, ap, ◌∙◌, arith, bit_and,
  bit_or, Bool, false, List, [], ◌∷◌,
}
use flimg.Prelude.{ltb, leb, ◌==◌, ◌&&◌, length, length-set, length-replicate, Bool-cases, inl, inr}
use flimg.Prelude.Bits.{bit_and_low, bit_or_step}
use native.Mathlib.Nat.{mod-add-mod, mod-mod, one-le-pow, two-pow-succ}
use native.Mathlib.Decide.{dec_lt}
use mathlib.Core.Path.{subst}
use flimg.CircularQueue.{
  CircularQueue, widen_mask, set_up, store, add_to_queue, store_non_null,
  add_to_queue_null_filtered, read_que_data, refill, unstall, take_out, settle, adjust_count,
  adjust_locked, adjust_read_que_index,
}

pub record IsValid (po2 : ℕ) (q : CircularQueue) : Type 0 where
  pub sized : q.buffer_size ≡ 2 ^ po2
  pub allocated : length q.buffer ≡ 2 ^ po2
  pub mask : q.index_mask + 1 ≡ 2 ^ po2
  pub running : q.exit_thread ≡ false
  pub fits : q.buffer_count ≤ 2 ^ po2
  pub apart : q.write_index % 2 ^ po2 ≡ (q.read_index + q.buffer_count) % 2 ^ po2

-- `mask | (mask << 1)` of a mask of low bits is the mask with one bit more.
or_double_suc : (n m : ℕ) → m + 1 ≡ 2 ^ n → bit_or m (2 * m + 1) + 1 ≡ 2 * 2 ^ n
or_double_suc zero zero e = refl
or_double_suc zero (suc m) e = absurd (omega arith)
or_double_suc (suc n) m e =
    let half : m / 2 + 1 ≡ 2 ^ n = omega (arith, two-pow-succ n) in
    let low : (2 * m + 1) / 2 ≡ 2 * (m / 2) + 1 = omega (arith, two-pow-succ n) in
    ground (arith, bit_or_step m (2 * m + 1), low, or_double_suc n (m / 2) half, two-pow-succ n)

widen_once : (n mask : ℕ) → mask + 1 ≡ 2 ^ suc n → bit_or mask (mask * 2) + 1 ≡ 2 ^ suc (suc n)
widen_once n mask e =
    let half : mask / 2 + 1 ≡ 2 ^ n = omega (arith, two-pow-succ n) in
    let low : mask * 2 / 2 ≡ 2 * (mask / 2) + 1 = omega (arith, two-pow-succ n) in
    ground (
      arith,
      bit_or_step mask (mask * 2),
      low,
      or_double_suc n (mask / 2) half,
      two-pow-succ n,
      two-pow-succ (suc n),
    )

pub widen_mask_lem : (k n mask : ℕ) → mask + 1 ≡ 2 ^ suc n → widen_mask k mask + 1 ≡ 2 ^ suc (n + k)
unfolding widen_mask
widen_mask_lem zero n mask e =
    let same : suc n ≡ suc (n + 0) = omega arith in e ∙ ap (λ t. 2 ^ t) same
widen_mask_lem (suc k) n mask e =
    let same : suc (suc n + k) ≡ suc (n + suc k) = omega arith in
    widen_mask_lem k (suc n) (bit_or mask (mask * 2)) (widen_once n mask e) ∙ ap (λ t. 2 ^ t) same

-- After `setUp` the ring is valid and empty, provided that the memory held two indices that agree
-- in the ring.
pub set_up-IsValid :
    (po2 r w : ℕ) (s : Bool) → 0 < po2 → r % 2 ^ po2 ≡ w % 2 ^ po2 → IsValid po2 (set_up po2 r w s)
unfolding set_up
set_up-IsValid po2 r w s pos e = record {
  sized = refl;
  allocated = length-replicate (2 ^ po2) 0;
  mask = widen_mask_lem (po2 - 1) 0 1 refl ∙ ap (λ t. 2 ^ t) whole;
  running = refl;
  fits = omega arith;
  apart = sym e ∙ ap (λ t. t % 2 ^ po2) (omega arith);
}
  where
    whole : suc (0 + (po2 - 1)) ≡ po2
    whole = omega arith

module _ {po2 : ℕ} {q : CircularQueue} (v : IsValid po2 q) where
  pub masked : (i : ℕ) → bit_and i q.index_mask ≡ i % 2 ^ po2
  masked i = bit_and_low po2 i q.index_mask v.mask

  pub size_pos : 1 ≤ 2 ^ po2
  size_pos = one-le-pow po2 2 (omega arith)

  -- Where the next byte goes.
  pub write_at : bit_and q.write_index q.index_mask ≡ (q.read_index + q.buffer_count) % 2 ^ po2
  write_at = masked q.write_index ∙ v.apart

  pub store-IsValid : (c : ℕ) → q.buffer_count < 2 ^ po2 → IsValid po2 (store q c)
  unfolding store
  store-IsValid c room = record {
    sized = v.sized;
    allocated = length-set q.buffer (bit_and q.write_index q.index_mask) c ∙ v.allocated;
    mask = v.mask;
    running = v.running;
    fits = omega arith;
    apart =
        ap (λ t. (t + 1) % 2 ^ po2) write_at
        ∙ mod-add-mod (q.read_index + q.buffer_count) (2 ^ po2) 1
        ∙ ap (λ t. t % 2 ^ po2) (omega arith);
  }

pub add_to_queue-IsValid :
    {po2 : ℕ} (cs : List ℕ) {q : CircularQueue} → IsValid po2 q → IsValid po2 (add_to_queue q cs)
unfolding add_to_queue
add_to_queue-IsValid [] v = v
add_to_queue-IsValid {po2} (c ∷ cs) {q} v = elim (Bool-cases (leb q.buffer_size q.buffer_count)) [
  | inl full ↦ rw full (record {
    sized = v.sized;
    allocated = v.allocated;
    mask = v.mask;
    running = v.running;
    fits = v.fits;
    apart = v.apart;
  })
  | inr room ↦ rw room (add_to_queue-IsValid cs (store-IsValid v c (ground (arith, v.sized))))
]

pub store_non_null-IsValid :
    {po2 : ℕ} {q : CircularQueue} (c : ℕ)
    → IsValid po2 q
    → q.buffer_count < 2 ^ po2
    → IsValid po2 (store_non_null q c)
unfolding store_non_null
store_non_null-IsValid {po2} {q} c v room = elim (Bool-cases (c == 0)) [
  | inl null ↦ rw null (record {
    sized = v.sized;
    allocated = v.allocated;
    mask = v.mask;
    running = v.running;
    fits = v.fits;
    apart =
        ap (λ t. t % 2 ^ po2) (masked v q.write_index) ∙ mod-mod q.write_index (2 ^ po2) ∙ v.apart;
  })
  | inr other ↦ rw other (store-IsValid v c room)
]

pub add_to_queue_null_filtered-IsValid :
    {po2 : ℕ} (cs : List ℕ) {q : CircularQueue}
    → IsValid po2 q
    → IsValid po2 (add_to_queue_null_filtered q cs)
unfolding add_to_queue_null_filtered
add_to_queue_null_filtered-IsValid [] v = v
add_to_queue_null_filtered-IsValid {po2} (c ∷ cs) {q} v =
    elim (Bool-cases (leb q.buffer_size q.buffer_count)) [
      | inl full ↦ rw full (record {
        sized = v.sized;
        allocated = v.allocated;
        mask = v.mask;
        running = v.running;
        fits = v.fits;
        apart = v.apart;
      })
      | inr room ↦ rw room (
          add_to_queue_null_filtered-IsValid cs
            (store_non_null-IsValid c v (ground (arith, v.sized))))
    ]

module _ {po2 : ℕ} {q : CircularQueue} where
  pub refill-IsValid :
      (count : ℕ) (incoming : List ℕ) → IsValid po2 q → IsValid po2 (refill q count incoming)
  unfolding refill
  refill-IsValid count incoming v = elim (Bool-cases (ltb count 32)) [
    | inl few ↦ rw few (add_to_queue_null_filtered-IsValid incoming v)
    | inr many ↦ rw many v
  ]

  pub unstall-IsValid : (count : ℕ) → IsValid po2 q → IsValid po2 (unstall q count)
  unfolding unstall
  unstall-IsValid count v = elim (Bool-cases (q.stalled && ltb count q.buffer_size)) [
    | inl over ↦ rw over (record {
      sized = v.sized;
      allocated = v.allocated;
      mask = v.mask;
      running = v.running;
      fits = v.fits;
      apart = v.apart;
    })
    | inr still ↦ rw still v
  ]

  pub take_out-IsValid : (n : ℕ) → n ≤ q.buffer_count → IsValid po2 q → IsValid po2 (take_out q n)
  unfolding take_out
  take_out-IsValid n le v = elim (Bool-cases (ltb 0 q.buffer_count)) [
    | inl some_left ↦ rw some_left (record {
      sized = v.sized;
      allocated = v.allocated;
      mask = v.mask;
      running = v.running;
      fits = omega (arith, v.fits);
      apart =
          v.apart
          ∙ ap (λ t. t % 2 ^ po2) whole
          ∙ sym (mod-add-mod (q.read_index + n) (2 ^ po2) (q.buffer_count - n))
          ∙ ap (λ t. (t + (q.buffer_count - n)) % 2 ^ po2) (sym (masked v (q.read_index + n)));
    })
    | inr empty ↦ rw empty v
  ]
    where
      whole : q.read_index + q.buffer_count ≡ q.read_index + n + (q.buffer_count - n)
      whole = omega arith

  pub settle-IsValid : IsValid po2 q → IsValid po2 (settle q)
  unfolding settle
  settle-IsValid v = elim (Bool-cases (ltb q.buffer_count 1)) [
    | inl empty ↦ rw empty (record {
      sized = v.sized;
      allocated = v.allocated;
      mask = v.mask;
      running = v.running;
      fits = omega arith;
      apart = ap (λ t. t % 2 ^ po2) (omega arith);
    })
    | inr left ↦ rw left v
  ]

-- Where the ring holds a byte, no more than it holds is taken out.
pub adjust_count-le :
    (q : CircularQueue) (count : ℕ) → 0 < q.buffer_count → adjust_count q count ≤ q.buffer_count
unfolding adjust_count
adjust_count-le q count pos = ground arith

pub take_out-empty : (q : CircularQueue) (n : ℕ) → q.buffer_count ≡ 0 → take_out q n ≡ q
unfolding take_out
take_out-empty q n e = ground arith

pub read_que_data-IsValid :
    {po2 : ℕ} {q : CircularQueue} (count : ℕ) (incoming : List ℕ)
    → IsValid po2 q
    → IsValid po2 (read_que_data q count incoming)
unfolding read_que_data
read_que_data-IsValid count incoming v = unstall-IsValid count (refill-IsValid count incoming v)

pub adjust_locked-IsValid :
    {po2 : ℕ} {q : CircularQueue} (count : ℕ) → IsValid po2 q → IsValid po2 (adjust_locked q count)
unfolding adjust_locked
adjust_locked-IsValid {po2} {q} count v = elim (dec_lt 0 q.buffer_count) [
  | yes pos ↦
      settle-IsValid (take_out-IsValid (adjust_count q count) (adjust_count-le q count pos) v)
  | no empty ↦
      settle-IsValid
        (subst (IsValid po2) (sym (take_out-empty q (adjust_count q count) (omega arith))) v)
]

-- `adjustReadQueIndex` keeps the invariant, whatever the callback delivers.
pub adjust_read_que_index-IsValid :
    {po2 : ℕ} {q : CircularQueue} (count : ℕ) (incoming : List ℕ)
    → IsValid po2 q
    → IsValid po2 (adjust_read_que_index q count incoming).1
unfolding adjust_read_que_index
adjust_read_que_index-IsValid zero incoming v = v
adjust_read_que_index-IsValid {q} (suc n) incoming v =
    read_que_data-IsValid _ incoming (adjust_locked-IsValid (suc n) v)
