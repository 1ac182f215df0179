-- ===== src/Amp/Chunks.antt =====
-- The blocks of a text: as many as `xmt_calc_numblocks` counts, and together the text.
use flimg.Prelude.{
  ℕ, zero, suc, ◌+◌, ◌*◌, ◌/◌, ◌%◌, ◌≤◌, ◌<◌, ◌≡◌, refl, sym, ap, ◌∙◌, arith, Bool, ◌&&◌, List, [],
  ◌∷◌, ◌++◌, Option, none, some, ltb, leb, ◌==◌, if◌then◌else◌,
}
use flimg.Prelude.{take, drop, length, take_add, drop_add, Bool-cases, inl, inr, lt→ltb, ==_iff}
use native.Mathlib.Nat.{div-add-mod, mod-lt, mul-le-mul_left, mul-le-mul_right, mul_comm}
use flimg.Cstd.{ℤ, pos, negsuc}
use flimg.IntMap.{IntMap, ltb_int, eqb_int, find, join}
use flimg.IntMap.Extensionality.{IsBelow, IsSorted}
use flimg.Amp.{TxAmp, xmt_calc_numblocks}

-- The block behind the first `i`.
abbrev pub chunk : List ℕ → ℕ → ℕ → List ℕ
chunk text size i = take size (drop (i * size) text)

-- Blocks `lo + 1` to `lo + k`, by their numbers.
unfoldable pub chunk_map : List ℕ → ℕ → ℕ → ℕ → IntMap
chunk_map text size lo zero = []
chunk_map text size lo (suc k) = (pos (suc lo), chunk text size lo) ∷ chunk_map text size (suc lo) k

next_start : (lo size : ℕ) → suc lo * size ≡ lo * size + size
next_start lo size = grind arith

pub join-chunk_map :
    (text : List ℕ) (size lo k : ℕ)
    → join (chunk_map text size lo k) ≡ take (k * size) (drop (lo * size) text)
unfolding join chunk_map
join-chunk_map text size lo zero = ap (λ n. take n (drop (lo * size) text)) (none_left size)
  where
    none_left : (size : ℕ) → 0 ≡ 0 * size
    none_left size = grind arith
join-chunk_map text size lo (suc k) =
    let rest : List ℕ = drop (lo * size) text in
    ap (λ t. take size rest ++ t)
      (join-chunk_map text size (suc lo) k
        ∙ ap (λ n. take (k * size) (drop n text)) (next_start lo size)
        ∙ ap (take (k * size)) (drop_add (lo * size) size text))
    ∙ sym (take_add size (k * size) rest)
    ∙ ap (λ n. take n rest) (first_apart k size)
  where
    first_apart : (k size : ℕ) → size + k * size ≡ suc k * size
    first_apart k size = grind arith

chunk_map-IsBelow :
    (text : List ℕ) (size i lo k : ℕ) → i ≤ lo → IsBelow (pos i) (chunk_map text size lo k)
unfolding chunk_map ltb_int
chunk_map-IsBelow text size i lo zero h = tt
chunk_map-IsBelow text size i lo (suc k) h =
    (lt→ltb i (suc lo) (omega arith), chunk_map-IsBelow text size i (suc lo) k (omega arith))

pub chunk_map-IsSorted : (text : List ℕ) (size lo k : ℕ) → IsSorted (chunk_map text size lo k)
unfolding chunk_map
chunk_map-IsSorted text size lo zero = tt
chunk_map-IsSorted text size lo (suc k) = (
  chunk_map-IsBelow text size (suc lo) (suc lo) k (omega arith),
  chunk_map-IsSorted text size (suc lo) k,
)

-- The block of a number, if the number is one of those that `has` marks.
unfoldable pub answer : List ℕ → ℕ → (ℕ → Bool) → ℤ → Option (List ℕ)
answer text size has (pos zero) = none
answer text size has (pos (suc i)) = if has (suc i) then some (chunk text size i) else none
answer text size has (negsuc i) = none

abbrev pub between : ℕ → ℕ → ℕ → Bool
between lo k i = ltb lo i && leb i (lo + k)

pub find-chunk_map :
    (text : List ℕ) (size lo k : ℕ) (z : ℤ)
    → find z (chunk_map text size lo k) ≡ answer text size (between lo k) z
unfolding find chunk_map answer eqb_int
find-chunk_map text size lo zero (pos zero) = refl
find-chunk_map text size lo zero (pos (suc i)) = ground arith
find-chunk_map text size lo zero (negsuc i) = refl
find-chunk_map text size lo (suc k) (pos zero) =
    ground (arith, find-chunk_map text size (suc lo) k (pos zero))
find-chunk_map text size lo (suc k) (pos (suc i)) = ground (
  arith,
  find-chunk_map text size (suc lo) k (pos (suc i)),
  λ (e : i ≡ lo). ap (chunk text size) e,
)
find-chunk_map text size lo (suc k) (negsuc i) = find-chunk_map text size (suc lo) k (negsuc i)

pub length-chunk_map : (text : List ℕ) (size lo k : ℕ) → length (chunk_map text size lo k) ≡ k
unfolding chunk_map
length-chunk_map text size lo zero = refl
length-chunk_map text size lo (suc k) = ap suc (length-chunk_map text size (suc lo) k)

-- A last block that is not full counts as one.
round_up : ℕ → ℕ → ℕ
round_up q r = q + (if r == 0 then 0 else 1)

one_more : (q s : ℕ) → (q + 1) * s ≡ q * s + s
one_more q s = grind arith

no_more : (q s : ℕ) → (q + 0) * s ≡ q * s
no_more q s = grind arith

round_up_enough : (n s q r : ℕ) → n ≡ s * q + r → r < s → n ≤ round_up q r * s
unfolding round_up
round_up_enough n s q r e lt = elim (Bool-cases (r == 0)) [
  | inl full ↦ rw full (omega (arith, mul_comm s q, (==_iff r 0).0 full, no_more q s))
  | inr more ↦ rw more (omega (arith, mul_comm s q, one_more q s))
]

round_up_tight : (n s q r i : ℕ) → n ≡ s * q + r → r < s → i < round_up q r → i * s < n
unfolding round_up
round_up_tight n s q r i e lt l = elim (Bool-cases (r == 0)) [
  | inl full ↦
      let below : suc i ≤ q = ground arith in
      omega (arith, mul_comm s q, next_start i s, (==_iff r 0).0 full, mul-le-mul_right s below)
  | inr more ↦
      let below : i ≤ q = ground arith in
      let positive : 0 < r = ground arith in omega (arith, mul_comm s q, mul-le-mul_right s below)
]

-- The number of blocks is enough for the text, and no block is empty.
pub numblocks_enough :
    (tx : TxAmp)
    → 0 < tx.xmtblocksize
    → length tx.xmtdata ≤ (xmt_calc_numblocks tx).xmtnumblocks * tx.xmtblocksize
unfolding xmt_calc_numblocks round_up
numblocks_enough tx h =
    let n = length tx.xmtdata in
    let s = tx.xmtblocksize in
    round_up_enough n s (n / s) (n % s) (sym (div-add-mod n s)) (mod-lt n h)

pub numblocks_tight :
    (tx : TxAmp) (i : ℕ)
    → 0 < tx.xmtblocksize
    → i < (xmt_calc_numblocks tx).xmtnumblocks
    → i * tx.xmtblocksize < length tx.xmtdata
unfolding xmt_calc_numblocks round_up
numblocks_tight tx i h l =
    let n = length tx.xmtdata in
    let s = tx.xmtblocksize in
    round_up_tight n s (n / s) (n % s) i (sym (div-add-mod n s)) (mod-lt n h) l

-- There are no more blocks than bytes.
pub numblocks_le :
    (tx : TxAmp) → 0 < tx.xmtblocksize → (xmt_calc_numblocks tx).xmtnumblocks ≤ length tx.xmtdata
numblocks_le tx h =
    at_most (xmt_calc_numblocks tx).xmtnumblocks tx.xmtblocksize h (λ i l. numblocks_tight tx i h l)
  where
    at_most : (n size : ℕ) {len : ℕ} → 0 < size → ((i : ℕ) → i < n → i * size < len) → n ≤ len
    at_most zero size p f = omega arith
    at_most (suc i) size p f =
        let wide : i * 1 ≤ i * size = mul-le-mul_left i p in omega (arith, f i (omega arith), wide)
