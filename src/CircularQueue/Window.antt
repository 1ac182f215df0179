-- ===== src/CircularQueue/Window.antt =====
-- A stretch of the ring, and what a write beside it changes.
use flimg.Prelude.{
  ℕ, zero, suc, ◌+◌, ◌-◌, ◌%◌, ◌≤◌, ◌<◌, ◌≡◌, ◌≢◌, refl, sym, ap, ap₂, ◌∙◌, arith, List, [], ◌∷◌,
  ◌++◌,
}
use flimg.Prelude.{get_or, set, length, get_or-set_self, get_or-set_ne, take, drop}
use native.Mathlib.Nat.{mod-add-mod, mod-eq_of_lt, mod-eq-sub-mod, mod-lt}
use native.Mathlib.Decide.{dec_lt}

-- `n` bytes from index `h` on, round a ring of `size`.
abbrev pub window : List ℕ → ℕ → (h n : ℕ) → List ℕ
window buffer size h zero = []
window buffer size h (suc n) = get_or buffer (h % size) 0 ∷ window buffer size (h + 1) n

pub length-window : (buffer : List ℕ) (size h n : ℕ) → length (window buffer size h n) ≡ n
length-window buffer size h zero = refl
length-window buffer size h (suc n) = ap suc (length-window buffer size (h + 1) n)

suc-mod : (size h k : ℕ) → h % size ≡ k % size → (h + 1) % size ≡ (k + 1) % size
suc-mod size h k e = sym (mod-add-mod h size 1) ∙ ap (λ t. (t + 1) % size) e ∙ mod-add-mod k size 1

-- Only the index's place in the ring matters.
pub window_mod :
    (buffer : List ℕ) (size h k n : ℕ)
    → h % size ≡ k % size
    → window buffer size h n ≡ window buffer size k n
window_mod buffer size h k zero e = refl
window_mod buffer size h k (suc n) e =
    ap₂ ◌∷◌ (ap (λ i. get_or buffer i 0) e)
      (window_mod buffer size (h + 1) (k + 1) n (suc-mod size h k e))

-- Less than a whole turn does not come back to the start.
add-mod-ne : (size h d : ℕ) → 0 < d → d < size → (h + d) % size ≢ h % size
add-mod-ne size h d pos lt e =
    let r : ℕ = h % size in
    let below : r < size = mod-lt h (omega arith) in
    let turned : (r + d) % size ≡ r = mod-add-mod h size d ∙ e in
    elim (dec_lt (r + d) size) [
      | yes p ↦ omega (arith, mod-eq_of_lt p)
      | no p ↦ omega (
        arith,
        mod-eq-sub-mod {n = r + d} {m = size} (omega arith),
        mod-eq_of_lt {n = r + d - size} {m = size} (omega arith),
      )
    ]

-- A write behind a stretch leaves it alone.
window-set_behind :
    (buffer : List ℕ) (size h n d c : ℕ)
    → n + d < size
    → window (set buffer ((h + n + d) % size) c) size h n ≡ window buffer size h n
window-set_behind buffer size h zero d c lt = refl
window-set_behind buffer size h (suc n) d c lt = ap₂ ◌∷◌ (get_or-set_ne buffer c 0 apart) (
    ap (λ i. window (set buffer (i % size) c) size (h + 1) n) (omega arith)
    ∙ window-set_behind buffer size (h + 1) n d c (omega arith))
  where
    apart : (h + suc n + d) % size ≢ h % size
    apart e =
        add-mod-ne size h (suc n + d) (omega arith) (omega arith)
          (ap (λ i. i % size) (omega arith) ∙ e)

pub window_append :
    (buffer : List ℕ) (size h n m : ℕ)
    → window buffer size h (n + m) ≡ window buffer size h n ++ window buffer size (h + n) m
window_append buffer size h zero m =
    let here : h ≡ h + 0 = omega arith in
    let all : 0 + m ≡ m = omega arith in
    ap (window buffer size h) all ∙ ap (λ t. window buffer size t m) here
window_append buffer size h (suc n) m =
    let count : suc n + m ≡ suc (n + m) = omega arith in
    let start : h + 1 + n ≡ h + suc n = omega arith in
    ap (window buffer size h) count
    ∙ ap (λ t. get_or buffer (h % size) 0 ∷ t)
        (window_append buffer size (h + 1) n m
          ∙ ap (λ t. window buffer size (h + 1) n ++ window buffer size t m) start)

-- A write just behind a stretch makes it longer.
pub window-set :
    (buffer : List ℕ) (size h n c : ℕ)
    → size ≤ length buffer
    → n < size
    → window (set buffer ((h + n) % size) c) size h (n + 1) ≡ window buffer size h n ++ (c ∷ [])
window-set buffer size h n c fits lt =
    let at : (h + n) % size ≡ (h + n + 0) % size = ap (λ t. t % size) (omega arith) in
    window_append (set buffer ((h + n) % size) c) size h n 1
    ∙ ap₂ ◌++◌
        (ap (λ i. window (set buffer i c) size h n) at
          ∙ window-set_behind buffer size h n 0 c (omega arith))
        (ap (λ t. t ∷ [])
          (get_or-set_self buffer ((h + n) % size) c 0
            (omega (arith, mod-lt (h + n) {m = size} (omega arith)))))

-- The front of a stretch, and what is behind it.
pub take-window :
    (buffer : List ℕ) (size h n k : ℕ)
    → k ≤ n
    → take k (window buffer size h n) ≡ window buffer size h k
take-window buffer size h n zero le = refl
take-window buffer size h zero (suc k) le = absurd (omega arith)
take-window buffer size h (suc n) (suc k) le =
    ap (λ t. get_or buffer (h % size) 0 ∷ t) (take-window buffer size (h + 1) n k (omega arith))

pub drop-window :
    (buffer : List ℕ) (size h n k : ℕ)
    → k ≤ n
    → drop k (window buffer size h n) ≡ window buffer size (h + k) (n - k)
drop-window buffer size h n zero le =
    let start : h ≡ h + 0 = omega arith in
    let all : n ≡ n - 0 = omega arith in
    ap (window buffer size h) all ∙ ap (λ t. window buffer size t (n - 0)) start
drop-window buffer size h zero (suc k) le = absurd (omega arith)
drop-window buffer size h (suc n) (suc k) le =
    let start : h + 1 + k ≡ h + suc k = omega arith in
    let left : n - k ≡ suc n - suc k = omega arith in
    drop-window buffer size (h + 1) n k (omega arith)
    ∙ ap (λ t. window buffer size t (n - k)) start
    ∙ ap (window buffer size (h + suc k)) left
