-- ===== src/IntMap/Extensionality.antt =====
-- Two maps in the order of their keys that give the same answers are the same list of entries.
use flimg.Prelude.{ℕ, ◌≡◌, refl, ap, ap₂, sym, ◌∙◌, true, false, List, [], ◌∷◌, none, some}
use flimg.Prelude.{All, ◌≢◌, Bool-cases, inl, inr}
use mathlib.Core.Option.{some-injective, none-ne-some}
use flimg.Cstd.{ℤ}
use flimg.IntMap.{IntMap, ltb_int, eqb_int, find, insert}
use flimg.IntMap.Laws.{ltb_int_trans, ltb_int-eqb_int, eqb_int_sound, eqb_int_refl, ltb_int_total}

-- `k` is below the keys of `m`.
abbrev pub IsBelow : ℤ → IntMap → Type 0
IsBelow k m = All (λ (e : ℤ × List ℕ). ltb_int k e.0 ≡ true) m

abbrev pub IsSorted : IntMap → Type 0
IsSorted [] = All (λ (e : ℤ × List ℕ). ltb_int e.0 e.0 ≡ true) []
IsSorted (e ∷ m) = IsBelow e.0 m × IsSorted m

IsBelow-trans : (i k : ℤ) (m : IntMap) → ltb_int i k ≡ true → IsBelow k m → IsBelow i m
IsBelow-trans i k [] h b = tt
IsBelow-trans i k ((j, v) ∷ m) h (b, bs) = (ltb_int_trans i k j h b, IsBelow-trans i k m h bs)

find_below : (k : ℤ) (m : IntMap) → IsBelow k m → find k m ≡ none
unfolding find
find_below k [] b = refl
find_below k ((j, v) ∷ m) (b, bs) = rw (ltb_int-eqb_int k j b) (find_below k m bs)

insert-IsBelow :
    (i k : ℤ) (v : List ℕ) (m : IntMap)
    → ltb_int i k ≡ true
    → IsBelow i m
    → IsBelow i (insert k v m)
unfolding insert
insert-IsBelow i k v [] h b = (h, tt)
insert-IsBelow i k v ((j, w) ∷ m) h (b, bs) = elim (Bool-cases (ltb_int k j)) [
  | inl lt ↦ rw lt (h, (b, bs))
  | inr ge ↦ elim (Bool-cases (eqb_int k j)) [
    | inl e ↦ rw (ge, e) (b, bs)
    | inr e ↦ rw (ge, e) (b, insert-IsBelow i k v m h bs)
  ]
]

pub insert-IsSorted : (k : ℤ) (v : List ℕ) (m : IntMap) → IsSorted m → IsSorted (insert k v m)
unfolding insert
insert-IsSorted k v [] s = (tt, tt)
insert-IsSorted k v ((j, w) ∷ m) (b, s) = elim (Bool-cases (ltb_int k j)) [
  | inl lt ↦ rw lt ((lt, IsBelow-trans k j m lt b), (b, s))
  | inr ge ↦ elim (Bool-cases (eqb_int k j)) [
    | inl e ↦ rw (ge, e) (b, s)
    | inr e ↦
        rw (ge, e) (insert-IsBelow j k v m (ltb_int_total k j ge e) b, insert-IsSorted k v m s)
  ]
]

find_head : (k : ℤ) (v : List ℕ) (m : IntMap) → find k ((k, v) ∷ m) ≡ some v
unfolding find
find_head k v m = rw (eqb_int_refl k)

find_tail :
    (i k : ℤ) (v : List ℕ) (m : IntMap) → eqb_int i k ≡ false → find i ((k, v) ∷ m) ≡ find i m
unfolding find
find_tail i k v m h = rw h

-- Two sorted maps with a first key of one that the other does not have differ there.
first_is_missing :
    (k : ℤ) (v : List ℕ) (m n : IntMap) → IsBelow k n → find k ((k, v) ∷ m) ≢ find k n
first_is_missing k v m n b e =
    absurd (none-ne-some v (sym (find_below k n b) ∙ sym e ∙ find_head k v m))

tails_agree :
    (k : ℤ) (v w : List ℕ) (m n : IntMap)
    → IsBelow k m
    → IsBelow k n
    → ((i : ℤ) → find i ((k, v) ∷ m) ≡ find i ((k, w) ∷ n))
    → (i : ℤ) → find i m ≡ find i n
tails_agree k v w m n b c h i = elim (Bool-cases (eqb_int i k)) [
  | inl e ↦ rw (eqb_int_sound i k e) (find_below k m b ∙ sym (find_below k n c))
  | inr e ↦ sym (find_tail i k v m e) ∙ h i ∙ find_tail i k w n e
]

same_key :
    (k j : ℤ) (v w : List ℕ) (m n : IntMap)
    → k ≡ j
    → ((i : ℤ) → find i ((k, v) ∷ m) ≡ find i ((j, w) ∷ n))
    → (i : ℤ) → find i ((k, v) ∷ m) ≡ find i ((k, w) ∷ n)
same_key k j v w m n e h i = h i ∙ ap (λ z. find i ((z, w) ∷ n)) (sym e)

same_value :
    (k : ℤ) (v w : List ℕ) (m n : IntMap) → find k ((k, v) ∷ m) ≡ find k ((k, w) ∷ n) → v ≡ w
same_value k v w m n h = some-injective v w (sym (find_head k v m) ∙ h ∙ find_head k w n)

IsBelow-same : (k j : ℤ) (n : IntMap) → k ≡ j → IsBelow j n → IsBelow k n
IsBelow-same k j n e c = rw e c

pub eq_by_find : (m n : IntMap) → IsSorted m → IsSorted n → ((i : ℤ) → find i m ≡ find i n) → m ≡ n
eq_by_find [] [] s t h = refl
eq_by_find [] ((k, w) ∷ n) s t h = absurd (first_is_missing k w n [] tt (sym (h k)))
eq_by_find ((k, v) ∷ m) [] s t h = absurd (first_is_missing k v m [] tt (h k))
eq_by_find ((k, v) ∷ m) ((j, w) ∷ n) (b, s) (c, t) h = elim (Bool-cases (ltb_int k j)) [
  | inl lt ↦ absurd (first_is_missing k v m ((j, w) ∷ n) (lt, IsBelow-trans k j n lt c) (h k))
  | inr ge ↦ elim (Bool-cases (eqb_int k j)) [
    | inr ne ↦
        let gt = ltb_int_total k j ge ne in
        absurd (first_is_missing j w n ((k, v) ∷ m) (gt, IsBelow-trans j k m gt b) (sym (h j)))
    | inl e ↦
        let eq = eqb_int_sound k j e in
        let answers = same_key k j v w m n eq h in
        let tails = tails_agree k v w m n b (IsBelow-same k j n eq c) answers in
        ap (λ z. (z, v) ∷ m) eq
        ∙ ap₂ (λ u rest. (j, u) ∷ rest) (same_value k v w m n (answers k))
            (eq_by_find m n s t tails)
  ]
]
