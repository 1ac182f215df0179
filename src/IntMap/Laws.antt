-- ===== src/IntMap/Laws.antt =====
-- What `find` returns after `insert`, and the order of the entries.
use flimg.Prelude.{ℕ, suc, ◌≡◌, refl, arith, true, false, List, [], ◌∷◌}
use flimg.Prelude.{none, some, length, ==_refl}
use flimg.Cstd.{ℤ, pos, negsuc}
use flimg.IntMap.{IntMap, ltb_int, eqb_int, find, insert}

pub ltb_int_trans : (i j k : ℤ) → ltb_int i j ≡ true → ltb_int j k ≡ true → ltb_int i k ≡ true
unfolding ltb_int
ltb_int_trans (pos i) (pos j) (pos k) h l = ground arith
ltb_int_trans (pos i) (pos j) (negsuc k) h l = ground arith
ltb_int_trans (pos i) (negsuc j) k h l = ground arith
ltb_int_trans (negsuc i) (pos j) (pos k) h l = refl
ltb_int_trans (negsuc i) (pos j) (negsuc k) h l = ground arith
ltb_int_trans (negsuc i) (negsuc j) (pos k) h l = refl
ltb_int_trans (negsuc i) (negsuc j) (negsuc k) h l = ground arith

pub ltb_int-eqb_int : (i j : ℤ) → ltb_int i j ≡ true → eqb_int i j ≡ false
unfolding ltb_int eqb_int
ltb_int-eqb_int (pos i) (pos j) h = ground arith
ltb_int-eqb_int (pos i) (negsuc j) h = refl
ltb_int-eqb_int (negsuc i) (pos j) h = refl
ltb_int-eqb_int (negsuc i) (negsuc j) h = ground arith

pub eqb_int_sound : (i j : ℤ) → eqb_int i j ≡ true → i ≡ j
unfolding eqb_int
eqb_int_sound (pos i) (pos j) h = ground arith
eqb_int_sound (pos i) (negsuc j) h = ground arith
eqb_int_sound (negsuc i) (pos j) h = ground arith
eqb_int_sound (negsuc i) (negsuc j) h = ground arith

pub eqb_int_refl : (i : ℤ) → eqb_int i i ≡ true
unfolding eqb_int
eqb_int_refl (pos i) = ==_refl i
eqb_int_refl (negsuc i) = ==_refl i

pub ltb_int_total : (i j : ℤ) → ltb_int i j ≡ false → eqb_int i j ≡ false → ltb_int j i ≡ true
unfolding ltb_int eqb_int
ltb_int_total (pos i) (pos j) h l = ground arith
ltb_int_total (pos i) (negsuc j) h l = refl
ltb_int_total (negsuc i) (pos j) h l = ground arith
ltb_int_total (negsuc i) (negsuc j) h l = ground arith

pub find-insert_self :
    (k : ℤ) (v : List ℕ) (m : IntMap) → find k m ≡ none → find k (insert k v m) ≡ some v
unfolding find insert
find-insert_self k v [] h = rw (eqb_int_refl k)
find-insert_self k v ((j, w) ∷ m) h = ground (arith, find-insert_self k v m, eqb_int_refl k)

pub find-insert_ne :
    (i k : ℤ) (v : List ℕ) (m : IntMap) → eqb_int i k ≡ false → find i (insert k v m) ≡ find i m
unfolding find insert
find-insert_ne i k v [] h = rw h
find-insert_ne i k v ((j, w) ∷ m) h = ground (arith, find-insert_ne i k v m h)

pub length-insert :
    (k : ℤ) (v : List ℕ) (m : IntMap) → find k m ≡ none → length (insert k v m) ≡ suc (length m)
unfolding find insert
length-insert k v [] h = refl
length-insert k v ((j, w) ∷ m) h = ground (arith, length-insert k v m)
