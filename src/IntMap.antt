-- ===== src/IntMap.antt =====
-- `std::map<int, std::string>`, the `AMPmap` of src/include/amp.h: its entries in the order in
-- which an iterator visits them.
pub mod Laws
pub mod Extensionality
use flimg.Prelude.{ℕ, Bool, true, false, List, [], ◌∷◌, ◌++◌, Option, none, some}
use flimg.Prelude.{ltb, ◌==◌, if◌then◌else◌}
use flimg.Cstd.{ℤ, pos, negsuc}

-- `<` and `==` of `int`.
unfoldable pub ltb_int : ℤ → ℤ → Bool
ltb_int (pos m) (pos n) = ltb m n
ltb_int (pos m) (negsuc n) = false
ltb_int (negsuc m) (pos n) = true
ltb_int (negsuc m) (negsuc n) = ltb n m

unfoldable pub eqb_int : ℤ → ℤ → Bool
eqb_int (pos m) (pos n) = m == n
eqb_int (pos m) (negsuc n) = false
eqb_int (negsuc m) (pos n) = false
eqb_int (negsuc m) (negsuc n) = m == n

abbrev pub IntMap : Type 0
IntMap = List (ℤ × List ℕ)

unfoldable pub find : ℤ → IntMap → Option (List ℕ)
find k [] = none
find k ((j, v) ∷ m) = if eqb_int k j then some v else find k m

-- `insert` keeps an entry that is there.
unfoldable pub insert : ℤ → List ℕ → IntMap → IntMap
insert k v [] = (k, v) ∷ []
insert k v ((j, w) ∷ m) =
    let rest = insert k v m in
    if ltb_int k j then (k, v) ∷ (j, w) ∷ m else if eqb_int k j then (j, w) ∷ m else (j, w) ∷ rest

-- The values, one behind the other, in the order of their keys.
unfoldable pub join : IntMap → List ℕ
join [] = []
join ((k, v) ∷ m) = v ++ join m
