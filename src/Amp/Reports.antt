-- ===== src/Amp/Reports.antt =====
-- The reports on missing blocks in src/utils/amp.cxx: what the receiving half writes, and the list
-- that the sending half makes of it.
pub mod Fuel
pub mod Reading
pub mod Agreement
mod Tests
use flimg.Prelude.{ℕ, zero, suc, ◌+◌, Bool, List, [], ◌∷◌, ◌++◌, Option, none, some}
use flimg.Prelude.{if◌then◌else◌, take, length, codes}
use flimg.Cstd.{ℤ, pos, negsuc, print_int, scan_int, is_digit}
use flimg.Crc16.{scrc16}
use flimg.IntMap.{IntMap, find, ltb_int, eqb_int}
use flimg.Amp.{RxAmp, frame}

abbrev pub is_empty : List ℕ → Bool
is_empty [] = Bool.true
is_empty (c ∷ cs) = Bool.false

-- How often `for(int i = 1; i <= n; i++)` runs.
abbrev pub iterations : ℤ → ℕ
iterations (pos n) = n
iterations (negsuc n) = 0

abbrev pub is_missing : IntMap → ℕ → Bool
is_missing m i = elim (find (pos i) m) [ none ↦ Bool.true | some v ↦ Bool.false ]

-- The loop of `rx_missing`, from `i`. A buffer of ten bytes takes nine characters.
unfoldable pub rx_missing_loop : IntMap → ℕ → ℕ → List ℕ → List ℕ
rx_missing_loop m zero i missing = missing
rx_missing_loop m (suc k) i missing =
    let number : List ℕ = take 9 (print_int (pos i)) in
    rx_missing_loop m k (suc i) (
      if is_missing m i
      then missing ++ (if is_empty missing then number else codes ", " ++ number)
      else missing)

unfoldable pub rx_missing : RxAmp → List ℕ
rx_missing rx = rx_missing_loop rx.rxblocks (iterations rx.rxnumblocks) 1 []

-- The loop of `rx_report`.
unfoldable pub rx_report_loop : IntMap → ℕ → ℕ → List ℕ → List ℕ
rx_report_loop m zero i missing = missing
rx_report_loop m (suc k) i missing =
    rx_report_loop m k (suc i)
      (if is_missing m i then missing ++ take 9 (print_int (pos i) ++ b' ' ∷ []) else missing)

-- A report without numbers is a word: `rx_crc_flags` are the headers that have not come.
unfoldable pub or_word : List ℕ → ℕ → List ℕ
or_word [] zero = codes "CONFIRMED"
or_word [] (suc flags) = codes "PREAMBLE"
or_word (c ∷ cs) flags = c ∷ cs

unfoldable pub report_body : RxAmp → List ℕ
report_body rx =
    or_word (rx_report_loop rx.rxblocks (iterations rx.rxnumblocks) 1 []) rx.rx_crc_flags

unfoldable pub rx_report : RxAmp → List ℕ
rx_report rx = frame (codes "<MISSING ") (b'{' ∷ (rx.rxhash ++ b'}' ∷ report_body rx))

-- The two inner loops of `reformat_missing_blocks`.
unfoldable pub erase_digits : List ℕ → List ℕ
erase_digits [] = []
erase_digits (c ∷ cs) = if is_digit c then erase_digits cs else c ∷ cs

unfoldable pub erase_others : List ℕ → List ℕ
erase_others [] = []
erase_others (c ∷ cs) = if is_digit c then c ∷ cs else erase_others cs

unfoldable pub has_block : ℤ → List ℤ → Bool
has_block z [] = Bool.false
has_block z (y ∷ ys) = if eqb_int y z then Bool.true else has_block z ys

-- `iblocks.push_back` of a number that is not there.
unfoldable pub push_block : Option ℤ → List ℤ → List ℤ
push_block none iblocks = iblocks
push_block (some z) iblocks = if has_block z iblocks then iblocks else iblocks ++ z ∷ []

-- The outer loop, on fuel: each turn takes at least one character off the text.
unfoldable pub read_blocks : ℕ → List ℕ → List ℤ → List ℤ
read_blocks zero text iblocks = iblocks
read_blocks (suc fuel) [] iblocks = iblocks
read_blocks (suc fuel) (c ∷ cs) iblocks =
    read_blocks fuel (erase_others (erase_digits (c ∷ cs))) (push_block (scan_int (c ∷ cs)) iblocks)

-- `iblocks.sort()`
unfoldable pub insert_block : ℤ → List ℤ → List ℤ
insert_block z [] = z ∷ []
insert_block z (y ∷ ys) =
    let rest = insert_block z ys in if ltb_int y z then y ∷ rest else z ∷ y ∷ ys

unfoldable pub sort : List ℤ → List ℤ
sort [] = []
sort (z ∷ zs) = insert_block z (sort zs)

unfoldable pub join_blocks : List ℤ → List ℕ → List ℕ
join_blocks [] to_send = to_send
join_blocks (z ∷ zs) to_send =
    let szblock : List ℕ = take 9 (print_int z) in
    join_blocks zs (to_send ++ (if is_empty to_send then szblock else b',' ∷ szblock))

-- The new `_missing_block_count`, and the text returned.
unfoldable pub reformat_missing_blocks : List ℕ → ℕ × List ℕ
reformat_missing_blocks missing_blocks =
    let iblocks = sort (read_blocks (length missing_blocks) missing_blocks []) in
    (length iblocks, join_blocks iblocks [])
