-- ===== src/Timing.antt =====
-- The timing table of the modems (src/utils/time_table.cxx). A C string is the list of its bytes in
-- front of the zero. The arithmetic of `float` is a parameter: no theorem asks anything of it.
pub mod Names
pub mod Lookup
pub mod Exact
pub mod History
pub mod Available
mod Tests
use flimg.Prelude.{
  ℕ, zero, suc, ◌+◌, ◌%◌, bit_and, Bool, true, false, ◌&&◌, List, [], ◌∷◌, Option, none, some,
}
use flimg.Prelude.{◌==◌, if◌then◌else◌, length, codes}

-- What the functions use of `float`; `sixtieth` divides by 60.0 in `double` and rounds.
pub record Floats (F : Type 0) : Type 0 where
  pub nothing : F
  pub add : F → F → F
  pub mul : F → F → F
  pub sixtieth : F → F

-- `MODE_TIME_TABLE`; the array of 256 times is a function of the character.
pub record ModeTimeTable (F : Type 0) : Type 0 where
  pub mode_name : List ℕ
  pub scale : F
  pub overhead : F
  pub table : ℕ → F

-- `strncmp(a, b, n) == 0`
unfoldable pub same_start : ℕ → List ℕ → List ℕ → Bool
same_start zero a b = true
same_start (suc n) [] [] = true
same_start (suc n) [] (y ∷ ys) = false
same_start (suc n) (x ∷ xs) [] = false
same_start (suc n) (x ∷ xs) (y ∷ ys) = (x == y) && same_start n xs ys

-- `str_cnt`, of a string that is there.
unfoldable pub str_cnt : List ℕ → ℕ → ℕ
str_cnt str zero = 0
str_cnt [] (suc count_limit) = 0
str_cnt (c ∷ cs) (suc count_limit) = suc (str_cnt cs count_limit)

-- What a call leaves: the seconds, `*overhead` (none for a null pointer), and the static variable.
pub record Timed (F : Type 0) : Type 0 where
  pub seconds : F
  pub overhead : Option F
  pub last_mode : ℕ

-- `if(overhead) *overhead = value;`
unfoldable pub write_overhead : {F : Type 0} → Option F → F → Option F
write_overhead none value = none
write_overhead (some old) value = some value

unfoldable pub entry_at : {F : Type 0} → List (ModeTimeTable F) → ℕ → Option (ModeTimeTable F)
entry_at [] i = none
entry_at (m ∷ ms) zero = some m
entry_at (m ∷ ms) (suc i) = entry_at ms i

-- The loop of `seconds_from_c_string`, from the position `mode_index` on.
unfoldable pub find_mode :
    {F : Type 0} → ℕ → List ℕ → List (ModeTimeTable F) → Option (ℕ × ModeTimeTable F)
find_mode mode_index mode [] = none
find_mode mode_index mode (m ∷ ms) =
    let rest = find_mode (suc mode_index) mode ms in
    if same_start 16 mode m.mode_name then some (mode_index, m) else rest

module _ {F : Type 0} (floats : Floats F) where
  -- The loop of `time_length`.
  unfoldable pub accumulate : ModeTimeTable F → F → List ℕ → F
  accumulate m accum [] = accum
  accumulate m accum (c ∷ cs) = accumulate m (floats.add accum (m.table (bit_and c 0xFF))) cs

  unfoldable pub time_length : ModeTimeTable F → List ℕ → F
  time_length m string = floats.mul (accumulate m floats.nothing string) m.scale

  unfoldable pub timed_with : ModeTimeTable F → ℕ → List ℕ → Option F → Timed F
  timed_with m i string overhead = record {
    seconds = time_length m string;
    overhead = write_overhead overhead m.overhead;
    last_mode = i;
  }

  unfoldable pub untimed : ℕ → Option F → Timed F
  untimed last_mode overhead = record {
    seconds = floats.nothing;
    overhead = overhead;
    last_mode = last_mode;
  }

  -- `seconds_from_c_string`, where `string` is the `length` bytes; none is a read outside the table.
  unfoldable pub seconds_from_c_string :
      List (ModeTimeTable F) → ℕ → List ℕ → List ℕ → Option F → Option (Timed F)
  seconds_from_c_string mode_time_table last_mode mode [] overhead =
      some (untimed last_mode overhead)
  seconds_from_c_string mode_time_table last_mode mode (c ∷ cs) overhead =
      elim (entry_at mode_time_table last_mode) [
        | none ↦ none
        | some m ↦
            if same_start 16 mode m.mode_name
            then some (timed_with m last_mode (c ∷ cs) overhead)
            else elim (find_mode 0 mode mode_time_table) [
              | none ↦ some (untimed last_mode overhead)
              | some (i, found) ↦ some (timed_with found i (c ∷ cs) overhead)
            ]
      ]

  unfoldable pub in_minutes : Timed F → Timed F
  in_minutes t = record t {
    seconds = floats.sixtieth t.seconds;
    overhead = elim t.overhead [ none ↦ none | some o ↦ some (floats.sixtieth o) ];
  }

  unfoldable pub minutes_from_c_string :
      List (ModeTimeTable F) → ℕ → List ℕ → List ℕ → Option F → Option (Timed F)
  minutes_from_c_string mode_time_table last_mode mode string overhead =
      elim (seconds_from_c_string mode_time_table last_mode mode string overhead) [
        | none ↦ none
        | some t ↦ some (in_minutes t)
      ]

-- The loop of `modem_available`.
unfoldable pub available_loop : {F : Type 0} → List ℕ → ℕ → List (ModeTimeTable F) → Bool
available_loop modem search_limit [] = false
available_loop modem search_limit (m ∷ ms) =
    let rest = available_loop modem search_limit ms in
    if same_start search_limit modem m.mode_name && (str_cnt m.mode_name 16 == search_limit)
    then true
    else rest

-- Both functions of that name, of a string without null characters.
unfoldable pub modem_available : {F : Type 0} → List (ModeTimeTable F) → List ℕ → Bool
modem_available mode_time_table [] = false
modem_available mode_time_table (c ∷ cs) = available_loop (c ∷ cs) (length (c ∷ cs)) mode_time_table

-- `modem_at_index`, of an index that is not negative.
unfoldable pub modem_at_index : {F : Type 0} → List (ModeTimeTable F) → ℕ → List ℕ
modem_at_index mode_time_table index = elim (entry_at mode_time_table index) [
  | none ↦ codes "Bad Index"
  | some m ↦ m.mode_name
]
