-- ===== src/Timing/Tests.antt =====
-- The timing table over whole numbers in place of `float`.
use flimg.Prelude.{ℕ, ◌+◌, ◌*◌, ◌/◌, ◌<◌, ◌≡◌, ◌↔◌, refl, true, List, [], ◌∷◌, none, some, map}
use flimg.Prelude.{codes, length}
use flimg.Timing.{Floats, ModeTimeTable, modem_available, modem_at_index, minutes_from_c_string}
use flimg.Timing.Names.{mode_names}
use flimg.Timing.Lookup.{names}
use flimg.Timing.History.{Call}
use flimg.Timing.Available.{modem_available-modem_at_index}

abbrev whole_numbers : Floats ℕ
whole_numbers = record {
  nothing = 0;
  add = λ a b. a + b;
  mul = λ a b. a * b;
  sixtieth = λ a. a / 60;
}

abbrev entry_for : List ℕ → ModeTimeTable ℕ
entry_for name = record {
  mode_name = name;
  scale = 1;
  overhead = 120;
  table = λ c. c + length name;
}

abbrev whole_table : List (ModeTimeTable ℕ)
whole_table = map entry_for mode_names

abbrev three_calls : List (Call ℕ)
three_calls =
    record { mode = codes "MFSK16"; string = codes "ab"; overhead = some 7 }
    ∷ record { mode = codes "MFSK"; string = codes "ab"; overhead = some 7 }
    ∷ record { mode = codes "MFSK16"; string = codes "c"; overhead = none }
    ∷ []

named_so : names whole_table ≡ mode_names
named_so = refl

modem_available-modem_at_index_example :
    (modem_available whole_table (codes "THOR100") ≡ true)
    ↔ ((i : ℕ) × (i < length whole_table) × (modem_at_index whole_table i ≡ codes "THOR100"))
modem_available-modem_at_index_example =
    modem_available-modem_at_index whole_table named_so (codes "THOR100")

-- An overhead that was not written is divided all the same.
unknown_mode :
    minutes_from_c_string whole_numbers whole_table 0 (codes "MFSK") (codes "ab") (some 60)
    ≡ some (record { seconds = 0; overhead = some 1; last_mode = 0 })
unfolding minutes_from_c_string flimg.Timing.seconds_from_c_string flimg.Timing.entry_at
    flimg.Timing.same_start flimg.Timing.find_mode flimg.Timing.untimed flimg.Timing.in_minutes
unknown_mode = refl
