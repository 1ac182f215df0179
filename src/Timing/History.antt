-- ===== src/Timing/History.antt =====
-- A sequence of calls of `seconds_from_c_string`, each with what the last one left.
use flimg.Prelude.{ℕ, ◌<◌, ◌≡◌, refl, sym, ap, ◌∙◌, arith, true, List, [], ◌∷◌, Option, none, some}
use flimg.Prelude.{length, Bool-cases, Option-cases, inl, inr}
use flimg.Timing.{
  Floats, ModeTimeTable, same_start, Timed, write_overhead, find_mode, time_length, timed_with,
  untimed, seconds_from_c_string,
}
use flimg.Timing.Names.{mode_names}
use flimg.Timing.Lookup.{
  names, all_unlike, mode_names_unlike, found_entry, entry_at-some, find_mode-lt,
}
use flimg.Timing.Exact.{entry_of, all_short, mode_names_short, without_index, find_mode-exact}

pub record Call (F : Type 0) : Type 0 where
  pub mode : List ℕ
  pub string : List ℕ
  pub overhead : Option F

module _ {F : Type 0} (floats : Floats F) (mode_time_table : List (ModeTimeTable F)) where
  -- The results of the calls, one after the other; none is a read outside the table.
  unfoldable pub run : ℕ → List (Call F) → Option (List (F × Option F))
  run last_mode [] = some []
  run last_mode (call ∷ calls) =
      elim (seconds_from_c_string floats mode_time_table last_mode call.mode call.string
        call.overhead) [
          | none ↦ none
          | some t ↦ elim (run t.last_mode calls) [
            | none ↦ none
            | some results ↦ some ((t.seconds, t.overhead) ∷ results)
          ]
        ]

  -- The time of a text with the entry of that name, and its overhead.
  unfoldable pub timing_of : Option (ModeTimeTable F) → List ℕ → Option F → F × Option F
  timing_of none string overhead = (floats.nothing, overhead)
  timing_of (some m) string overhead =
      (time_length floats m string, write_overhead overhead m.overhead)

  unfoldable pub timing : List ℕ → List ℕ → Option F → F × Option F
  timing mode [] overhead = (floats.nothing, overhead)
  timing mode (c ∷ cs) overhead = timing_of (entry_of mode mode_time_table) (c ∷ cs) overhead

  abbrev pub result : Timed F → F × Option F
  result t = (t.seconds, t.overhead)

  module _ (named : names mode_time_table ≡ mode_names) where
    apart : all_unlike (names mode_time_table) ≡ true
    apart = ap all_unlike named ∙ mode_names_unlike

    short : all_short (names mode_time_table) ≡ true
    short = ap all_short named ∙ mode_names_short

    -- What the search finds is the entry of that name.
    timing_found :
        (mode string : List ℕ) (overhead : Option F) (o : Option (ℕ × ModeTimeTable F))
        → find_mode 0 mode mode_time_table ≡ o
        → timing_of (without_index o) string overhead
          ≡ timing_of (entry_of mode mode_time_table) string overhead
    timing_found mode string overhead o e =
        ap (λ m. timing_of m string overhead)
          (ap without_index (sym e) ∙ find_mode-exact mode 0 mode_time_table short)

    abbrev Good : ℕ → List ℕ → List ℕ → Option F → Type 0
    Good last_mode mode string overhead =
        (t : Timed F) × (seconds_from_c_string floats mode_time_table last_mode mode string overhead
          ≡ some t)
        × (result t ≡ timing mode string overhead)
        × (t.last_mode < length mode_time_table)

    step :
        (last_mode : ℕ) (mode string : List ℕ) (overhead : Option F)
        → last_mode < length mode_time_table
        → Good last_mode mode string overhead
    unfolding seconds_from_c_string timing timed_with untimed timing_of
    step last_mode mode [] overhead h = (untimed floats last_mode overhead, refl, refl, h)
    step last_mode mode (c ∷ cs) overhead h =
        let (m, here) = entry_at-some mode_time_table last_mode h in
        elim (Bool-cases (same_start 16 mode m.mode_name)) [
          | inl t ↦
              let found = found_entry mode mode_time_table last_mode 0 m apart here t in
              (
                timed_with floats m last_mode (c ∷ cs) overhead,
                rw (here, t, seconds_from_c_string) refl,
                timing_found mode (c ∷ cs) overhead _ found,
                h,
              )
          | inr f ↦ elim (Option-cases (find_mode 0 mode mode_time_table)) [
            | inl missing ↦ (
              untimed floats last_mode overhead,
              rw (here, f, missing, seconds_from_c_string) refl,
              timing_found mode (c ∷ cs) overhead none missing,
              h,
            )
            | inr ((i, other), found) ↦ (
              timed_with floats other i (c ∷ cs) overhead,
              rw (here, f, found, seconds_from_c_string) refl,
              timing_found mode (c ∷ cs) overhead _ found,
              omega (arith, find_mode-lt mode mode_time_table 0 i other found),
            )
          ]
        ]
