-- ===== src/Timing/Available.antt =====
-- `modem_available` and `modem_at_index` against the names of the table.
use flimg.Prelude.{
  ℕ, zero, suc, ◌<◌, ◌≡◌, refl, sym, ap, ◌∙◌, arith, Bool, true, false, ◌&&◌, List, [], ◌∷◌, Option,
  none, some,
}
use mathlib.Core.Option.{some-injective}
use flimg.Prelude.{◌↔◌, ltb, ◌==◌, length, Bool-cases, inl, inr}
use flimg.Amp.{same_text}
use flimg.Amp.Blocks.{same_text_refl, same_text_sound}
use flimg.Timing.{
  ModeTimeTable, same_start, entry_at, available_loop, modem_available, modem_at_index,
}
use flimg.Timing.Names.{mode_names}
use flimg.Timing.Lookup.{names, entry_at-some}
use flimg.Timing.Exact.{entry_of, all_short, mode_names_short, str_cnt-short, same_length-exact}

abbrev pub is_some : {F : Type 0} → Option (ModeTimeTable F) → Bool
is_some none = false
is_some (some m) = true

available_loop-exact :
    {F : Type 0} (modem : List ℕ) (rest : List (ModeTimeTable F))
    → all_short (names rest) ≡ true
    → available_loop modem (length modem) rest ≡ is_some (entry_of modem rest)
unfolding available_loop entry_of all_short
available_loop-exact modem [] h = refl
available_loop-exact modem (m ∷ ms) h =
    let same =
      ap (λ n. same_start (length modem) modem m.mode_name && (n == length modem))
        (str_cnt-short 16 m.mode_name (ground arith))
      ∙ same_length-exact modem m.mode_name in
    elim (Bool-cases (same_text modem m.mode_name)) [
      | inl t ↦ rw (same ∙ t, t) refl
      | inr f ↦ rw (same ∙ f, f) (available_loop-exact modem ms (ground arith))
    ]

entry_of-place :
    {F : Type 0} (modem : List ℕ) (rest : List (ModeTimeTable F))
    → is_some (entry_of modem rest) ≡ true
    → (i : ℕ) × (m : ModeTimeTable F) × (i < length rest)
      × (entry_at rest i ≡ some m)
      × (m.mode_name ≡ modem)
unfolding entry_of entry_at
entry_of-place modem [] h = ground arith
entry_of-place modem (m ∷ ms) h = elim (Bool-cases (same_text modem m.mode_name)) [
  | inl t ↦ (0, m, omega arith, refl, sym (same_text_sound modem m.mode_name t))
  | inr f ↦
      let later : is_some (entry_of modem ms) ≡ true = ground arith in
      let (i, n, inside, here, same) = entry_of-place modem ms later in
      (suc i, n, omega arith, here, same)
]

entry_of-has :
    {F : Type 0} (rest : List (ModeTimeTable F)) (i : ℕ) (m : ModeTimeTable F)
    → entry_at rest i ≡ some m
    → is_some (entry_of m.mode_name rest) ≡ true
unfolding entry_of entry_at
entry_of-has [] i m e = ground arith
entry_of-has (x ∷ xs) zero m e = elim (Bool-cases (same_text m.mode_name x.mode_name)) [
  | inl t ↦ rw t refl
  | inr f ↦
      let same : x ≡ m = some-injective x m e in
      let hit : same_text m.mode_name x.mode_name ≡ true =
        ap (λ k. same_text m.mode_name k.mode_name) same ∙ same_text_refl m.mode_name in
      ground arith
]
entry_of-has (x ∷ xs) (suc i) m e = elim (Bool-cases (same_text m.mode_name x.mode_name)) [
  | inl t ↦ rw t refl
  | inr f ↦ rw f (entry_of-has xs i m e)
]

unfoldable all_named : List (List ℕ) → Bool
all_named [] = true
all_named (name ∷ rest) = ltb 0 (length name) && all_named rest

mode_names_named : all_named mode_names ≡ true
unfolding all_named
mode_names_named = refl

entry_at-named :
    {F : Type 0} (rest : List (ModeTimeTable F)) (i : ℕ) (m : ModeTimeTable F)
    → all_named (names rest) ≡ true
    → entry_at rest i ≡ some m
    → 0 < length m.mode_name
unfolding all_named entry_at
entry_at-named [] i m h e = ground arith
entry_at-named (x ∷ xs) zero m h e =
    let same : x ≡ m = some-injective x m e in
    let long : length x.mode_name ≡ length m.mode_name = ap (λ k. length k.mode_name) same in
    ground arith
entry_at-named (x ∷ xs) (suc i) m h e = entry_at-named xs i m (ground arith) e

module _ {F : Type 0} (mode_time_table : List (ModeTimeTable F))
    (named : names mode_time_table ≡ mode_names) where
  available-entry_of :
      (modem : List ℕ)
      → 0 < length modem
      → modem_available mode_time_table modem ≡ is_some (entry_of modem mode_time_table)
  unfolding modem_available
  available-entry_of [] h = absurd (omega arith)
  available-entry_of (c ∷ cs) h =
      available_loop-exact (c ∷ cs) mode_time_table (ap all_short named ∙ mode_names_short)

  available-at :
      (i : ℕ)
      → i < length mode_time_table
      → modem_available mode_time_table (modem_at_index mode_time_table i) ≡ true
  unfolding modem_at_index
  available-at i h =
      let (m, here) = entry_at-some mode_time_table i h in
      let known = ap all_named named ∙ mode_names_named in
      rw (here, modem_at_index)
        (available-entry_of m.mode_name (entry_at-named mode_time_table i m known here)
          ∙ entry_of-has mode_time_table i m here)

  at-available :
      (modem : List ℕ)
      → modem_available mode_time_table modem ≡ true
      → (i : ℕ) × (i < length mode_time_table) × (modem_at_index mode_time_table i ≡ modem)
  unfolding modem_available modem_at_index
  at-available [] h = ground arith
  at-available (c ∷ cs) h =
      let (i, m, inside, here, same) =
        entry_of-place (c ∷ cs) mode_time_table
          (sym (available-entry_of (c ∷ cs) (omega arith)) ∙ h) in
      (i, inside, rw (here, modem_at_index) same)

  -- With the names of the table, `modem_available` holds of exactly the names that `modem_at_index`
  -- returns for the indices below the number of entries.
  pub modem_available-modem_at_index :
      (modem : List ℕ)
      → (modem_available mode_time_table modem ≡ true)
        ↔ ((i : ℕ) × (i < length mode_time_table) × (modem_at_index mode_time_table i ≡ modem))
  modem_available-modem_at_index modem = (
    at-available modem,
    λ (i, inside, same). ap (modem_available mode_time_table) (sym same) ∙ available-at i inside,
  )
