-- ===== src/PlainText/Converted.antt =====
-- What `convert_to_plain_text` leaves is plain, but for the tabs.
use flimg.Prelude.{
  ℕ, bit_and, ◌<◌, ◌≡◌, refl, sym, ap, ◌∙◌, arith, Bool, true, false, not, ◌||◌, List, [], ◌∷◌, inl,
  inr,
}
use flimg.Prelude.{◌==◌, if◌then◌else◌, Bool-cases}
use flimg.Prelude.Table.{each_below, each_below_lookup}
use flimg.PlainText.{not_allowed, c_binary, is_plain_text, is_kept, convert_to_plain_text}

unfoldable pub has_tab : List ℕ → Bool
has_tab [] = false
has_tab (c ∷ cs) = (c == 9) || has_tab cs

same_bool : Bool → Bool → Bool
same_bool true b = b
same_bool false b = not b

same_bool_sound : (a b : Bool) → same_bool a b ≡ true → a ≡ b
unfolding same_bool
same_bool_sound true true h = refl
same_bool_sound true false h = sym h
same_bool_sound false true h = h
same_bool_sound false false h = refl

refused : ℕ → Bool
refused c = c_binary c || not (bit_and c 0x80 == 0)

fits_table : ℕ → Bool
fits_table c = not (is_kept c) || same_bool (refused c) (c == 9)

small : (c : ℕ) → is_kept c ≡ true → c < 127
unfolding is_kept
small c k = ground arith

checked : each_below 127 fits_table ≡ true
unfolding fits_table refused same_bool each_below c_binary not_allowed is_kept
checked = refl

-- A byte that is kept is refused only if it is a tab.
kept_refused : (c : ℕ) → is_kept c ≡ true → refused c ≡ (c == 9)
unfolding fits_table
kept_refused c k =
    same_bool_sound (refused c) (c == 9)
      (then_same (is_kept c) _ k (each_below_lookup fits_table c 127 checked (small c k)))
  where
    then_same : (b d : Bool) → b ≡ true → (not b || d) ≡ true → d ≡ true
    then_same true d k h = h
    then_same false d k h = absurd (ground arith)

converted_is_plain :
    (s : List ℕ) → is_plain_text (convert_to_plain_text s) ≡ not (has_tab (convert_to_plain_text s))
unfolding is_plain_text convert_to_plain_text has_tab refused
converted_is_plain [] = refl
converted_is_plain (c ∷ cs) = elim (Bool-cases (is_kept c)) [
  | inl e ↦
      let d : refused c ≡ (c == 9) = kept_refused c e in
      rw (e, d) (either _ _ (c == 9) (converted_is_plain cs))
  | inr e ↦ rw e (converted_is_plain cs)
]
  where
    either : (x y b : Bool) → x ≡ not y → (if b then false else x) ≡ not (b || y)
    either x y true h = refl
    either x y false h = h

dropped : (c : ℕ) → is_kept c ≡ false → (c == 9) ≡ false
unfolding is_kept
dropped c e = ground arith

keeps_tabs : (s : List ℕ) → has_tab (convert_to_plain_text s) ≡ has_tab s
unfolding convert_to_plain_text has_tab
keeps_tabs [] = refl
keeps_tabs (c ∷ cs) = elim (Bool-cases (is_kept c)) [
  | inl e ↦ rw e (ap (λ b. (c == 9) || b) (keeps_tabs cs))
  | inr e ↦ let other : (c == 9) ≡ false = dropped c e in rw (e, other) (keeps_tabs cs)
]

again : (s : List ℕ) → convert_to_plain_text (convert_to_plain_text s) ≡ convert_to_plain_text s
unfolding convert_to_plain_text
again [] = refl
again (c ∷ cs) = elim (Bool-cases (is_kept c)) [
  | inl e ↦ rw (e, e) (ap (λ t. c ∷ t) (again cs))
  | inr e ↦ rw e (again cs)
]

-- `isPlainText` holds of a converted text exactly if the text held no tab; and converting it again
-- changes nothing.
pub is_plain_text-convert_to_plain_text :
    (s : List ℕ)
    → (is_plain_text (convert_to_plain_text s) ≡ not (has_tab s))
      × (convert_to_plain_text (convert_to_plain_text s) ≡ convert_to_plain_text s)
is_plain_text-convert_to_plain_text s = (converted_is_plain s ∙ ap not (keeps_tabs s), again s)
