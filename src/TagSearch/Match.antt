-- ===== src/TagSearch/Match.antt =====
-- Four bytes that match an entry of the table are the first four of its tag.
use flimg.Prelude.{
  ℕ, zero, suc, ◌+◌, ◌*◌, ◌%◌, ◌^◌, bit_and, bit_or, ◌≤◌, ◌<◌, ◌≡◌, inl, inr, refl, sym, ap, ◌∙◌,
  arith, true, List, [], ◌∷◌, map, some,
}
use flimg.Prelude.{All, get_elem?, ◌==◌, ==_iff, take, length, Bool-cases}
use mathlib.Core.Option.{some-injective, none-ne-some}
use flimg.Prelude.Bits.{bit_and_low, bit_or_beside}
use flimg.TagSearch.{search_tags, match_loop, match_entry, is_listed}

low_byte : (c : ℕ) → bit_and c 0xff ≡ c % 256
low_byte c = bit_and_low 8 c 255 refl

pushed : (m c : ℕ) → bit_or (m * 2 ^ 8) (bit_and c 0xff) ≡ m * 256 + c % 256
pushed m c = ap (bit_or (m * 2 ^ 8)) (low_byte c) ∙ bit_or_beside 8 m (c % 256) (omega arith)

-- A number that the shift keeps whole.
shifted : (m : ℕ) → m < 2 ^ 24 → m * 2 ^ 8 % 2 ^ 32 ≡ m * 2 ^ 8
shifted m h = omega arith

one_byte : (c : ℕ) → bit_or 0 (bit_and c 0xff) ≡ c % 256
one_byte c = pushed 0 c ∙ omega arith

two_bytes :
    (a b : ℕ)
    → bit_or (bit_or 0 (bit_and a 0xff) * 2 ^ 8 % 2 ^ 32) (bit_and b 0xff) ≡ a % 256 * 256 + b % 256
two_bytes a b =
    ap (λ m. bit_or m (bit_and b 0xff))
      (ap (λ m. m * 2 ^ 8 % 2 ^ 32) (one_byte a) ∙ shifted (a % 256) (omega arith))
    ∙ pushed (a % 256) b

step :
    (m v c : ℕ)
    → m ≡ v
    → v < 2 ^ 24
    → bit_or (m * 2 ^ 8 % 2 ^ 32) (bit_and c 0xff) ≡ v * 256 + c % 256
step m v c e h =
    ap (λ k. bit_or k (bit_and c 0xff)) (ap (λ k. k * 2 ^ 8 % 2 ^ 32) e ∙ shifted v h) ∙ pushed v c

value3 : ℕ → ℕ → ℕ → ℕ
value3 a b c = (a % 256 * 256 + b % 256) * 256 + c % 256

match_three : (a b c : ℕ) → match_loop 0 (a ∷ b ∷ c ∷ []) ≡ value3 a b c
unfolding match_loop value3
match_three a b c = step _ (a % 256 * 256 + b % 256) c (two_bytes a b) (omega arith)

match_four : (a b c d : ℕ) → match_loop 0 (a ∷ b ∷ c ∷ d ∷ []) ≡ value3 a b c * 256 + d % 256
unfolding match_loop value3
match_four a b c d = step _ (value3 a b c) d (match_three a b c) (omega arith)

match_two : (a b : ℕ) → match_loop 0 (a ∷ b ∷ []) ≡ a % 256 * 256 + b % 256
unfolding match_loop
match_two a b = two_bytes a b

match_one : (a : ℕ) → match_loop 0 (a ∷ []) ≡ a % 256
unfolding match_loop
match_one a = one_byte a

-- A tag of at least four bytes, the first one not 0.
pub record IsTag (tag : List ℕ) : Type 0 where
  pub first : ℕ
  pub second : ℕ
  pub third : ℕ
  pub fourth : ℕ
  pub starts : take 4 tag ≡ first ∷ second ∷ third ∷ fourth ∷ []
  pub bytes : (0 < first) × (first < 256) × (second < 256) × (third < 256) × (fourth < 256)

tag_value :
    (tag : List ℕ) (t : IsTag tag)
    → match_entry tag ≡ ((t.first * 256 + t.second) * 256 + t.third) * 256 + t.fourth
unfolding match_entry value3
tag_value tag t =
    let (p, a, b, c, d) = t.bytes in
    ap (match_loop 0) t.starts ∙ match_four t.first t.second t.third t.fourth ∙ omega arith

list_of_four :
    {a b c d w x y z : ℕ} → a ≡ w → b ≡ x → c ≡ y → d ≡ z → a ∷ b ∷ c ∷ d ∷ [] ≡ w ∷ x ∷ y ∷ z ∷ []
list_of_four p q r s = rw (p, q, r, s) refl

pub matched :
    (tag bytes : List ℕ)
    → IsTag tag
    → length bytes ≤ 4
    → match_entry tag ≡ match_loop 0 bytes
    → (length bytes ≡ 4) × (map (λ c. c % 256) bytes ≡ take 4 tag)
unfolding value3 match_loop
matched tag [] t h e = let (p, a, b, c, d) = t.bytes in absurd (omega (arith, e, tag_value tag t))
matched tag (w ∷ []) t h e =
    let (p, a, b, c, d) = t.bytes in absurd (omega (arith, e, tag_value tag t, match_one w))
matched tag (w ∷ x ∷ []) t h e =
    let (p, a, b, c, d) = t.bytes in absurd (omega (arith, e, tag_value tag t, match_two w x))
matched tag (w ∷ x ∷ y ∷ []) t h e =
    let (p, a, b, c, d) = t.bytes in absurd (omega (arith, e, tag_value tag t, match_three w x y))
matched tag (w ∷ x ∷ y ∷ z ∷ []) t h e =
    let (p, a, b, c, d) = t.bytes in
    let same = sym (tag_value tag t) ∙ e ∙ match_four w x y z in
    (refl, list_of_four (omega arith) (omega arith) (omega arith) (omega arith) ∙ sym t.starts)
matched tag (v ∷ w ∷ x ∷ y ∷ z ∷ rest) t h e = absurd (omega arith)

-- A match with the table is one with a tag of it.
pub record IsListed (bytes : List ℕ) : Type 0 where
  pub tag : List ℕ
  pub number : ℕ
  pub in_table : get_elem? search_tags number ≡ some tag
  pub four : length bytes ≡ 4
  pub same_start : map (λ c. c % 256) bytes ≡ take 4 tag

found_in :
    (tags : List (List ℕ)) (match : ℕ)
    → is_listed match tags ≡ true
    → (number : ℕ) × (tag : List ℕ) × (get_elem? tags number ≡ some tag) × (match_entry tag ≡ match)
unfolding is_listed
found_in [] match h = absurd (ground arith)
found_in (tag ∷ tags) match h = elim (Bool-cases (match_entry tag == match)) [
  | inl e ↦ (0, tag, refl, (==_iff _ _).0 e)
  | inr e ↦
      let (number, other, f, g) = found_in tags match (ground arith) in (suc number, other, f, g)
]

in_tags :
    (tag : List ℕ) (tags : List (List ℕ)) (number : ℕ)
    → All IsTag tags
    → get_elem? tags number ≡ some tag
    → IsTag tag
in_tags tag [] number a e = absurd (none-ne-some tag e)
in_tags tag (t ∷ ts) zero (h, a) e = rw⁻¹ (some-injective t tag e) h
in_tags tag (t ∷ ts) (suc number) (h, a) e = in_tags tag ts number a e

four_bytes :
    (a b c d : ℕ) (rest : List ℕ)
    → (0 < a) × (a < 256) × (b < 256) × (c < 256) × (d < 256)
    → IsTag (a ∷ b ∷ c ∷ d ∷ rest)
four_bytes a b c d rest h = record {
  first = a;
  second = b;
  third = c;
  fourth = d;
  starts = refl;
  bytes = h;
}

search_tags-IsTag : All IsTag search_tags
search_tags-IsTag = (
  four_bytes _ _ _ _ _ (omega arith, omega arith, omega arith, omega arith, omega arith),
  (
    four_bytes _ _ _ _ _ (omega arith, omega arith, omega arith, omega arith, omega arith),
    (
      four_bytes _ _ _ _ _ (omega arith, omega arith, omega arith, omega arith, omega arith),
      (
        four_bytes _ _ _ _ _ (omega arith, omega arith, omega arith, omega arith, omega arith),
        (
          four_bytes _ _ _ _ _ (omega arith, omega arith, omega arith, omega arith, omega arith),
          (
            four_bytes _ _ _ _ _ (omega arith, omega arith, omega arith, omega arith, omega arith),
            (
              four_bytes _ _ _ _ _
                  (omega arith, omega arith, omega arith, omega arith, omega arith),
              (
                four_bytes _ _ _ _ _
                    (omega arith, omega arith, omega arith, omega arith, omega arith),
                tt,
              ),
            ),
          ),
        ),
      ),
    ),
  ),
)

pub is_listed-IsListed :
    (bytes : List ℕ)
    → length bytes ≤ 4
    → is_listed (match_loop 0 bytes) search_tags ≡ true
    → IsListed bytes
is_listed-IsListed bytes short h =
    let (number, tag, e, f) = found_in search_tags (match_loop 0 bytes) h in
    let (four, same) =
      matched tag bytes (in_tags tag search_tags number search_tags-IsTag e) short f in
    record { tag = tag; number = number; in_table = e; four = four; same_start = same }
