-- ===== src/Amp/Incoming/Text.antt =====
-- What is found in the text of a report.
use flimg.Prelude.{ℕ, ◌<◌, ◌≡◌, refl, arith, true, false, List, [], ◌∷◌, none}
use flimg.Prelude.{All, All-append, ◌==◌}
use flimg.Cstd.{find_text, starts_with, is_digit, print_nat}
use flimg.Cstd.Decimal.{print_nat-IsDigit}
use flimg.Crc16.{hex_digit, sval, scrc16}
use flimg.Amp.Reports.Reading.{spaced}

-- A text without the first character of another does not hold that one.
pub lacks_text :
    (n : ℕ) (ns s : List ℕ) → All (λ c. (n == c) ≡ false) s → find_text (n ∷ ns) s ≡ none
unfolding find_text starts_with
lacks_text n ns [] a = refl
lacks_text n ns (c ∷ cs) (h, a) = rw (h, lacks_text n ns cs a) refl

-- A character that is no hexadecimal digit.
abbrev pub IsNoHex : ℕ → Type 0
IsNoHex n = (d : ℕ) → d < 16 → (n == hex_digit d) ≡ false

pub scrc16-lacks : (n : ℕ) (s : List ℕ) → IsNoHex n → All (λ c. (n == c) ≡ false) (scrc16 s)
unfolding scrc16 sval
scrc16-lacks n s h =
    (h _ (omega arith), (h _ (omega arith), (h _ (omega arith), (h _ (omega arith), tt))))

digits_lack :
    (n : ℕ) (ds : List ℕ)
    → is_digit n ≡ false
    → All (λ d. is_digit d ≡ true) ds
    → All (λ c. (n == c) ≡ false) ds
digits_lack n [] h a = tt
digits_lack n (d ∷ ds) h (e, a) = (ground arith, digits_lack n ds h a)

pub print_nat-lacks : (n k : ℕ) → is_digit n ≡ false → All (λ c. (n == c) ≡ false) (print_nat k)
print_nat-lacks n k h = digits_lack n (print_nat k) h (print_nat-IsDigit k)

pub spaced-lacks :
    (n : ℕ) (ns : List ℕ)
    → is_digit n ≡ false
    → (n == b' ') ≡ false
    → All (λ c. (n == c) ≡ false) (spaced ns)
unfolding spaced
spaced-lacks n [] h e = tt
spaced-lacks n (k ∷ ks) h e =
    All-append (λ c. (n == c) ≡ false) (print_nat k) (b' ' ∷ spaced ks) (print_nat-lacks n k h)
      (e, spaced-lacks n ks h e)
