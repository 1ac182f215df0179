-- ===== src/Base64/Reading.antt =====
-- How `decode` reads the four characters of a group, with line feeds between them.
use flimg.Prelude.{
  ℕ, ◌+◌, ◌<◌, ◌≡◌, refl, ap, ◌∙◌, arith, Bool, true, false, List, ◌∷◌, ◌++◌, bit_and, leb, ◌==◌,
  if◌then◌else◌, Bool-cases, inl, inr,
}
use flimg.Prelude.Table.{each_below, each_below_lookup}
use flimg.Base64.{
  etable, dtable, put_out, group_bytes, Group, none_read, one_read, two_read, three_read,
  decode_loop,
}
use flimg.Base64.Groups.{dtable-etable}

-- A character that `decode` takes.
abbrev pub IsCode : ℕ → ℕ → Type 0
IsCode unset c = (leb c b' ' ≡ false) × ((bit_and (dtable unset c) 0x80 == 0) ≡ true)

etable_printable : (i : ℕ) → i < 64 → leb (etable i) b' ' ≡ false
unfolding etable
etable_printable i h = ground arith

pub etable-IsCode : (unset i : ℕ) → i < 64 → IsCode unset (etable i)
unfolding each_below
etable-IsCode unset i h = (
  etable_printable i h,
  ap (λ d. bit_and d 0x80 == 0) (dtable-etable unset i h)
      ∙ each_below_lookup (λ d. bit_and d 0x80 == 0) i 64 refl h,
)

pub pad-IsCode : (unset : ℕ) → IsCode unset b'='
unfolding dtable
pad-IsCode unset = (refl, refl)

-- The characters on the line behind one more.
next_length : Bool → ℕ → ℕ
next_length crlf n = if crlf then if leb 64 n then 1 else n + 1 else n

-- The line feed is put out on a full line.
put_full :
    (n c : ℕ) (cs : List ℕ)
    → leb 64 n ≡ true
    → (put_out true n (c ∷ cs) ≡ 10 ∷ c ∷ put_out true 1 cs) × (1 ≡ next_length true n)
unfolding put_out next_length
put_full n c cs h = (rw h refl, rw h refl)

put_more :
    (n c : ℕ) (cs : List ℕ)
    → leb 64 n ≡ false
    → (put_out true n (c ∷ cs) ≡ c ∷ put_out true (n + 1) cs) × (n + 1 ≡ next_length true n)
unfolding put_out next_length
put_more n c cs h = (rw h refl, rw h refl)

skips_break :
    (unset c : ℕ) (cs : List ℕ) (group : Group) (skipped : Bool) (output : List ℕ)
    → decode_loop unset (10 ∷ c ∷ cs) group skipped output
      ≡ decode_loop unset (c ∷ cs) group false output
unfolding decode_loop
skips_break unset c cs group skipped output = refl

any_flag :
    (unset c : ℕ) (cs : List ℕ) (group : Group) (skipped : Bool) (output : List ℕ)
    → decode_loop unset (c ∷ cs) group skipped output
      ≡ decode_loop unset (c ∷ cs) group false output
unfolding decode_loop
any_flag unset c cs group skipped output = refl

-- A line feed in front of a character is skipped.
drop_break :
    (unset : ℕ) (crlf : Bool) (n c : ℕ) (cs rest : List ℕ) (group : Group) (skipped : Bool)
    (output : List ℕ)
    → decode_loop unset (put_out crlf n (c ∷ cs) ++ rest) group skipped output
      ≡ decode_loop unset (c ∷ (put_out crlf (next_length crlf n) cs ++ rest)) group false output
unfolding put_out next_length
drop_break unset true n c cs rest group skipped output = elim (Bool-cases (leb 64 n)) [
  | inl full ↦
      let (e, f) = put_full n c cs full in
      ap (λ t. decode_loop unset (t ++ rest) group skipped output) e
      ∙ skips_break unset c (put_out true 1 cs ++ rest) group skipped output
      ∙ ap (λ m. decode_loop unset (c ∷ (put_out true m cs ++ rest)) group false output) f
  | inr more ↦
      let (e, f) = put_more n c cs more in
      ap (λ t. decode_loop unset (t ++ rest) group skipped output) e
      ∙ any_flag unset c (put_out true (n + 1) cs ++ rest) group skipped output
      ∙ ap (λ m. decode_loop unset (c ∷ (put_out true m cs ++ rest)) group false output) f
]
drop_break unset false n c cs rest group skipped output =
    any_flag unset c (put_out false n cs ++ rest) group skipped output

module _ (unset c : ℕ) (code : IsCode unset c) (cs : List ℕ) (skipped : Bool)
    (output : List ℕ) where
  reads_first :
      decode_loop unset (c ∷ cs) none_read skipped output
      ≡ decode_loop unset cs (one_read c) false output
  unfolding decode_loop
  reads_first = rw (code.0, code.1) refl

  reads_second :
      (p : ℕ)
      → decode_loop unset (c ∷ cs) (one_read p) skipped output
        ≡ decode_loop unset cs (two_read p c) false output
  unfolding decode_loop
  reads_second p = rw (code.0, code.1) refl

  reads_third :
      (p q : ℕ)
      → decode_loop unset (c ∷ cs) (two_read p q) skipped output
        ≡ decode_loop unset cs (three_read p q c) false output
  unfolding decode_loop
  reads_third p q = rw (code.0, code.1) refl

  reads_fourth :
      (p q r : ℕ)
      → decode_loop unset (c ∷ cs) (three_read p q r) skipped output
        ≡ decode_loop unset cs none_read false (output ++ group_bytes unset p q r c)
  unfolding decode_loop
  reads_fourth p q r = rw (code.0, code.1) refl

unfoldable pub fourth_length : Bool → ℕ → ℕ
unfolding next_length
fourth_length crlf n = next_length crlf (next_length crlf (next_length crlf (next_length crlf n)))

pub reads_group :
    (unset : ℕ) (crlf : Bool) (n p q r s : ℕ) (cs rest : List ℕ) (skipped : Bool) (output : List ℕ)
    → IsCode unset p
    → IsCode unset q
    → IsCode unset r
    → IsCode unset s
    → decode_loop unset (put_out crlf n (p ∷ q ∷ r ∷ s ∷ cs) ++ rest) none_read skipped output
      ≡ decode_loop unset
          (put_out crlf (fourth_length crlf n) cs ++ rest)
          none_read
          false
          (output ++ group_bytes unset p q r s)
unfolding fourth_length
reads_group unset crlf n p q r s cs rest skipped output hp hq hr hs =
    let n1 = next_length crlf n in
    let n2 = next_length crlf n1 in
    let n3 = next_length crlf n2 in
    drop_break unset crlf n p _ rest none_read skipped output
    ∙ reads_first unset p hp _ false output
    ∙ drop_break unset crlf n1 q _ rest (one_read p) false output
    ∙ reads_second unset q hq _ false output p
    ∙ drop_break unset crlf n2 r _ rest (two_read p q) false output
    ∙ reads_third unset r hr _ false output p q
    ∙ drop_break unset crlf n3 s cs rest (three_read p q r) false output
    ∙ reads_fourth unset s hs _ false output p q r
