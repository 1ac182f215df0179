-- ===== src/Base64/RoundTrip.antt =====
-- `decode` undoes `encode`, with line breaks and without.
use flimg.Prelude.{
  ℕ, ◌/◌, ◌%◌, ◌<◌, ◌≡◌, refl, sym, ap, ◌∙◌, arith, Bool, true, false, List, [], ◌∷◌, ◌++◌,
  append-nil, append_assoc, if◌then◌else◌, All,
}
use flimg.Base64.{
  etable, ogroup, ogroup_two, ogroup_one, ogroups, put_out, encode, none_read, decode_loop, decode,
}
use flimg.Base64.Groups.{
  second_index, third_index, second_lem, third_lem, four_bytes, three_bytes, two_bytes,
}
use flimg.Prelude.Bits.{bit_and_low}
use flimg.Base64.Reading.{etable-IsCode, pad-IsCode, fourth_length, reads_group}

-- What `encode` puts behind the characters.
last_break : Bool → List ℕ
last_break crlf = if crlf then 10 ∷ [] else []

no_more :
    (unset : ℕ) (crlf : Bool) (n : ℕ) (skipped : Bool) (output : List ℕ)
    → decode_loop unset (put_out crlf n [] ++ last_break crlf) none_read skipped output
      ≡ (output, false)
unfolding put_out last_break decode_loop
no_more unset true n skipped output = refl
no_more unset false n skipped output = refl

group_of :
    (x y z : ℕ)
    → y < 256
    → z < 256
    → ogroup x y z
      ≡ etable (x / 4) ∷ etable (second_index x y) ∷ etable (third_index y z) ∷ etable (z % 64) ∷ []
unfolding ogroup
group_of x y z hy hz = rw (second_lem x y hy, third_lem y z hz, bit_and_low 6 z 0x3F refl) refl

group_of_two :
    (x y : ℕ)
    → y < 256
    → ogroup_two x y
      ≡ etable (x / 4) ∷ etable (second_index x y) ∷ etable (third_index y 0) ∷ b'=' ∷ []
unfolding ogroup_two
group_of_two x y hy = rw (second_lem x y hy, third_lem y 0 (omega arith)) refl

group_of_one :
    (x : ℕ) → ogroup_one x ≡ etable (x / 4) ∷ etable (second_index x 0) ∷ b'=' ∷ b'=' ∷ []
unfolding ogroup_one
group_of_one x = rw (second_lem x 0 (omega arith)) refl

module _ (unset : ℕ) (crlf : Bool) where
  reads_three :
      (n x y z : ℕ) (cs : List ℕ) (skipped : Bool) (output : List ℕ)
      → x < 256
      → y < 256
      → z < 256
      → decode_loop unset
          (put_out crlf n (ogroup x y z ++ cs) ++ last_break crlf)
          none_read
          skipped
          output
        ≡ decode_loop unset
            (put_out crlf (fourth_length crlf n) cs ++ last_break crlf)
            none_read
            false
            (output ++ x ∷ y ∷ z ∷ [])
  reads_three n x y z cs skipped output hx hy hz =
      ap
        (λ t.
          decode_loop unset (put_out crlf n (t ++ cs) ++ last_break crlf) none_read skipped output)
        (group_of x y z hy hz)
      ∙ reads_group unset crlf n _ _ _ _ cs (last_break crlf) skipped output
          (etable-IsCode unset (x / 4) (omega arith))
          (etable-IsCode unset (second_index x y) (omega arith))
          (etable-IsCode unset (third_index y z) (omega arith))
          (etable-IsCode unset (z % 64) (omega arith))
      ∙ ap
          (λ t.
            decode_loop unset (put_out crlf (fourth_length crlf n) cs ++ last_break crlf) none_read
              false (output ++ t))
          (four_bytes unset x y z hx hy hz)

  reads_two :
      (n x y : ℕ) (skipped : Bool) (output : List ℕ)
      → x < 256
      → y < 256
      → decode_loop unset
          (put_out crlf n (ogroup_two x y) ++ last_break crlf)
          none_read
          skipped
          output
        ≡ (output ++ x ∷ y ∷ [], false)
  reads_two n x y skipped output hx hy =
      ap (λ t. decode_loop unset (put_out crlf n t ++ last_break crlf) none_read skipped output)
        (group_of_two x y hy)
      ∙ reads_group unset crlf n _ _ _ _ [] (last_break crlf) skipped output
          (etable-IsCode unset (x / 4) (omega arith))
          (etable-IsCode unset (second_index x y) (omega arith))
          (etable-IsCode unset (third_index y 0) (omega arith)) (pad-IsCode unset)
      ∙ no_more unset crlf (fourth_length crlf n) false _
      ∙ ap (λ t. (output ++ t, false)) (three_bytes unset x y hx hy)

  reads_one :
      (n x : ℕ) (skipped : Bool) (output : List ℕ)
      → x < 256
      → decode_loop unset
          (put_out crlf n (ogroup_one x) ++ last_break crlf)
          none_read
          skipped
          output
        ≡ (output ++ x ∷ [], false)
  reads_one n x skipped output hx =
      ap (λ t. decode_loop unset (put_out crlf n t ++ last_break crlf) none_read skipped output)
        (group_of_one x)
      ∙ reads_group unset crlf n _ _ _ _ [] (last_break crlf) skipped output
          (etable-IsCode unset (x / 4) (omega arith))
          (etable-IsCode unset (second_index x 0) (omega arith)) (pad-IsCode unset)
          (pad-IsCode unset)
      ∙ no_more unset crlf (fourth_length crlf n) false _
      ∙ ap (λ t. (output ++ t, false)) (two_bytes unset x hx)

  reads_text :
      (n : ℕ) (text : List ℕ) (skipped : Bool) (output : List ℕ)
      → All (λ c. c < 256) text
      → decode_loop unset
          (put_out crlf n (ogroups text) ++ last_break crlf)
          none_read
          skipped
          output
        ≡ (output ++ text, false)
  unfolding ogroups
  reads_text n [] skipped output h =
      no_more unset crlf n skipped output ∙ ap (λ t. (t, false)) (sym (append-nil output))
  reads_text n (x ∷ []) skipped output (hx, h) = reads_one n x skipped output hx
  reads_text n (x ∷ y ∷ []) skipped output (hx, (hy, h)) = reads_two n x y skipped output hx hy
  reads_text n (x ∷ y ∷ z ∷ rest) skipped output (hx, (hy, (hz, h))) =
      reads_three n x y z (ogroups rest) skipped output hx hy hz
      ∙ reads_text (fourth_length crlf n) rest false _ h
      ∙ ap (λ t. (t, false)) (append_assoc output (x ∷ y ∷ z ∷ []) rest)

-- Whatever the entry 255 of the decoding table holds, with line breaks and without: `decode`
-- returns every text of bytes that `encode` was given, and no error.
pub decode-encode_text :
    (unset : ℕ) (crlf : Bool) (text : List ℕ)
    → All (λ c. c < 256) text
    → decode unset (encode crlf text) ≡ (text, false)
unfolding decode encode last_break
decode-encode_text unset crlf text h = reads_text unset crlf 0 text false [] h
