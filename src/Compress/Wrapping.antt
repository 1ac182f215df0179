-- ===== src/Compress/Wrapping.antt =====
-- A text between two marks, and what `decompress_maybe` makes of it.
use flimg.Prelude.{ℕ, ◌+◌, ◌-◌, ◌≡◌, refl, ap, ◌∙◌, arith, false, List, ◌++◌, some, append-nil}
use flimg.Prelude.{length, length-append, take, drop, take_append, drop_append, drop_all}
use flimg.Cstd.{find_text, found_behind}
use flimg.Compress.{
  Lzma, Encoding, Located, located, find_marks, decoded, replaced, put_back, decompress_maybe,
}

-- A text between two marks.
unfoldable pub wrapped : List ℕ → List ℕ → List ℕ → List ℕ
wrapped start_mark end_mark body = start_mark ++ (body ++ end_mark)

unfoldable pub around : Encoding → List ℕ → List ℕ → List ℕ → Located
around enc start_mark end_mark body = record {
  decode = enc;
  p0 = 0;
  p1 = 0 + length start_mark;
  p2 = 0 + length start_mark + length body;
  p3 = 0 + length start_mark + length body + length end_mark;
}

zero_add : (n : ℕ) → 0 + n ≡ n
zero_add n = omega arith

pub behind_zero : (n : ℕ) → n + 0 ≡ n
behind_zero n = omega arith

module _ (enc : Encoding) (start_mark end_mark body : List ℕ) where
  behind_start : drop (0 + length start_mark) (wrapped start_mark end_mark body) ≡ body ++ end_mark
  unfolding wrapped
  behind_start =
      ap (λ n. drop n (start_mark ++ (body ++ end_mark))) (zero_add (length start_mark))
      ∙ drop_append start_mark (body ++ end_mark)

  pub located-wrapped :
      find_text end_mark (body ++ end_mark) ≡ some (length body)
      → located enc start_mark end_mark 0 (wrapped start_mark end_mark body)
        ≡ some (around enc start_mark end_mark body)
  unfolding located found_behind around
  located-wrapped found = rw (behind_start, found, located) refl

  body_lem :
      (at : Located)
      → at ≡ around enc start_mark end_mark body
      → take (at.p2 - at.p1) (drop at.p1 (wrapped start_mark end_mark body)) ≡ body
  unfolding around
  body_lem at e = rw e (
      rw behind_start
        (ap (λ n. take n (body ++ end_mark)) (omega arith) ∙ take_append body end_mark))

  pub replaced-wrapped :
      (text : List ℕ)
      → replaced (wrapped start_mark end_mark body) (around enc start_mark end_mark body) text
        ≡ text
  unfolding replaced around wrapped
  replaced-wrapped text =
      ap (λ t. text ++ t)
        (drop_all (0 + length start_mark + length body + length end_mark)
          (start_mark ++ (body ++ end_mark))
          (omega (
            arith,
            length-append {0} start_mark (body ++ end_mark),
            length-append {0} body end_mark,
          )))
      ∙ append-nil text

  -- What becomes of a wrapped text that decodes without an error.
  pub decompress_maybe-wrapped :
      (lzma : Lzma) (unset : ℕ) (cmpstr : List ℕ)
      → find_marks (wrapped start_mark end_mark body) ≡ some (around enc start_mark end_mark body)
      → decoded unset enc body ≡ some (cmpstr, false)
      → decompress_maybe lzma unset (wrapped start_mark end_mark body)
        ≡ put_back lzma
            (wrapped start_mark end_mark body)
            (around enc start_mark end_mark body)
            cmpstr
  unfolding decompress_maybe around
  decompress_maybe-wrapped lzma unset cmpstr found reads =
      rw (found, body_lem (around enc start_mark end_mark body) refl, reads, decompress_maybe) refl
