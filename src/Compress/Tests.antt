-- ===== src/Compress/Tests.antt =====
-- The theorems at short texts, with a compressor for texts of one character.
use flimg.Prelude.{
  ℕ, ◌<◌, ◌≡◌, refl, ap, ap₂, sym, arith, Bool, true, false, ◌&&◌, List, [], ◌∷◌, ◌++◌, Option,
  none, some,
}
use flimg.Prelude.{length, replicate, codes, ltb, ◌==◌, ==_iff, if◌then◌else◌}
use flimg.Cstd.{find_text, starts_with}
use flimg.Compress.{
  Lzma, IsLzma, base128, base256, lzma_str, ntohl, encoded, htonl, compressed, compress_maybe,
  decompress_maybe,
}
use flimg.Compress.RoundTrip.{decompress_maybe-compress_maybe}
use flimg.Compress.Misread.{decompress_maybe-misread}

one_run : ℕ → List ℕ → Bool
one_run c [] = true
one_run c (d ∷ ds) = (c == d) && one_run c ds

run_compress : List ℕ → Option (List ℕ × List ℕ)
run_compress [] = none
run_compress (c ∷ cs) =
    if ltb c 256 && one_run c cs then some (0 ∷ 0 ∷ 0 ∷ 0 ∷ 0 ∷ [], c ∷ []) else none

run_uncompress : ℕ → List ℕ → List ℕ → Option (List ℕ)
run_uncompress n [] props = none
run_uncompress n (c ∷ cs) props = some (replicate n c)

abbrev runs : Lzma
runs = record { compress = run_compress; uncompress = run_uncompress }

one_run_lem : (c : ℕ) (cs : List ℕ) → one_run c cs ≡ true → cs ≡ replicate (length cs) c
unfolding one_run
one_run_lem c [] h = refl
one_run_lem c (d ∷ ds) h =
    ap₂ (λ x xs. x ∷ xs) (sym ((==_iff c d).0 (ground arith))) (one_run_lem c ds (ground arith))

run_compress-cases :
    (text props packed : List ℕ)
    → run_compress text ≡ some (props, packed)
    → (c : ℕ) × (text ≡ replicate (length text) c)
      × (c < 256)
      × (props ≡ 0 ∷ 0 ∷ 0 ∷ 0 ∷ 0 ∷ [])
      × (packed ≡ c ∷ [])
unfolding run_compress
run_compress-cases [] props packed h = cc
run_compress-cases (c ∷ cs) props packed h =
    (c, ap (λ t. c ∷ t) (one_run_lem c cs (ground arith)), ground arith, ground arith, ground arith)

runs-IsLzma : IsLzma runs
unfolding run_uncompress
runs-IsLzma = record {
  props_size = λ text props packed h.
      let (c, e, b, p, q) = run_compress-cases text props packed h in ap length p;
  gives_bytes = λ text props packed h.
      let (c, e, b, p, q) = run_compress-cases text props packed h in
      rw (p, q) (omega arith, (omega arith, (omega arith, (omega arith, (omega arith, (b, tt))))));
  restores = λ text props packed h.
      let (c, e, b, p, q) = run_compress-cases text props packed h in rw q (ap some (sym e));
}

-- Compressed, and encoded by base128.
decompress_maybe-compress_maybe_example :
    decompress_maybe runs 77 (compress_maybe runs (codes "aaaaaaaaaaaaaaaaaaaaaaaa") base128 true)
    ≡ some (codes "aaaaaaaaaaaaaaaaaaaaaaaa")
unfolding find_text starts_with
decompress_maybe-compress_maybe_example =
    decompress_maybe-compress_maybe runs 77 (codes "aaaaaaaaaaaaaaaaaaaaaaaa") base128 true
      runs-IsLzma (omega arith) (omega arith) refl (λ e. cc)

-- Nine bytes 255, and the mark behind them.
abbrev marked : List ℕ
marked = replicate 9 255 ++ lzma_str

decompress_maybe-misread_example :
    (compress_maybe runs marked base256 false ≡ encoded base256 marked)
    × (decompress_maybe runs 77 (encoded base256 marked) ≡ some (encoded base256 marked))
unfolding find_text starts_with ntohl
decompress_maybe-misread_example =
    decompress_maybe-misread runs 77 marked base256 9 (omega arith) (omega arith) refl (omega arith)
      (omega arith)

-- LZMA has been used in the first example.
is_packed :
    compressed runs (codes "aaaaaaaaaaaaaaaaaaaaaaaa")
    ≡ lzma_str ++ 0 ∷ 0 ∷ 0 ∷ 24 ∷ 0 ∷ 0 ∷ 0 ∷ 0 ∷ 0 ∷ b'a' ∷ []
unfolding compressed htonl run_compress one_run
is_packed = refl
