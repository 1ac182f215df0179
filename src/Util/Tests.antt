-- ===== src/Util/Tests.antt =====
-- The theorems on the string helpers at short texts.
use flimg.Prelude.{◌≡◌, refl, arith, true, codes, take, length}
use flimg.Cstd.{c_str}
use flimg.Util.{wordwrap, strlcpy}
use flimg.Util.Strings.{is_broken, is_wrapped, wordwrap_lem, strlcpy_lem}

wordwrap_lem_example :
    (is_broken 4 1 (codes "to be or not") (wordwrap (codes "to be or not") 4) ≡ true)
    × (is_wrapped 4 1 (wordwrap (codes "to be or not") 4) ≡ true)
wordwrap_lem_example = wordwrap_lem (codes "to be or not") 4

strlcpy_lem_example :
    ((strlcpy (codes "......") (codes "hello") 4).0 ≡ 5)
    × (length (strlcpy (codes "......") (codes "hello") 4).1 ≡ 6)
    × (c_str (strlcpy (codes "......") (codes "hello") 4).1 ≡ take 3 (codes "hello"))
strlcpy_lem_example =
    strlcpy_lem (codes "......") (codes "hello") 4 (omega arith) (omega arith)
      (refl, (refl, (refl, (refl, (refl, tt)))))
