-- ===== src/Escape/Tests.antt =====
-- Runs of the escapes, and their theorems at a concrete text.
use flimg.Prelude.{◌≡◌, refl, arith, [], ◌∷◌, codes, All}
use flimg.Escape.{escape, unescape}
use flimg.Escape.RoundTrip.{PassesModem, unescape-escape, escape-PassesModem}

-- A colon at the end of a received text is dropped.
unescape_cut : unescape (codes "a:") ≡ codes "a"
unfolding unescape
unescape_cut = refl

unescape-escape_example : unescape (escape (0 ∷ b':' ∷ 255 ∷ [])) ≡ 0 ∷ b':' ∷ 255 ∷ []
unescape-escape_example = unescape-escape (0 ∷ b':' ∷ 255 ∷ [])

escape-PassesModem_example : All PassesModem (escape (0 ∷ b':' ∷ 255 ∷ []))
escape-PassesModem_example = escape-PassesModem (0 ∷ b':' ∷ 255 ∷ []) (omega arith)
