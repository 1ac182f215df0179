-- ===== src/PlainText/Tests.antt =====
-- A converted text with a tab.
use flimg.Prelude.{◌≡◌, not, [], ◌∷◌}
use flimg.PlainText.{is_plain_text, convert_to_plain_text}
use flimg.PlainText.Converted.{has_tab, is_plain_text-convert_to_plain_text}

is_plain_text-convert_to_plain_text_example :
    (is_plain_text (convert_to_plain_text (b'a' ∷ 9 ∷ 200 ∷ []))
      ≡ not (has_tab (b'a' ∷ 9 ∷ 200 ∷ [])))
    × (convert_to_plain_text (convert_to_plain_text (b'a' ∷ 9 ∷ 200 ∷ []))
        ≡ convert_to_plain_text (b'a' ∷ 9 ∷ 200 ∷ []))
is_plain_text-convert_to_plain_text_example =
    is_plain_text-convert_to_plain_text (b'a' ∷ 9 ∷ 200 ∷ [])
