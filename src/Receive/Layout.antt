-- ===== src/Receive/Layout.antt =====
-- How a frame is laid out, and where no other tag begins in it.
use flimg.Prelude.{
  ℕ, ◌^◌, ◌≤◌, ◌<◌, ◌≡◌, refl, ap, ◌∙◌, false, List, [], ◌∷◌, ◌++◌, none, append_assoc,
}
use flimg.Prelude.{All, length, drop, ◌==◌}
use flimg.Cstd.{find_text, starts_with, print_nat, print_int}
use flimg.Cstd.Decimal.{to_int-pos}
use flimg.Cstd.Finding.{Absent, Absent-append, Absent-lacking}
use flimg.Crc16.{scrc16}
use flimg.Amp.{frame}
use flimg.Amp.Headers.{
  LineType, file_line, id_line, dttm_line, size_line, desc_line, data_line, prog_line, cntl_line,
}
use flimg.Receive.{ltypes, line_types}

-- A frame as `process_que` passes it on: without the line feed at its end.
unfoldable pub passed_frame : List ℕ → List ℕ → List ℕ
passed_frame tag text = tag ++ (print_nat (length text) ++ b' ' ∷ (scrc16 text ++ b'>' ∷ text))

-- What the sending half makes is such a frame and a line feed.
pub frame-passed_frame :
    (tag text : List ℕ) → length text < 2 ^ 31 → frame tag text ≡ passed_frame tag text ++ 10 ∷ []
unfolding frame passed_frame print_int
frame-passed_frame tag text h =
    ap (λ z. (tag ++ print_int z) ++ b' ' ∷ (scrc16 text ++ b'>' ∷ (text ++ 10 ∷ [])))
      (to_int-pos (length text) h)
    ∙ simp append_assoc refl

-- The tags that are looked for before one.
unfoldable pub earlier : LineType → List LineType
earlier file_line = []
earlier id_line = file_line ∷ []
earlier dttm_line = file_line ∷ id_line ∷ []
earlier size_line = file_line ∷ id_line ∷ dttm_line ∷ []
earlier desc_line = file_line ∷ id_line ∷ dttm_line ∷ size_line ∷ []
earlier data_line = file_line ∷ id_line ∷ dttm_line ∷ size_line ∷ desc_line ∷ []
earlier prog_line = file_line ∷ id_line ∷ dttm_line ∷ size_line ∷ desc_line ∷ data_line ∷ []
earlier cntl_line =
    file_line ∷ id_line ∷ dttm_line ∷ size_line ∷ desc_line ∷ data_line ∷ prog_line ∷ []

unfoldable pub later : LineType → List LineType
later file_line =
    id_line ∷ dttm_line ∷ size_line ∷ desc_line ∷ data_line ∷ prog_line ∷ cntl_line ∷ []
later id_line = dttm_line ∷ size_line ∷ desc_line ∷ data_line ∷ prog_line ∷ cntl_line ∷ []
later dttm_line = size_line ∷ desc_line ∷ data_line ∷ prog_line ∷ cntl_line ∷ []
later size_line = desc_line ∷ data_line ∷ prog_line ∷ cntl_line ∷ []
later desc_line = data_line ∷ prog_line ∷ cntl_line ∷ []
later data_line = prog_line ∷ cntl_line ∷ []
later prog_line = cntl_line ∷ []
later cntl_line = []

pub line_types_lem : (t : LineType) → line_types ≡ earlier t ++ t ∷ later t
unfolding earlier later
line_types_lem file_line = refl
line_types_lem id_line = refl
line_types_lem dttm_line = refl
line_types_lem size_line = refl
line_types_lem desc_line = refl
line_types_lem data_line = refl
line_types_lem prog_line = refl
line_types_lem cntl_line = refl

-- A text that may be sent under a tag: it is not too long, and holds no tag that is looked for
-- before its own.
pub record IsFramed (t : LineType) (text : List ℕ) : Type 0 where
  pub long : 5 ≤ length text
  pub fitting : length text ≤ 2054
  pub untagged : All (λ e. find_text (ltypes e) text ≡ none) (earlier t)

-- Another tag does not begin where a tag stands.
unfoldable pub Differ : LineType → LineType → Type 0
Differ t e = (rest : List ℕ) → starts_with (ltypes e) (ltypes t ++ rest) ≡ false

pub earlier-Differ : (t : LineType) → All (Differ t) (earlier t)
unfolding earlier Differ ltypes starts_with
earlier-Differ file_line = tt
earlier-Differ id_line = (λ r. refl, tt)
earlier-Differ dttm_line = (λ r. refl, (λ r. refl, tt))
earlier-Differ size_line = (λ r. refl, (λ r. refl, (λ r. refl, tt)))
earlier-Differ desc_line = (λ r. refl, (λ r. refl, (λ r. refl, (λ r. refl, tt))))
earlier-Differ data_line = (λ r. refl, (λ r. refl, (λ r. refl, (λ r. refl, (λ r. refl, tt)))))
earlier-Differ prog_line =
    (λ r. refl, (λ r. refl, (λ r. refl, (λ r. refl, (λ r. refl, (λ r. refl, tt))))))
earlier-Differ cntl_line =
    (λ r. refl, (λ r. refl, (λ r. refl, (λ r. refl, (λ r. refl, (λ r. refl, (λ r. refl, tt)))))))

-- A tag is `<` and characters that are not.
inside : LineType → List ℕ
unfolding ltypes
inside t = drop 1 (ltypes t)

ltypes-cons :
    (t : LineType) → (ltypes t ≡ b'<' ∷ inside t) × All (λ c. (b'<' == c) ≡ false) (inside t)
unfolding ltypes inside
ltypes-cons file_line = (refl, (refl, (refl, (refl, (refl, (refl, tt))))))
ltypes-cons id_line = (refl, (refl, (refl, (refl, tt))))
ltypes-cons dttm_line = (refl, (refl, (refl, (refl, (refl, (refl, tt))))))
ltypes-cons size_line = (refl, (refl, (refl, (refl, (refl, (refl, tt))))))
ltypes-cons desc_line = (refl, (refl, (refl, (refl, (refl, (refl, tt))))))
ltypes-cons data_line = (refl, (refl, (refl, (refl, (refl, (refl, tt))))))
ltypes-cons prog_line = (refl, (refl, (refl, (refl, (refl, (refl, tt))))))
ltypes-cons cntl_line = (refl, (refl, (refl, (refl, (refl, (refl, tt))))))

unfoldable pub Lacks : ℕ → Type 0
Lacks c = (b'<' == c) ≡ false

Absent-header :
    (i o rest text : List ℕ)
    → starts_with (b'<' ∷ i) ((b'<' ∷ o) ++ (rest ++ text)) ≡ false
    → All Lacks o
    → All Lacks rest
    → Absent (b'<' ∷ i) ((b'<' ∷ o) ++ rest) text
unfolding Lacks
Absent-header i o rest text h lo lr = (
  ap (λ u. starts_with (b'<' ∷ i) (b'<' ∷ u)) (append_assoc o rest text) ∙ h,
  Absent-append (b'<' ∷ i) o rest text (Absent-lacking b'<' i o (rest ++ text) lo)
      (Absent-lacking b'<' i rest text lr),
)

pub Absent-tag :
    (t e : LineType) (rest text : List ℕ)
    → Differ t e
    → All Lacks rest
    → Absent (ltypes e) (ltypes t ++ rest) text
unfolding Differ Lacks
Absent-tag t e rest text d lr =
    let (same_e, le) = ltypes-cons e in
    let (same_t, lt) = ltypes-cons t in
    let h = rw (same_e, same_t) at (d (rest ++ text)) in
    rw (same_e, same_t) (Absent-header (inside e) (inside t) rest text h lt lr)
