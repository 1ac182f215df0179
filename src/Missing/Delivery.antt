-- ===== src/Missing/Delivery.antt =====
-- Which amps a report reaches.
use flimg.Prelude.{ℕ, ◌≡◌, ◌≢◌, ◌⊎◌, List, [], ◌∷◌, ◌++◌}
use flimg.Prelude.{All, length}
use flimg.Missing.{Reporter, append_report}

-- A hash that has been set, or has not.
abbrev pub IsHash : List ℕ → Type 0
IsHash hash = (hash ≡ []) ⊎ (length hash ≡ 4)

-- The first amp with the hash gets the report, and no other; or there is none.
pub data Reached (hash report : List ℕ) : List Reporter → List Reporter → Type 0 where
  nobody :
      (amps : List Reporter) → All (λ amp. amp.hash ≢ hash) amps → Reached hash report amps amps
  first :
      (front rest : List Reporter) (amp : Reporter)
      → All (λ other. other.hash ≢ hash) front
      → amp.hash ≡ hash
      → Reached hash report (front ++ amp ∷ rest) (front ++ append_report amp report ∷ rest)
