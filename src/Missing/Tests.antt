-- ===== src/Missing/Tests.antt =====
-- A report of two missing blocks, among two amps that send and one that receives.
use flimg.Prelude.{ℕ, List, [], ◌∷◌, ◌++◌, codes}
use flimg.Frames.Tag.{tag_for}
use flimg.Missing.{Reporter}

abbrev with_hash : List ℕ → Reporter
with_hash hash = record { hash = hash; behind = []; report_buffer = codes "seen" }

abbrev sending : List Reporter
sending = with_hash [] ∷ with_hash (codes "1111") ∷ []

abbrev receiving : List Reporter
receiving = with_hash (codes "2222") ∷ []

abbrev two_missing : List ℕ
two_missing = tag_for (codes "MISSING") (codes "{1111}2 3 ") ++ codes "{1111}2 3 "
