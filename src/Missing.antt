-- ===== src/Missing.antt =====
-- `process_missing_stream` of src/flimg.cxx: a report goes to the amps that it is on.
pub mod Delivery
mod Tests
use flimg.Prelude.{ℕ, Bool, List, [], ◌∷◌, ◌++◌, none, some}
use flimg.Prelude.{take, if◌then◌else◌}
use flimg.Cstd.{c_str}
use flimg.Amp.{same_text}
use flimg.Receive.{scan_frame}

-- What the function uses of an amp of `tx_amp` or `rx_amp`: the hash of that half, what the memory
-- holds behind the zero at its end, and the reports.
pub record Reporter : Type 0 where
  pub hash : List ℕ
  pub behind : List ℕ
  pub report_buffer : List ℕ

unfoldable pub append_report : Reporter → List ℕ → Reporter
append_report amp s = record amp { report_buffer = amp.report_buffer ++ s }

-- The four bytes that `memcmp` looks at, of a C string and of what stands behind its zero.
abbrev pub four_bytes : List ℕ → List ℕ → List ℕ
four_bytes s behind = take 4 (s ++ 0 ∷ behind)

-- The loop over the amps; `junk` is what the array `hash` held before.
unfoldable pub report_to : List ℕ → List ℕ → List ℕ → List Reporter → List Reporter
report_to hash junk retbuff [] = []
report_to hash junk retbuff (ctmp ∷ more) =
    let rest = report_to hash junk retbuff more in
    if same_text (four_bytes hash junk) (four_bytes ctmp.hash ctmp.behind)
    then append_report ctmp retbuff ∷ more
    else ctmp ∷ rest

-- The amps of `tx_amp` and those of `rx_amp`. No entry of these lists is a null pointer.
unfoldable pub process_missing_stream :
    List Reporter → List Reporter → List ℕ → List ℕ → List Reporter × List Reporter
process_missing_stream tx_amp rx_amp junk tmp_buffer = elim (scan_frame (c_str tmp_buffer)) [
  | none ↦ (tx_amp, rx_amp)
  | some hash ↦ (report_to hash junk tmp_buffer tx_amp, report_to hash junk tmp_buffer rx_amp)
]
