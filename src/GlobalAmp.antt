-- ===== src/GlobalAmp.antt =====
-- Class `cAmpGlobal` of src/include/global_amp.h and src/utils/global_amp.cxx: the amps that the
-- program knows, and the selected one.
--
-- A pointer is a number, the null pointer 0. `freed` lists what `delete` was called on, the last
-- call first. `none` is a read of the vector behind its end, which C++ leaves undefined. Each
-- function runs under the mutex from its first line to its last.
pub mod Positions
pub mod Removal
mod Tests
use flimg.Prelude.{ℕ, zero, suc, ◌+◌, ◌-◌, Bool, ◌&&◌, not, List, [], ◌∷◌, ◌++◌, Option, none, some}
use flimg.Prelude.{ltb, leb, ◌==◌, if◌then◌else◌, length, get_elem?, get_or}
use flimg.Cstd.{ℤ, pos, negsuc}

pub record AmpGlobal : Type 0 where
  pub amp : ℕ
  pub amp_array : List ℕ
  pub freed : List ℕ

-- `amp_array.erase(amp_array.begin() + index)`
unfoldable pub erase : List ℕ → ℕ → List ℕ
erase [] index = []
erase (a ∷ amps) zero = amps
erase (a ∷ amps) (suc index) = a ∷ erase amps index

-- The loop of `amp2index`, and of `get_index` with the selected amp.
unfoldable pub amp2index_loop : List ℕ → ℕ → ℕ → ℕ → ℕ
amp2index_loop [] index src_amp ret = ret
amp2index_loop (a ∷ amps) index src_amp ret =
    amp2index_loop amps (index + 1) src_amp (if src_amp == a then index + 1 else ret)

unfoldable pub amp2index : AmpGlobal → ℕ → ℕ
amp2index g src_amp = amp2index_loop g.amp_array 0 src_amp 0

unfoldable pub get_index : AmpGlobal → ℕ
get_index g = amp2index_loop g.amp_array 0 g.amp 0

unfoldable pub index2amp : AmpGlobal → ℤ → ℕ
index2amp g (pos zero) = 0
index2amp g (pos (suc i)) = if ltb i (length g.amp_array) then get_or g.amp_array i 0 else 0
index2amp g (negsuc i) = 0

-- `set(int)`, which selects no amp at a position out of range.
unfoldable pub set_position : AmpGlobal → ℤ → AmpGlobal × Bool
set_position g at = let chosen = index2amp g at in (record g { amp = chosen }, not (chosen == 0))

-- `set(cAmp *)`
unfoldable pub set_amp : AmpGlobal → ℕ → AmpGlobal × Bool
set_amp g src_amp = (record g { amp = src_amp }, not (src_amp == 0))

unfoldable pub add : AmpGlobal → ℕ → AmpGlobal × Bool
add g zero = (g, Bool.false)
add g (suc nu) = (record g { amp_array = g.amp_array ++ suc nu ∷ [] }, Bool.true)

-- One turn of the loop of `remove(cAmp *)` that finds the amp.
unfoldable pub take_out : AmpGlobal → ℕ → ℕ → AmpGlobal
take_out g src_amp index = record g {
  amp_array = erase g.amp_array index;
  amp = if src_amp == g.amp then 0 else g.amp;
}

-- The turns left, `index` and `ret`. The number of turns is fixed before the first.
unfoldable pub remove_loop : ℕ → ℕ → ℕ → AmpGlobal → Bool → Option (AmpGlobal × Bool)
remove_loop zero index src_amp g ret = some (g, ret)
remove_loop (suc turns) index src_amp g ret =
    let found = remove_loop turns (index + 1) src_amp (take_out g src_amp index) Bool.true in
    let other = remove_loop turns (index + 1) src_amp g ret in
    elim (get_elem? g.amp_array index) [
      | none ↦ none
      | some a ↦ if src_amp == a then found else other
    ]

-- `remove(cAmp *)`
unfoldable pub remove_amp : AmpGlobal → ℕ → Option (AmpGlobal × Bool)
remove_amp g zero = some (g, Bool.false)
remove_amp g (suc src) = remove_loop (length g.amp_array) 0 (suc src) g Bool.false

-- `delete` of the null pointer does nothing.
abbrev pub release : ℕ → List ℕ → List ℕ
release zero freed = freed
release (suc p) freed = suc p ∷ freed

-- `remove(int)`
unfoldable pub remove_position : AmpGlobal → ℤ → AmpGlobal × Bool
remove_position g (pos zero) = (g, Bool.false)
remove_position g (pos (suc i)) =
    let tmp = get_or g.amp_array i 0 in
    if ltb i (length g.amp_array)
    then (
      record {
        amp = if g.amp == tmp then 0 else g.amp;
        amp_array = erase g.amp_array i;
        freed = release tmp g.freed;
      },
      Bool.true,
    )
    else (g, Bool.false)
remove_position g (negsuc i) = (g, Bool.false)

-- `free`, which does not use its argument.
unfoldable pub free : AmpGlobal → ℕ → AmpGlobal
free g tmp = record g { freed = release g.amp g.freed }

unfoldable pub release_all : List ℕ → List ℕ → List ℕ
release_all [] freed = freed
release_all (a ∷ amps) freed = release_all amps (release a freed)

-- `free_all`, in which a local `amp` hides the member.
unfoldable pub free_all : AmpGlobal → AmpGlobal
free_all g = record g { amp_array = []; freed = release_all g.amp_array g.freed }
