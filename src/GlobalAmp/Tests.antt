-- ===== src/GlobalAmp/Tests.antt =====
-- The theorems on `cAmpGlobal` at lists of two and three amps.
use flimg.Prelude.{◌<◌, ◌≡◌, refl, true, [], ◌∷◌, none}
use flimg.Cstd.{pos}
use flimg.GlobalAmp.{AmpGlobal, amp2index, index2amp, remove_amp, add, remove_position, free, erase}
use flimg.GlobalAmp.Positions.{index2amp-amp2index}
use flimg.GlobalAmp.Removal.{remove_amp_inner}

abbrev three_amps : AmpGlobal
three_amps = record { amp = 9; amp_array = 7 ∷ 8 ∷ 9 ∷ []; freed = [] }

index2amp-amp2index_example :
    (0 < amp2index three_amps 8) × (index2amp three_amps (pos (amp2index three_amps 8)) ≡ 8)
index2amp-amp2index_example = index2amp-amp2index three_amps 8 1 refl

remove_amp_inner_example : remove_amp three_amps 8 ≡ none
remove_amp_inner_example = remove_amp_inner three_amps 7 9 (7 ∷ []) [] refl (refl, tt) (refl, tt)

-- `free` deletes the selected amp, whatever its argument, and a second call deletes it again.
frees_twice : (free (free three_amps 7) 7).freed ≡ 9 ∷ 9 ∷ []
unfolding free
frees_twice = refl

-- What is added last goes first.
add_remove :
    remove_position (add three_amps 5).0 (pos 4)
    ≡ (record { amp = 9; amp_array = 7 ∷ 8 ∷ 9 ∷ []; freed = 5 ∷ [] }, true)
unfolding remove_position add erase
add_remove = refl
