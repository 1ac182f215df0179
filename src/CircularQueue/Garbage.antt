-- ===== src/CircularQueue/Garbage.antt =====
-- What follows from `setUp` leaving the two indices unset.
use flimg.Prelude.{
  ℕ, zero, suc, ◌+◌, ◌-◌, ◌%◌, ◌^◌, ◌<◌, ◌≡◌, ◌≢◌, refl, sym, ap, ◌∙◌, arith, bit_and, Bool, false,
  [], ◌∷◌,
}
use flimg.Prelude.{get_or, replicate, get_or-set_ne, leb}
use flimg.Prelude.Bits.{bit_and_low}
use native.Mathlib.Nat.{one-le-pow}
use flimg.CircularQueue.{widen_mask, set_up, store, add_to_queue, look_ahead_bytes, look_ahead_loop}
use flimg.CircularQueue.Valid.{widen_mask_lem}

get_or-replicate : (n i : ℕ) → get_or {A = ℕ} (replicate n 0) i 0 ≡ 0
get_or-replicate zero i = refl
get_or-replicate (suc n) zero = refl
get_or-replicate (suc n) (suc i) = get_or-replicate n i

module _ (po2 r w : ℕ) (s : Bool) (pos : 0 < po2) where
  whole_mask : widen_mask (po2 - 1) 1 + 1 ≡ 2 ^ po2
  whole_mask =
      let whole : suc (0 + (po2 - 1)) ≡ po2 = omega arith in
      widen_mask_lem (po2 - 1) 0 1 refl ∙ ap (λ t. 2 ^ t) whole

  masked_index : (i : ℕ) → bit_and i (widen_mask (po2 - 1) 1) ≡ i % 2 ^ po2
  masked_index i = bit_and_low po2 i (widen_mask (po2 - 1) 1) whole_mask

  -- If the memory of the new object holds indices that differ in the ring, the first byte that is
  -- put in is not what comes out first: that is a 0 of the cleared buffer.
  pub set_up_lost :
      (c : ℕ)
      → r % 2 ^ po2 ≢ w % 2 ^ po2
      → look_ahead_bytes (add_to_queue (set_up po2 r w s) (c ∷ [])) 1 ≡ 0 ∷ []
  unfolding set_up add_to_queue store look_ahead_bytes look_ahead_loop
  set_up_lost c ne =
      let free : leb (2 ^ po2) 0 ≡ false = ground (arith, one-le-pow po2 2) in
      rw free (
        ap (λ t. t ∷ [])
          (get_or-set_ne (replicate (2 ^ po2) 0) c 0 apart
            ∙ get_or-replicate (2 ^ po2) (bit_and r (widen_mask (po2 - 1) 1))))
    where
      apart : bit_and w (widen_mask (po2 - 1) 1) ≢ bit_and r (widen_mask (po2 - 1) 1)
      apart e = ne (sym (masked_index r) ∙ sym e ∙ masked_index w)
