-- ===== src/GlobalAmp/Positions.antt =====
-- Positions: `index2amp` undoes `amp2index` on the amps of the vector.
use flimg.Prelude.{
  ℕ, zero, suc, ◌+◌, ◌<◌, ◌≡◌, refl, sym, ap, ◌∙◌, arith, true, List, [], ◌∷◌, some, ◌⊎◌, inl, inr,
  ltb, ◌==◌, ==_iff, if◌then◌else◌,
}
use flimg.Prelude.{length, get_or, get_elem?, Bool-cases, ==_refl}
use mathlib.Core.Option.{some-injective, none-ne-some}
use flimg.Cstd.{pos}
use flimg.GlobalAmp.{AmpGlobal, amp2index, amp2index_loop, index2amp}

-- What stands at a position of the rest stands `index` places further on in the whole.
Rest : List ℕ → List ℕ → ℕ → Type 0
Rest array rest index =
    (length array ≡ index + length rest) × ((i : ℕ) → get_or rest i 0 ≡ get_or array (index + i) 0)

Rest-tail :
    (array amps : List ℕ) (a index : ℕ) → Rest array (a ∷ amps) index → Rest array amps (index + 1)
unfolding Rest
Rest-tail array amps a index (e, h) =
    (omega arith, λ i. h (suc i) ∙ ap (λ k. get_or array k 0) (moved index i))
  where
    moved : (index i : ℕ) → index + suc i ≡ index + 1 + i
    moved index i = omega arith

-- A result of 0, or the position of the amp.
Found : AmpGlobal → ℕ → ℕ → Type 0
Found g src_amp ret = (ret ≡ 0) ⊎ (index2amp g (pos ret) ≡ src_amp)

found_here :
    (g : AmpGlobal) (a index : ℕ) (amps : List ℕ)
    → Rest g.amp_array (a ∷ amps) index
    → index2amp g (pos (index + 1)) ≡ a
unfolding Rest index2amp
found_here g a index amps (e, h) =
    ap (λ k. index2amp g (pos k)) (next index)
    ∙ ap (λ b. if b then get_or g.amp_array index 0 else 0)
        (inside index (length g.amp_array) (length amps) e)
    ∙ ap (λ k. get_or g.amp_array k 0) (here index)
    ∙ sym (h 0)
  where
    next : (index : ℕ) → index + 1 ≡ suc index
    next index = omega arith

    here : (index : ℕ) → index ≡ index + 0
    here index = omega arith

    inside : (index n k : ℕ) → n ≡ index + suc k → ltb index n ≡ true
    inside index n k e = ground arith

Found-same :
    (g : AmpGlobal) (a src_amp index : ℕ) (amps : List ℕ)
    → Rest g.amp_array (a ∷ amps) index
    → (src_amp == a) ≡ true
    → Found g src_amp (index + 1)
unfolding Found
Found-same g a src_amp index amps r e =
    inr (found_here g a index amps r ∙ sym ((==_iff src_amp a).0 e))

loop-Found :
    (g : AmpGlobal) (rest : List ℕ) (index src_amp ret : ℕ)
    → Rest g.amp_array rest index
    → Found g src_amp ret
    → Found g src_amp (amp2index_loop rest index src_amp ret)
unfolding amp2index_loop
loop-Found g [] index src_amp ret r f = f
loop-Found g (a ∷ amps) index src_amp ret r f = elim (Bool-cases (src_amp == a)) [
  | inl e ↦ rw e (
      loop-Found g amps (index + 1) src_amp (index + 1) (Rest-tail g.amp_array amps a index r)
        (Found-same g a src_amp index amps r e))
  | inr e ↦
      rw e (loop-Found g amps (index + 1) src_amp ret (Rest-tail g.amp_array amps a index r) f)
]

loop-positive :
    (rest : List ℕ) (index src_amp ret : ℕ) → 0 < ret → 0 < amp2index_loop rest index src_amp ret
unfolding amp2index_loop
loop-positive [] index src_amp ret p = p
loop-positive (a ∷ amps) index src_amp ret p = elim (Bool-cases (src_amp == a)) [
  | inl e ↦ rw e (loop-positive amps (index + 1) src_amp (index + 1) (omega arith))
  | inr e ↦ rw e (loop-positive amps (index + 1) src_amp ret p)
]

loop-member :
    (rest : List ℕ) (i index src_amp ret : ℕ)
    → get_elem? rest i ≡ some src_amp
    → 0 < amp2index_loop rest index src_amp ret
unfolding amp2index_loop
loop-member [] i index src_amp ret h = absurd (none-ne-some src_amp h)
loop-member (a ∷ amps) zero index src_amp ret h =
    rw (some-injective a src_amp h, ==_refl src_amp)
      (loop-positive amps (index + 1) src_amp (index + 1) (omega arith))
loop-member (a ∷ amps) (suc i) index src_amp ret h =
    loop-member amps i (index + 1) src_amp (if src_amp == a then index + 1 else ret) h

-- The position that `amp2index` returns of an amp in the vector is positive, and `index2amp` gives
-- the amp back for it.
pub index2amp-amp2index :
    (g : AmpGlobal) (src_amp i : ℕ)
    → get_elem? g.amp_array i ≡ some src_amp
    → (0 < amp2index g src_amp) × (index2amp g (pos (amp2index g src_amp)) ≡ src_amp)
unfolding amp2index Rest Found
index2amp-amp2index g src_amp i h =
    let positive = loop-member g.amp_array i 0 src_amp 0 h in
    (
      positive,
      not_zero positive (
          loop-Found g g.amp_array 0 src_amp 0
            (omega arith, λ i. ap (λ k. get_or g.amp_array k 0) (whole i)) (inl refl)),
    )
  where
    whole : (i : ℕ) → i ≡ 0 + i
    whole i = omega arith

    not_zero : {A : Type 0} {n : ℕ} → 0 < n → (n ≡ 0) ⊎ A → A
    not_zero p (inl e) = absurd (omega arith)
    not_zero p (inr a) = a
