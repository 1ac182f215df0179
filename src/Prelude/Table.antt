-- ===== src/Prelude/Table.antt =====
-- A statement about each number below a bound, checked by evaluation.
use Prim.Native.Nat.{ℕ, zero, suc, ◌<◌}
use mathlib.Core.Path.{◌≡◌}
use mathlib.Core.Bool.{Bool, true, ◌&&◌}
use native.Mathlib.Omega.{arith}
use flimg.Prelude.Tests.{◌==◌, ==_iff}

unfoldable pub each_below : ℕ → (ℕ → Bool) → Bool
each_below zero test = true
each_below (suc bound) test = each_below bound test && test bound

pub each_below_lookup :
    (test : ℕ → Bool) (x bound : ℕ) → each_below bound test ≡ true → x < bound → test x ≡ true
unfolding each_below
each_below_lookup test x zero h lt = absurd (omega arith)
each_below_lookup test x (suc bound) h lt = ground (arith, each_below_lookup test x bound)

-- Two functions agree below `n` if a table of their values does.
pub eq_by_table :
    (f g : ℕ → ℕ) (n : ℕ) → each_below n (λ x. f x == g x) ≡ true → (x : ℕ) → x < n → f x ≡ g x
eq_by_table f g n h x lt = (==_iff (f x) (g x)).0 (each_below_lookup (λ x. f x == g x) x n h lt)
