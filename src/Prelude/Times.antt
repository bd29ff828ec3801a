-- ===== src/Prelude/Times.antt =====
-- How often a number stands in a list.
use Prim.Native.Nat.{ℕ, ◌+◌}
use mathlib.Core.Path.{◌≡◌}
use mathlib.Core.List.{List, [], ◌∷◌, ◌++◌}
use native.Mathlib.Omega.{arith}
use sdistr2020_group.Prelude.Tests.{if◌then◌else◌}
use sdistr2020_group.Prelude.Int.{ℤ, eqb_ℤ}

abbrev pub times : ℤ → List ℤ → ℕ
times d [] = 0
times d (x ∷ xs) = (if eqb_ℤ d x then 1 else 0) + times d xs

pub times-append : (d : ℤ) (xs ys : List ℤ) → times d (xs ++ ys) ≡ times d xs + times d ys
times-append d [] ys = omega arith
times-append d (x ∷ xs) ys = omega (arith, times-append d xs ys)
