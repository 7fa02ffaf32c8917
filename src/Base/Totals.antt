-- ===== src/Base/Totals.antt =====
-- A measure summed over a list: what an element adds when it is appended, and takes away when it is
-- removed at its place.
use Prim.Native.Nat.{ℕ, zero, suc, ◌+◌}
use mathlib.Core.Path.{◌≡◌}
use mathlib.Core.Option.{some}
use mathlib.Core.List.{List, [], ◌∷◌, ◌++◌}
use native.Mathlib.Omega.{arith}
use vscode_coder.Base.Lists.{get_elem?, remove_at}

module _ {ℓ} {A : Type ℓ} (size : A → ℕ) where
  abbrev pub total : List A → ℕ
  total [] = 0
  total (x ∷ xs) = size x + total xs

  pub total-append : (xs : List A) (x : A) → total (xs ++ x ∷ []) ≡ total xs + size x
  total-append [] x = omega arith
  total-append (y ∷ xs) x = omega (arith, total-append xs x)

  pub total-remove_at :
      (xs : List A) (i : ℕ) (x : A)
      → get_elem? xs i ≡ some x
      → total xs ≡ total (remove_at xs i) + size x
  total-remove_at [] i x h = cc
  total-remove_at (y ∷ xs) zero x h = ground arith
  total-remove_at (y ∷ xs) (suc i) x h = omega (arith, total-remove_at xs i x h)
