-- ===== src/Common/Sums.antt =====
-- Sums over the values of a map.
use Prim.Native.Nat.{ℕ, ◌+◌}
use Prim.Native.String.{String}
use mathlib.Core.Path.{◌≡◌, refl}
use mathlib.Core.Option.{none, some}
use mathlib.Core.List.{List, [], ◌∷◌, ◌++◌}
use native.Mathlib.Omega.{arith}
use text.Mathlib.TextEquality.{eq_iff}
use loopstorm_guard.Common.Dict.{get, set, delete, IsDistinct}

module _ {A : Type 0} (w : A → ℕ) where
  unfoldable pub total : List A → ℕ
  total [] = 0
  total (x ∷ xs) = w x + total xs

  pub total-append : (xs ys : List A) → total (xs ++ ys) ≡ total xs + total ys
  unfolding total
  total-append [] ys = omega arith
  total-append (x ∷ xs) ys = omega (arith, total-append xs ys)

module _ {V : Type 0} (f : V → ℕ) where
  unfoldable pub sum_of : List (String × V) → ℕ
  sum_of [] = 0
  sum_of ((k, v) ∷ m) = f v + sum_of m

  pub sum_of-set_absent :
      (k : String) (v : V) (m : List (String × V))
      → get k m ≡ none
      → sum_of (set k v m) ≡ sum_of m + f v
  unfolding sum_of get set
  sum_of-set_absent k v [] h = omega arith
  sum_of-set_absent k v ((j, u) ∷ m) h = ground (arith, sum_of-set_absent k v m)

  -- The new value takes the place of the old one.
  pub sum_of-set_present :
      (k : String) (v u : V) (m : List (String × V))
      → get k m ≡ some u
      → sum_of (set k v m) + f u ≡ sum_of m + f v
  unfolding sum_of get set
  sum_of-set_present k v u [] h = absurd (ground arith)
  sum_of-set_present k v u ((j, t) ∷ m) h = ground (arith, sum_of-set_present k v u m)

  sum_of-delete_absent :
      (k : String) (m : List (String × V)) → get k m ≡ none → sum_of (delete k m) ≡ sum_of m
  unfolding sum_of get delete
  sum_of-delete_absent k [] h = refl
  sum_of-delete_absent k ((j, t) ∷ m) h = ground (arith, sum_of-delete_absent k m)

  pub sum_of-delete :
      (k : String) (u : V) (m : List (String × V))
      → IsDistinct m
      → get k m ≡ some u
      → sum_of (delete k m) + f u ≡ sum_of m
  unfolding sum_of get delete
  sum_of-delete k u [] d h = absurd (ground arith)
  sum_of-delete k u ((j, t) ∷ m) (alone, d) h =
      ground (arith, eq_iff j k, sum_of-delete k u m d, sum_of-delete_absent k m, alone)
