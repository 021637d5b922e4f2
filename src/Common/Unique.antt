-- ===== src/Common/Unique.antt =====
-- Tables whose rows have a key that no two rows share, and rows found in a part of a table.
use Prim.Native.Nat.{ℕ, zero, suc}
use Prim.Native.String.{String}
use mathlib.Core.Path.{◌≡◌}
use mathlib.Core.Logic.{inl, inr}
use mathlib.Core.Bool.{Bool, true, false}
use mathlib.Core.List.{List, [], ◌∷◌}
use native.Mathlib.Omega.{arith}
use text.Mathlib.Text.{◌==◌ as str_eq}
use text.Mathlib.TextEquality.{eq_iff}
use loopstorm_guard.Common.Tests.{Bool-cases}
use loopstorm_guard.Common.Lists.{any, All, Any, filter, take}

module _ {A : Type 0} (key : A → String) where
  -- No key stands twice: a primary key.
  abbrev pub IsUnique : List A → Type 0
  IsUnique [] = Unit
  IsUnique (x ∷ xs) = (any (λ y. str_eq (key y) (key x)) xs ≡ false) × IsUnique xs

  pub any_of_Any :
      (k : String) (xs : List A) → Any (λ x. key x ≡ k) xs → any (λ x. str_eq (key x) k) xs ≡ true
  any_of_Any k [] h = absurd h
  any_of_Any k (x ∷ xs) (inl e) = ground (arith, eq_iff (key x) k)
  any_of_Any k (x ∷ xs) (inr h) = ground (arith, any_of_Any k xs h)

  -- Anything holds of the rows with a key that is not there.
  pub absent-All :
      (P : A → Type 0) (k : String) (xs : List A)
      → any (λ x. str_eq (key x) k) xs ≡ false
      → All (λ x. key x ≡ k → P x) xs
  absent-All P k [] h = tt
  absent-All P k (x ∷ xs) h =
      (λ e. absurd (ground (arith, eq_iff (key x) k)), absent-All P k xs (ground arith))

module _ {A : Type 0} (P : A → Type 0) where
  pub All-filter :
      (test : A → Bool) (xs : List A) → All P xs → All (λ x. (test x ≡ true) × P x) (filter test xs)
  All-filter test [] h = tt
  All-filter test (x ∷ xs) (p, h) = elim (Bool-cases (test x)) [
    | inl e ↦ rw (e, All) ((e, p), All-filter test xs h)
    | inr e ↦ rw (e, All) (All-filter test xs h)
  ]

  pub All-take : (n : ℕ) (xs : List A) → All P xs → All P (take n xs)
  All-take zero xs h = tt
  All-take (suc n) [] h = tt
  All-take (suc n) (x ∷ xs) (p, h) = (p, All-take n xs h)
