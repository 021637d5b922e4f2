-- ===== src/Common/Sort.antt =====
-- `xs.sort((a, b) => key(a) - key(b))`: a stable ascending sort by a natural key.
use Prim.Native.Nat.{ℕ, ◌≤◌}
use mathlib.Core.Path.{◌≡◌, refl}
use mathlib.Core.List.{List, [], ◌∷◌, Perm}
use mathlib.Core.List.Perm
use native.Mathlib.Omega.{arith}
use loopstorm_guard.Common.Tests.{leb, Bool-cases, if◌then◌else◌}
use loopstorm_guard.Common.Lists.{length, All, Any}
use mathlib.Core.Logic.{◌↔◌}
use mathlib.Core.Logic.{inl, inr}

Any-swap {ℓ} :
    {A : Type ℓ} (P : A → Type 0) {x y : A} (ys zs : List A)
    → (Any P zs ↔ Any P (x ∷ ys))
    → Any P (y ∷ zs) ↔ Any P (x ∷ y ∷ ys)
Any-swap P ys zs (to, from) = (
  elim [ inl p ↦ inr (inl p) | inr h ↦ elim (to h) [ inl q ↦ inl q | inr k ↦ inr (inr k) ] ],
  elim [
    | inl q ↦ inr (from (inl q))
    | inr h ↦ elim h [ inl p ↦ inl p | inr k ↦ inr (from (inr k)) ]
  ],
)

Any-tail {ℓ} :
    {A : Type ℓ} (P : A → Type 0) {x : A} (ys zs : List A)
    → (Any P ys → Any P zs)
    → Any P (x ∷ ys)
    → Any P (x ∷ zs)
Any-tail P ys zs f (inl p) = inl p
Any-tail P ys zs f (inr h) = inr (f h)

module _ {ℓ} {A : Type ℓ} (key : A → ℕ) where
  unfoldable pub insert : A → List A → List A
  insert x [] = x ∷ []
  insert x (y ∷ ys) = if leb (key x) (key y) then x ∷ y ∷ ys else y ∷ insert x ys

  unfoldable pub sort_by : List A → List A
  unfolding insert
  sort_by [] = []
  sort_by (x ∷ xs) = insert x (sort_by xs)

  -- Each key is at most every later one.
  abbrev pub IsSorted : List A → Type 0
  IsSorted [] = Unit
  IsSorted (x ∷ xs) = All (λ y. key x ≤ key y) xs × IsSorted xs

  All-insert : (P : A → Type 0) (x : A) (ys : List A) → P x → All P ys → All P (insert x ys)
  unfolding insert
  All-insert P x [] p h = (p, tt)
  All-insert P x (y ∷ ys) p (q, h) = elim (Bool-cases (leb (key x) (key y))) [
    | inl e ↦ rw (e, insert, All) (p, (q, h))
    | inr e ↦ rw (e, insert, All) (q, All-insert P x ys p h)
  ]

  pub All-sort_by : (P : A → Type 0) (xs : List A) → All P xs → All P (sort_by xs)
  unfolding sort_by
  All-sort_by P [] h = tt
  All-sort_by P (x ∷ xs) (p, h) = All-insert P x (sort_by xs) p (All-sort_by P xs h)

  All-le_trans : {a b : ℕ} (ys : List A) → a ≤ b → All (λ y. b ≤ key y) ys → All (λ y. a ≤ key y) ys
  All-le_trans [] h k = tt
  All-le_trans (y ∷ ys) h (p, k) = (omega arith, All-le_trans ys h k)

  insert-IsSorted : (x : A) (ys : List A) → IsSorted ys → IsSorted (insert x ys)
  unfolding insert
  insert-IsSorted x [] h = (tt, tt)
  insert-IsSorted x (y ∷ ys) (p, h) = elim (Bool-cases (leb (key x) (key y))) [
    | inl e ↦
        let le : key x ≤ key y = ground arith in
        rw (e, insert, IsSorted) ((le, All-le_trans ys le p), (p, h))
    | inr e ↦
        let le : key y ≤ key x = ground arith in
        rw (e, insert, IsSorted) (All-insert (λ z. key y ≤ key z) x ys le p, insert-IsSorted x ys h)
  ]

  pub sort_by-IsSorted : (xs : List A) → IsSorted (sort_by xs)
  unfolding sort_by
  sort_by-IsSorted [] = tt
  sort_by-IsSorted (x ∷ xs) = insert-IsSorted x (sort_by xs) (sort_by-IsSorted xs)

  insert-perm : (x : A) (ys : List A) → Perm (insert x ys) (x ∷ ys)
  unfolding insert
  insert-perm x [] = Perm.refl (x ∷ [])
  insert-perm x (y ∷ ys) = elim (Bool-cases (leb (key x) (key y))) [
    | inl e ↦ rw (e, insert) (Perm.refl (x ∷ y ∷ ys))
    | inr e ↦ rw (e, insert) (Perm.trans (Perm.cons y (insert-perm x ys)) (Perm.swap x y ys))
  ]

  pub sort_by-perm : (xs : List A) → Perm (sort_by xs) xs
  unfolding sort_by
  sort_by-perm [] = Perm.refl []
  sort_by-perm (x ∷ xs) = Perm.trans (insert-perm x (sort_by xs)) (Perm.cons x (sort_by-perm xs))

  insert_below : (x : A) (ys : List A) → All (λ y. key x ≤ key y) ys → insert x ys ≡ x ∷ ys
  unfolding insert
  insert_below x [] h = refl
  insert_below x (y ∷ ys) (p, h) = ground arith

  -- A sorted list is left as it is.
  pub sort_by_of_IsSorted : (xs : List A) → IsSorted xs → sort_by xs ≡ xs
  unfolding sort_by
  sort_by_of_IsSorted [] h = refl
  sort_by_of_IsSorted (x ∷ xs) (p, h) = rw (sort_by_of_IsSorted xs h) (insert_below x xs p)

  length-insert : (x : A) (ys : List A) → length (insert x ys) ≡ length (x ∷ ys)
  unfolding insert
  length-insert x [] = refl
  length-insert x (y ∷ ys) = ground (arith, length-insert x ys)

  pub length-sort_by : (xs : List A) → length (sort_by xs) ≡ length xs
  unfolding sort_by
  length-sort_by [] = refl
  length-sort_by (x ∷ xs) = omega (arith, length-insert x (sort_by xs), length-sort_by xs)

  Any-insert : (P : A → Type 0) (x : A) (ys : List A) → Any P (insert x ys) ↔ Any P (x ∷ ys)
  unfolding insert
  Any-insert P x [] = (λ h. h, λ h. h)
  Any-insert P x (y ∷ ys) = elim (Bool-cases (leb (key x) (key y))) [
    | inl e ↦ rw (e, insert) (λ h. h, λ h. h)
    | inr e ↦ rw (e, insert) (Any-swap P ys (insert x ys) (Any-insert P x ys))
  ]

  -- Sorting neither loses nor adds an entry.
  pub Any-sort_by : (P : A → Type 0) (xs : List A) → Any P (sort_by xs) ↔ Any P xs
  unfolding sort_by
  Any-sort_by P [] = (λ h. h, λ h. h)
  Any-sort_by P (x ∷ xs) =
      let (to, from) = Any-insert P x (sort_by xs) in
      let (to', from') = Any-sort_by P xs in
      (λ h. Any-tail P (sort_by xs) xs to' (to h), λ h. from (Any-tail P xs (sort_by xs) from' h))
