-- ===== src/Review/Table.antt =====
-- A table that is read by its first matching row, updated by a condition, and never loses a row.
use loopstorm_guard.Common.{
  ◌≡◌, refl, Bool, true, false, Option, none, some, List, [], ◌∷◌, ◌++◌, if◌then◌else◌, filter, All,
  Any, arith, Bool-cases, inl, inr,
}

module _ {A : Type 0} where
  -- `select … where … limit 1`.
  unfoldable pub first_where : (A → Bool) → List A → Option A
  first_where test [] = none
  first_where test (x ∷ xs) = if test x then some x else first_where test xs

  -- `update … set … where …`.
  unfoldable pub update_where : (A → Bool) → (A → A) → List A → List A
  update_where test f [] = []
  update_where test f (x ∷ xs) = (if test x then f x else x) ∷ update_where test f xs

  -- The rows of the first table are those of the second, changed as `R` allows, which may have more
  -- rows behind.
  abbrev pub Grows : (A → A → Type 0) → List A → List A → Type 0
  Grows R [] ys = Unit
  Grows R (x ∷ xs) [] = ⊥
  Grows R (x ∷ xs) (y ∷ ys) = R x y × Grows R xs ys

  pub first_where-holds :
      (test : A → Bool) (xs : List A) (x : A) → first_where test xs ≡ some x → test x ≡ true
  unfolding first_where
  first_where-holds test [] x h = absurd (ground arith)
  first_where-holds test (y ∷ ys) x h = elim (Bool-cases (test y)) [
    | inl e ↦ let same : y ≡ x = ground arith in rw (← same) e
    | inr e ↦ first_where-holds test ys x (ground arith)
  ]

  pub All-first_where :
      (P : A → Type 0) (test : A → Bool) (xs : List A) (x : A)
      → All P xs
      → first_where test xs ≡ some x
      → P x
  unfolding first_where
  All-first_where P test [] x h e = absurd (ground arith)
  All-first_where P test (y ∷ ys) x (p, h) e = elim (Bool-cases (test y)) [
    | inl t ↦ let same : y ≡ x = ground (arith, e, t) in rw (← same) p
    | inr t ↦ All-first_where P test ys x h (ground (arith, e, t))
  ]

  -- A column that an update leaves stays in the table.
  pub Any-update_where :
      (P : A → Type 0) (test : A → Bool) (f : A → A)
      → ((x : A) → P x → P (f x))
      → (xs : List A) → Any P xs
      → Any P (update_where test f xs)
  unfolding update_where
  Any-update_where P test f keeps [] h = absurd h
  Any-update_where P test f keeps (x ∷ xs) (inl p) = elim (Bool-cases (test x)) [
    | inl t ↦ inl (rw t (keeps x p))
    | inr t ↦ inl (rw t p)
  ]
  Any-update_where P test f keeps (x ∷ xs) (inr h) = inr (Any-update_where P test f keeps xs h)

  -- An update for which there is no row changes nothing.
  pub update_where-none :
      (test : A → Bool) (f : A → A) (xs : List A)
      → first_where test xs ≡ none
      → update_where test f xs ≡ xs
  unfolding first_where update_where
  update_where-none test f [] h = refl
  update_where-none test f (x ∷ xs) h = ground (arith, update_where-none test f xs)

  -- A weaker test is met when a stronger one is.
  pub first_where-weaker :
      (test weak : A → Bool) (xs : List A) (x : A)
      → ((z : A) → test z ≡ true → weak z ≡ true)
      → first_where test xs ≡ some x
      → (y : A) × (first_where weak xs ≡ some y)
  unfolding first_where
  first_where-weaker test weak [] x imp h = absurd (ground arith)
  first_where-weaker test weak (z ∷ zs) x imp h = elim (Bool-cases (weak z)) [
    | inl e ↦ (z, rw e refl)
    | inr e ↦
        let (y, k) = first_where-weaker test weak zs x imp (ground (arith, imp z)) in (y, rw e k)
  ]

  -- After an update whose result fails the test, no row passes it.
  pub first_where-update_where :
      (test : A → Bool) (f : A → A)
      → ((z : A) → test z ≡ true → test (f z) ≡ false)
      → (xs : List A) → first_where test (update_where test f xs) ≡ none
  unfolding first_where update_where
  first_where-update_where test f leaves [] = refl
  first_where-update_where test f leaves (x ∷ xs) =
      ground (arith, leaves x, first_where-update_where test f leaves xs)

  pub filter-update_where :
      (test : A → Bool) (f : A → A)
      → ((z : A) → test z ≡ true → test (f z) ≡ false)
      → (xs : List A) → filter test (update_where test f xs) ≡ []
  unfolding update_where
  filter-update_where test f leaves [] = refl
  filter-update_where test f leaves (x ∷ xs) =
      ground (arith, leaves x, filter-update_where test f leaves xs)

  -- An update keeps the rows that a test picks when it changes none of them.
  pub filter-update_where_kept :
      (test keep : A → Bool) (f : A → A)
      → ((z : A) → test z ≡ true → keep z ≡ false)
      → ((z : A) → test z ≡ true → keep (f z) ≡ false)
      → (xs : List A) → filter keep (update_where test f xs) ≡ filter keep xs
  unfolding update_where
  filter-update_where_kept test keep f before after [] = refl
  filter-update_where_kept test keep f before after (x ∷ xs) =
      ground (arith, before x, after x, filter-update_where_kept test keep f before after xs)

  pub All-update_where :
      (P : A → Type 0) (test : A → Bool) (f : A → A)
      → ((z : A) → test z ≡ true → P z → P (f z))
      → (xs : List A) → All P xs
      → All P (update_where test f xs)
  unfolding update_where
  All-update_where P test f keeps [] h = tt
  All-update_where P test f keeps (x ∷ xs) (p, h) = elim (Bool-cases (test x)) [
    | inl e ↦ rw (e, All) (keeps x e p, All-update_where P test f keeps xs h)
    | inr e ↦ rw (e, All) (p, All-update_where P test f keeps xs h)
  ]

  module _ (R : A → A → Type 0) (R_refl : (x : A) → R x x) where
    pub Grows-refl : (xs : List A) → Grows R xs xs
    Grows-refl [] = tt
    Grows-refl (x ∷ xs) = (R_refl x, Grows-refl xs)

    pub Grows-append : (xs ys : List A) → Grows R xs (xs ++ ys)
    Grows-append [] ys = tt
    Grows-append (x ∷ xs) ys = (R_refl x, Grows-append xs ys)

    pub Grows-update_where :
        (test : A → Bool) (f : A → A)
        → ((z : A) → test z ≡ true → R z (f z))
        → (xs : List A) → Grows R xs (update_where test f xs)
    unfolding update_where
    Grows-update_where test f allowed [] = tt
    Grows-update_where test f allowed (x ∷ xs) = elim (Bool-cases (test x)) [
      | inl e ↦ rw (e, Grows) (allowed x e, Grows-update_where test f allowed xs)
      | inr e ↦ rw (e, Grows) (R_refl x, Grows-update_where test f allowed xs)
    ]

  pub Grows-trans :
      (R : A → A → Type 0)
      → ((x y z : A) → R x y → R y z → R x z)
      → (xs ys zs : List A) → Grows R xs ys
      → Grows R ys zs
      → Grows R xs zs
  Grows-trans R R_trans [] ys zs h k = tt
  Grows-trans R R_trans (x ∷ xs) [] zs h k = absurd h
  Grows-trans R R_trans (x ∷ xs) (y ∷ ys) [] h k = absurd k
  Grows-trans R R_trans (x ∷ xs) (y ∷ ys) (z ∷ zs) (p, h) (q, k) =
      (R_trans x y z p q, Grows-trans R R_trans xs ys zs h k)
