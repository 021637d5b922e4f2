-- ===== src/Paging/Sorting.antt =====
-- `order by`: sorting by a key, ascending or descending.
use loopstorm_guard.Common.{
  ℕ, ◌≡◌, ◌≢◌, refl, ap, Bool, true, false, List, [], ◌∷◌, ltb, if◌then◌else◌, filter, All, arith,
  Bool-cases, inl, inr, sym, get_last?, ◌++◌, some, All-left, length, suc,
}

-- A strict order on the keys.
pub record Order : Type 0 where
  pub less : ℕ → ℕ → Bool
  pub irrefl : (a : ℕ) → less a a ≡ false
  pub trans : (a b c : ℕ) → less a b ≡ true → less b c ≡ true → less a c ≡ true
  pub total : (a b : ℕ) → a ≢ b → less a b ≡ false → less b a ≡ true

pub ltb_irrefl : (a : ℕ) → ltb a a ≡ false
ltb_irrefl a = ground arith

pub ltb_trans : (a b c : ℕ) → ltb a b ≡ true → ltb b c ≡ true → ltb a c ≡ true
ltb_trans a b c h k = ground arith

pub ltb_total : (a b : ℕ) → a ≢ b → ltb a b ≡ false → ltb b a ≡ true
ltb_total a b h k = ground arith

unfoldable pub ascending : Order
ascending = record { less = ltb; irrefl = ltb_irrefl; trans = ltb_trans; total = ltb_total }

unfoldable pub descending : Order
descending = record {
  less = λ a b. ltb b a;
  irrefl = ltb_irrefl;
  trans = λ a b c h k. ltb_trans c b a k h;
  total = λ a b n. ltb_total b a (λ e. n (sym e));
}

module _ {A : Type 0} (o : Order) (key : A → ℕ) where
  -- Rows with equal keys keep the order of the table, which SQL leaves open.
  unfoldable pub insert_by : A → List A → List A
  insert_by x [] = x ∷ []
  insert_by x (y ∷ ys) = if o.less (key y) (key x) then y ∷ insert_by x ys else x ∷ y ∷ ys

  unfoldable pub order_by : List A → List A
  unfolding insert_by
  order_by [] = []
  order_by (x ∷ xs) = insert_by x (order_by xs)

  -- Each key is before every later one.
  abbrev pub IsAscending : List A → Type 0
  IsAscending [] = Unit
  IsAscending (x ∷ xs) = All (λ y. o.less (key x) (key y) ≡ true) xs × IsAscending xs

  -- No two rows have one key.
  abbrev pub IsDistinct : List A → Type 0
  IsDistinct [] = Unit
  IsDistinct (x ∷ xs) = All (λ y. key x ≢ key y) xs × IsDistinct xs

  All-insert_by : (P : A → Type 0) (x : A) (ys : List A) → P x → All P ys → All P (insert_by x ys)
  unfolding insert_by
  All-insert_by P x [] p h = (p, tt)
  All-insert_by P x (y ∷ ys) p (q, h) = elim (Bool-cases (o.less (key y) (key x))) [
    | inl e ↦ rw (e, insert_by, All) (q, All-insert_by P x ys p h)
    | inr e ↦ rw (e, insert_by, All) (p, (q, h))
  ]

  pub All-order_by : (P : A → Type 0) (xs : List A) → All P xs → All P (order_by xs)
  unfolding order_by
  All-order_by P [] h = tt
  All-order_by P (x ∷ xs) (p, h) = All-insert_by P x (order_by xs) p (All-order_by P xs h)

  All-after :
      (a b : ℕ) (ys : List A)
      → o.less a b ≡ true
      → All (λ y. o.less b (key y) ≡ true) ys
      → All (λ y. o.less a (key y) ≡ true) ys
  All-after a b [] lt h = tt
  All-after a b (y ∷ ys) lt (k, h) = (o.trans a b (key y) lt k, All-after a b ys lt h)

  insert_by-IsAscending :
      (x : A) (ys : List A)
      → All (λ y. key x ≢ key y) ys
      → IsAscending ys
      → IsAscending (insert_by x ys)
  unfolding insert_by
  insert_by-IsAscending x [] d h = (tt, tt)
  insert_by-IsAscending x (y ∷ ys) (n, d) (p, h) = elim (Bool-cases (o.less (key y) (key x))) [
    | inl e ↦
        rw (e, IsAscending)
          (
            All-insert_by (λ z. o.less (key y) (key z) ≡ true) x ys e p,
            insert_by-IsAscending x ys d h,
          )
    | inr e ↦
        let lt = o.total (key y) (key x) (λ q. n (sym q)) e in
        rw (e, IsAscending) ((lt, All-after (key x) (key y) ys lt p), (p, h))
  ]

  pub order_by-IsAscending : (xs : List A) → IsDistinct xs → IsAscending (order_by xs)
  unfolding order_by
  order_by-IsAscending [] h = tt
  order_by-IsAscending (x ∷ xs) (d, h) =
      insert_by-IsAscending x (order_by xs) (All-order_by (λ y. key x ≢ key y) xs d)
        (order_by-IsAscending xs h)

  pub insert_by-front :
      (x : A) (ys : List A) → All (λ y. o.less (key x) (key y) ≡ true) ys → insert_by x ys ≡ x ∷ ys
  unfolding insert_by
  insert_by-front x [] h = refl
  insert_by-front x (y ∷ ys) (lt, h) = elim (Bool-cases (o.less (key y) (key x))) [
    | inl e ↦ absurd (ground (arith, o.irrefl (key x), o.trans (key x) (key y) (key x) lt e))
    | inr e ↦ rw e refl
  ]

  filter-insert_by_out :
      (p : A → Bool) (x : A) (ys : List A) → p x ≡ false → filter p (insert_by x ys) ≡ filter p ys
  unfolding insert_by
  filter-insert_by_out p x [] e = rw e refl
  filter-insert_by_out p x (y ∷ ys) e = ground (arith, filter-insert_by_out p x ys e)

  filter-All : (P : A → Type 0) (p : A → Bool) (xs : List A) → All P xs → All P (filter p xs)
  filter-All P p [] h = tt
  filter-All P p (x ∷ xs) (a, h) = elim (Bool-cases (p x)) [
    | inl e ↦ rw (e, All) (a, filter-All P p xs h)
    | inr e ↦ rw (e, All) (filter-All P p xs h)
  ]

  filter-insert_by_in :
      (p : A → Bool) (x : A) (ys : List A)
      → p x ≡ true
      → All (λ y. key x ≢ key y) ys
      → IsAscending ys
      → filter p (insert_by x ys) ≡ insert_by x (filter p ys)
  unfolding insert_by
  filter-insert_by_in p x [] e d h = rw e refl
  filter-insert_by_in p x (y ∷ ys) e (n, d) (a, h) = elim (Bool-cases (o.less (key y) (key x))) [
    | inl k ↦ ground (arith, filter-insert_by_in p x ys e d h)
    | inr k ↦
        let lt = o.total (key y) (key x) (λ q. n (sym q)) k in
        let front = insert_by-front x (filter p ys) (
          filter-All (λ z. o.less (key x) (key z) ≡ true) p ys
            (All-after (key x) (key y) ys lt a)) in
        ground (arith, front)
  ]

  -- A condition may be put before the ordering or after it.
  pub filter-order_by :
      (p : A → Bool) (xs : List A) → IsDistinct xs → order_by (filter p xs) ≡ filter p (order_by xs)
  unfolding order_by
  filter-order_by p [] h = refl
  filter-order_by p (x ∷ xs) (d, h) =
      let there = All-order_by (λ y. key x ≢ key y) xs d in
      let sorted = order_by-IsAscending xs h in
      let same = filter-order_by p xs h in
      elim (Bool-cases (p x)) [
        | inl e ↦ ground (arith, same, filter-insert_by_in p x (order_by xs) e there sorted)
        | inr e ↦ ground (arith, same, filter-insert_by_out p x (order_by xs) e)
      ]

  pub filter-IsDistinct : (p : A → Bool) (xs : List A) → IsDistinct xs → IsDistinct (filter p xs)
  filter-IsDistinct p [] h = tt
  filter-IsDistinct p (x ∷ xs) (d, h) = elim (Bool-cases (p x)) [
    | inl e ↦ rw (e, IsDistinct) (filter-All (λ y. key x ≢ key y) p xs d, filter-IsDistinct p xs h)
    | inr e ↦ rw (e, IsDistinct) (filter-IsDistinct p xs h)
  ]

  asym : (a b : ℕ) → o.less a b ≡ true → o.less b a ≡ false
  asym a b h = elim (Bool-cases (o.less b a)) [
    | inl k ↦ absurd (ground (arith, o.irrefl a, o.trans a b a h k))
    | inr k ↦ k
  ]

  filter-none : (p : A → Bool) (xs : List A) → All (λ y. p y ≡ true) xs → filter p xs ≡ xs
  filter-none p [] h = refl
  filter-none p (x ∷ xs) (e, h) = rw (e, filter) (ap (λ t. x ∷ t) (filter-none p xs h))

  last-after :
      (a : ℕ) (xs : List A) (l : A)
      → All (λ y. o.less a (key y) ≡ true) xs
      → get_last? xs ≡ some l
      → o.less a (key l) ≡ true
  last-after a [] l h e = cc
  last-after a (x ∷ []) l (p, h) e = let same : x ≡ l = ground arith in rw (← same) p
  last-after a (x ∷ y ∷ ys) l (p, h) e = last-after a (y ∷ ys) l h e

  -- In an ascending list the rows after the last one of the first part are the second part.
  pub filter-rest :
      (xs ys : List A) (l : A)
      → IsAscending (xs ++ ys)
      → get_last? xs ≡ some l
      → filter (λ r. o.less (key l) (key r)) (xs ++ ys) ≡ ys
  filter-rest [] ys l h e = cc
  filter-rest (x ∷ []) ys l (a, h) e =
      let same : l ≡ x = ground arith in
      let here : o.less (key l) (key x) ≡ false = rw same (o.irrefl (key x)) in
      let later : All (λ y. o.less (key l) (key y) ≡ true) ys = rw same a in
      rw (here, filter) (filter-none (λ r. o.less (key l) (key r)) ys later)
  filter-rest (x ∷ z ∷ xs) ys l (a, h) e =
      let lt =
        last-after (key x) (z ∷ xs) l (All-left (λ y. o.less (key x) (key y) ≡ true) (z ∷ xs) ys a)
          e in
      let not_back = asym (key x) (key l) lt in
      rw (not_back, filter) (filter-rest (z ∷ xs) ys l h e)

  length-insert_by : (x : A) (ys : List A) → length (insert_by x ys) ≡ suc (length ys)
  unfolding insert_by
  length-insert_by x [] = refl
  length-insert_by x (y ∷ ys) = ground (arith, length-insert_by x ys)

  pub length-order_by : (xs : List A) → length (order_by xs) ≡ length xs
  unfolding order_by
  length-order_by [] = refl
  length-order_by (x ∷ xs) = omega (arith, length-insert_by x (order_by xs), length-order_by xs)

  -- A list in order stays as it is.
  pub order_by_of_IsAscending : (xs : List A) → IsAscending xs → order_by xs ≡ xs
  unfolding order_by
  order_by_of_IsAscending [] h = refl
  order_by_of_IsAscending (x ∷ xs) (a, h) =
      rw (order_by_of_IsAscending xs h) (insert_by-front x xs a)

  irreflexive : (a b : ℕ) → o.less a b ≡ true → a ≢ b
  irreflexive a b lt e = ground (arith, o.irrefl b, ap (λ z. o.less z b) e)

  apart :
      (x : A) (ys : List A)
      → All (λ y. o.less (key x) (key y) ≡ true) ys
      → All (λ y. key x ≢ key y) ys
  apart x [] h = tt
  apart x (y ∷ ys) (lt, h) = (λ e. irreflexive (key x) (key y) lt e, apart x ys h)

  pub IsAscending-IsDistinct : (xs : List A) → IsAscending xs → IsDistinct xs
  IsAscending-IsDistinct [] h = tt
  IsAscending-IsDistinct (x ∷ xs) (a, h) = (apart x xs a, IsAscending-IsDistinct xs h)
