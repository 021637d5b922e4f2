-- ===== src/Paging/Sound.antt =====
-- What stands on one page of a list procedure.
use loopstorm_guard.Common.{
  ℕ, zero, suc, ◌+◌, ◌≤◌, ◌≡◌, Bool, true, Option, List, [], ◌∷◌, ltb, ◌&&◌, length, take, filter,
  All, All-map, arith, Bool-cases, inl, inr, length-take,
}
use loopstorm_guard.Paging.{Page, Order, order_by, is_after, page_of, list_page}
use loopstorm_guard.Paging.Sorting.{All-order_by}

module _ {A : Type 0} where
  All-take : (P : A → Type 0) (n : ℕ) (xs : List A) → All P xs → All P (take n xs)
  All-take P zero xs h = tt
  All-take P (suc n) [] h = tt
  All-take P (suc n) (x ∷ xs) (p, h) = (p, All-take P n xs h)

  filter-holds : (p : A → Bool) (xs : List A) → All (λ r. p r ≡ true) (filter p xs)
  filter-holds p [] = tt
  filter-holds p (x ∷ xs) = elim (Bool-cases (p x)) [
    | inl e ↦ rw (e, All) (e, filter-holds p xs)
    | inr e ↦ rw (e, All) (filter-holds p xs)
  ]

module _ {A : Type 0} (o : Order) (key : A → ℕ) where
  -- A page is no longer than the limit, and all its rows satisfy the condition and come after the
  -- cursor.
  pub record IsPage (cond : A → Bool) (limit : ℕ) (cursor : Option ℕ) (page : Page A) : Type 0 where
    pub short : length page.items ≤ limit
    pub fit : All (λ r. (cond r ≡ true) × (is_after o key cursor r ≡ true)) page.items

  page_of-short : (limit : ℕ) (xs : List A) → length (page_of o key limit xs).items ≤ limit
  unfolding page_of
  page_of-short limit xs = elim (Bool-cases (ltb limit (length (take (limit + 1) xs)))) [
    | inl e ↦ rw e (omega (arith, length-take limit (take (limit + 1) xs)))
    | inr e ↦ rw e (ground arith)
  ]

  All-page_of :
      (P : A → Type 0) (limit : ℕ) (xs : List A) → All P xs → All P (page_of o key limit xs).items
  unfolding page_of
  All-page_of P limit xs h = elim (Bool-cases (ltb limit (length (take (limit + 1) xs)))) [
    | inl e ↦ rw e (All-take P limit (take (limit + 1) xs) (All-take P (limit + 1) xs h))
    | inr e ↦ rw e (All-take P (limit + 1) xs h)
  ]

  pub list_page-IsPage :
      (cond : A → Bool) (limit : ℕ) (cursor : Option ℕ) (table : List A)
      → IsPage cond limit cursor (list_page o key cond limit cursor table)
  unfolding list_page
  list_page-IsPage cond limit cursor table =
      let found : List A = filter (λ r. cond r && is_after o key cursor r) table in
      record {
        short = page_of-short limit (order_by o key found);
        fit =
            All-page_of (λ r. (cond r ≡ true) × (is_after o key cursor r ≡ true)) limit
              (order_by o key found)
              (All-order_by o key (λ r. (cond r ≡ true) × (is_after o key cursor r ≡ true)) found
                (All-map (λ r. (cond r && is_after o key cursor r) ≡ true)
                  (λ r. (cond r ≡ true) × (is_after o key cursor r ≡ true)) found
                  (λ r h. (ground arith, ground arith))
                  (filter-holds (λ r. cond r && is_after o key cursor r) table)));
      }
