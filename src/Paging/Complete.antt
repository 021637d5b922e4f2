-- ===== src/Paging/Complete.antt =====
-- Following the cursors of a list procedure gives every row once, in order.
use std.Path.{fun_ext}
use loopstorm_guard.Common.{
  ℕ, zero, suc, ◌+◌, ◌≤◌, ◌<◌, ◌≡◌, refl, sym, ap, ◌∙◌, Bool, true, false, Option, none, some, List,
  [], ◌∷◌, ◌++◌, ltb, length, take, drop, filter, get_last?, ◌&&◌, arith, Bool-cases, inl, inr,
  append_assoc, length-take,
}
use loopstorm_guard.Paging.{
  Page, Order, order_by, IsAscending, IsDistinct, is_after, cursor_of, page_of, list_page, follow,
}
use loopstorm_guard.Paging.Sorting.{
  order_by-IsAscending, filter-order_by, filter-rest, length-order_by,
}

module _ {A : Type 0} where
  pub take-drop : (n : ℕ) (xs : List A) → take n xs ++ drop n xs ≡ xs
  take-drop zero xs = refl
  take-drop (suc n) [] = refl
  take-drop (suc n) (x ∷ xs) = ap (λ t. x ∷ t) (take-drop n xs)

  pub take-all : (n : ℕ) (xs : List A) → length xs ≤ n → take n xs ≡ xs
  take-all zero [] h = refl
  take-all zero (x ∷ xs) h = absurd (omega arith)
  take-all (suc n) [] h = refl
  take-all (suc n) (x ∷ xs) h = ap (λ t. x ∷ t) (take-all n xs (omega arith))

  take-take : (n : ℕ) (xs : List A) → take n (take (suc n) xs) ≡ take n xs
  take-take zero xs = refl
  take-take (suc n) [] = refl
  take-take (suc n) (x ∷ xs) = ap (λ t. x ∷ t) (take-take n xs)

  pub length-drop_lt :
      (n : ℕ) (xs : List A) → 0 < n → n ≤ length xs → length (drop n xs) < length xs
  length-drop_lt zero xs p h = absurd (omega arith)
  length-drop_lt (suc n) [] p h = absurd (omega arith)
  length-drop_lt (suc zero) (x ∷ xs) p h = omega arith
  length-drop_lt (suc (suc n)) (x ∷ xs) p h = omega (arith, length-drop_lt (suc n) xs)

  pub get_last?-take :
      (n : ℕ) (xs : List A) → 0 < n → 0 < length xs → (l : A) × (get_last? (take n xs) ≡ some l)
  get_last?-take zero xs p h = absurd (omega arith)
  get_last?-take (suc n) [] p h = absurd (omega arith)
  get_last?-take (suc zero) (x ∷ xs) p h = (x, refl)
  get_last?-take (suc (suc n)) (x ∷ []) p h = (x, refl)
  get_last?-take (suc (suc n)) (x ∷ y ∷ xs) p h =
      get_last?-take (suc n) (y ∷ xs) (omega arith) (omega arith)

  pub get_last?-append :
      (xs ys : List A) (l : A) → get_last? ys ≡ some l → get_last? (xs ++ ys) ≡ some l
  get_last?-append [] ys l h = h
  get_last?-append (x ∷ []) [] l h = absurd (ground arith)
  get_last?-append (x ∷ []) (y ∷ ys) l h = h
  get_last?-append (x ∷ z ∷ xs) ys l h = get_last?-append (z ∷ xs) ys l h

  pub filter-filter :
      (p q : A → Bool) (xs : List A) → filter (λ r. p r && q r) xs ≡ filter q (filter p xs)
  filter-filter p q [] = refl
  filter-filter p q (x ∷ xs) = ground (arith, filter-filter p q xs)

filter-true : {A : Type 0} (xs : List A) → filter (λ r. true) xs ≡ xs
filter-true [] = refl
filter-true (x ∷ xs) = ap (λ t. x ∷ t) (filter-true xs)

plus_one : (n : ℕ) → n + 1 ≡ suc n
plus_one n = omega arith

module _ {A : Type 0} (o : Order) (key : A → ℕ) (limit : ℕ) (positive : 0 < limit) where
  -- The page of a list that is longer than the limit.
  page_of-long :
      (xs : List A)
      → limit < length xs
      → (l : A) × (page_of o key limit xs
          ≡ record { items = take limit xs; next_cursor = some (key l) })
        × (get_last? (take limit xs) ≡ some l)
  unfolding page_of
  page_of-long xs long =
      let (l, last) = get_last?-take limit xs positive (omega arith) in
      let test : ltb limit (length (take (suc limit) xs)) ≡ true =
        ground (arith, length-take (suc limit) xs) in
      (l, rw (plus_one limit, test, take-take, cursor_of, last) refl, last)

  page_of-short :
      (xs : List A)
      → length xs ≤ limit
      → page_of o key limit xs ≡ record { items = xs; next_cursor = none }
  unfolding page_of
  page_of-short xs short =
      let test : ltb limit (length xs) ≡ false = ground arith in
      rw (plus_one limit, take-all (suc limit) xs (omega arith), test) refl

  follow-end :
      (ask : Option ℕ → Page A) (n : ℕ) (c : Option ℕ) (xs : List A)
      → ask c ≡ record { items = xs; next_cursor = none }
      → follow ask (suc n) c ≡ xs
  unfolding follow
  follow-end ask n c xs e =
      ap
        (λ (p : Page A). elim p.next_cursor [
          | none ↦ p.items
          | some d ↦ p.items ++ follow ask n (some d)
        ])
        e

  follow-more :
      (ask : Option ℕ → Page A) (n : ℕ) (c : Option ℕ) (xs : List A) (d : ℕ)
      → ask c ≡ record { items = xs; next_cursor = some d }
      → follow ask (suc n) c ≡ xs ++ follow ask n (some d)
  unfolding follow
  follow-more ask n c xs d e =
      ap
        (λ (p : Page A). elim p.next_cursor [
          | none ↦ p.items
          | some d ↦ p.items ++ follow ask n (some d)
        ])
        e

  -- The rows that are left when the rows `xs` have been given.
  follow-rest :
      (all xs ys : List A) (n : ℕ) (c : Option ℕ)
      → IsAscending o key all
      → all ≡ xs ++ ys
      → filter (is_after o key c) all ≡ ys
      → length ys < n
      → follow (λ d. page_of o key limit (filter (is_after o key d) all)) n c ≡ ys
  follow-rest all xs ys zero c sorted parts left enough = absurd (omega arith)
  follow-rest all xs ys (suc n) c sorted parts left enough =
      let ask : Option ℕ → Page A = λ d. page_of o key limit (filter (is_after o key d) all) in
      elim (Bool-cases (ltb limit (length ys))) [
        | inr e ↦
            follow-end ask n c ys (ap (page_of o key limit) left ∙ page_of-short ys (ground arith))
        | inl e ↦
            let long : limit < length ys = ground arith in
            let (l, page, last) = page_of-long ys long in
            let given : List A = xs ++ take limit ys in
            let whole : all ≡ given ++ drop limit ys =
              parts
              ∙ (ap (λ t. xs ++ t) (sym (take-drop limit ys))
                  ∙ sym (append_assoc xs (take limit ys) (drop limit ys))) in
            let left' : filter (is_after o key (some (key l))) all ≡ drop limit ys = rw whole (
              filter-rest o key given (drop limit ys) l (rw whole at sorted)
                (get_last?-append xs (take limit ys) l last)) in
            follow-more ask n c (take limit ys) (key l) (ap (page_of o key limit) left ∙ page)
            ∙ (ap (λ t. take limit ys ++ t)
                  (follow-rest all given (drop limit ys) n (some (key l)) sorted whole left'
                    (omega (arith, length-drop_lt limit ys)))
                ∙ take-drop limit ys)
      ]

  list_page-filter :
      (cond : A → Bool) (table : List A) (c : Option ℕ)
      → IsDistinct o key (filter cond table)
      → list_page o key cond limit c table
        ≡ page_of o key limit (filter (is_after o key c) (order_by o key (filter cond table)))
  unfolding list_page
  list_page-filter cond table c distinct = ap (page_of o key limit) (
      ap (order_by o key) (filter-filter cond (is_after o key c) table)
      ∙ filter-order_by o key (is_after o key c) (filter cond table) distinct)

  -- When no two rows that satisfy the condition have one key, a client that follows the cursors
  -- gets all of them, each once and in the order of the keys.
  pub follow-list_page :
      (cond : A → Bool) (table : List A) (n : ℕ)
      → IsDistinct o key (filter cond table)
      → length (filter cond table) < n
      → follow (λ c. list_page o key cond limit c table) n none ≡ order_by o key (filter cond table)
  follow-list_page cond table n distinct enough =
      let all : List A = order_by o key (filter cond table) in
      let sorted = order_by-IsAscending o key (filter cond table) distinct in
      let size = length-order_by o key (filter cond table) in
      ap (λ f. follow f n none) (fun_ext (λ c. list_page-filter cond table c distinct))
      ∙ follow-rest all [] all n none sorted refl (filter-true all) (omega arith)
