-- ===== src/Paging.antt =====
-- Cursor pages: the queries `where … order by … limit n` of the routers in
-- packages/backend/src/trpc/routers, and the loops that follow the cursors.
pub mod Sorting
pub mod Complete
pub mod Sound
use loopstorm_guard.Common.{
  ℕ, zero, suc, ◌+◌, Bool, true, Option, none, some, List, [], ◌∷◌, ◌++◌, ltb, if◌then◌else◌,
  length, take, filter, get_last?, ◌&&◌,
}
pub use Sorting.{Order, IsAscending, IsDistinct}
unfoldable pub use Sorting.{ascending, descending, order_by}

-- What a list procedure returns: the items, and the cursor of the next page.
pub record Page (A : Type 0) : Type 0 where
  pub items : List A
  pub next_cursor : Option ℕ

module _ {A : Type 0} (o : Order) (key : A → ℕ) where
  -- The condition that the cursor adds.
  abbrev pub is_after : Option ℕ → A → Bool
  is_after none r = true
  is_after (some c) r = o.less c (key r)

  -- `nextCursor`.
  abbrev pub cursor_of : List A → Option ℕ
  cursor_of items = elim (get_last? items) [ none ↦ none | some r ↦ some (key r) ]

  -- One row more than the limit is fetched to see whether another page follows.
  unfoldable pub page_of : ℕ → List A → Page A
  page_of limit found =
      let rows = take (limit + 1) found in
      if ltb limit (length rows)
      then record { items = take limit rows; next_cursor = cursor_of (take limit rows) }
      else record { items = rows; next_cursor = none }

  unfoldable pub list_page : (A → Bool) → ℕ → Option ℕ → List A → Page A
  unfolding order_by
  list_page cond limit cursor table =
      page_of limit (order_by o key (filter (λ r. cond r && is_after cursor r) table))

-- A client that asks for page after page, at most `n` times.
unfoldable pub follow : {A : Type 0} → (Option ℕ → Page A) → ℕ → Option ℕ → List A
follow ask zero cursor = []
follow ask (suc n) cursor = elim ((ask cursor).next_cursor) [
  | none ↦ (ask cursor).items
  | some c ↦ (ask cursor).items ++ follow ask n (some c)
]
