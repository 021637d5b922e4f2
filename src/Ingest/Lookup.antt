-- ===== src/Ingest/Lookup.antt =====
-- The tables after an insertion or an update: what is found where.
use loopstorm_guard.Common.{
  ℕ, suc, ◌+◌, ◌<◌, ◌≡◌, inl, inr, refl, ◌∙◌, String, true, false, Option, none, some, List, [],
  ◌∷◌, ◌++◌, arith, All, All-map, any, str_eq, str_eq_iff, Bool-cases, length, if◌then◌else◌,
  append_assoc, append-nil,
}
use loopstorm_guard.Ingest.Batch.{Item, ok, is_mixed}
use loopstorm_guard.Ingest.Store.{
  RunRow, EventRow, is_run, is_taken, find_run, update_run, insert_events,
}
use loopstorm_guard.Ingest.Handler.{single_run, updated_run}
use loopstorm_guard.Ingest.Chained.{stored, IsChained, IsBelow}

-- The row is above every stored row of its run.
not_taken :
    (row : EventRow) (s : ℕ) (events : List EventRow)
    → IsBelow row.run_id s events
    → s < row.event.seq
    → is_taken row events ≡ false
not_taken row s [] h lt = refl
not_taken row s (x ∷ xs) (inl other, h) lt = ground (arith, not_taken row s xs h lt)
not_taken row s (x ∷ xs) (inr le, h) lt = ground (arith, not_taken row s xs h lt)

IsBelow-concat :
    (run_id : String) (s : ℕ) (events : List EventRow) (row : EventRow)
    → IsBelow run_id s events
    → s < row.event.seq
    → IsBelow run_id row.event.seq (events ++ row ∷ [])
IsBelow-concat run_id s [] row h lt = (inr (omega arith), tt)
IsBelow-concat run_id s (x ∷ xs) row (inl other, h) lt =
    (inl other, IsBelow-concat run_id s xs row h lt)
IsBelow-concat run_id s (x ∷ xs) row (inr le, h) lt =
    (inr (omega arith), IsBelow-concat run_id s xs row h lt)

module _ (sha256 : String → String) (run_id : String) where
  -- Rows above all stored ones are all inserted, at the end.
  pub insert_events_above :
      (prev : Option String) (s : ℕ) (rs events : List EventRow) (q : Option String) (t : ℕ)
      → All (λ r. r.run_id ≡ run_id) rs
      → IsChained sha256 prev s rs q t
      → IsBelow run_id s events
      → insert_events rs events ≡ (events ++ rs, length rs)
  unfolding insert_events
  insert_events_above prev s [] events q t ids h b = rw append-nil refl
  insert_events_above prev s (r ∷ rs) events q t (id, ids) (lt, _, _, _, h) b =
      let free : is_taken r events ≡ false = not_taken r s events (rw id b) lt in
      let ih =
        insert_events_above (some r.event.hash) r.event.seq rs (events ++ r ∷ []) q t ids h
          (IsBelow-concat run_id s events r b lt) in
      rw (free, if◌then◌else◌, ih) (λ i. (append_assoc events (r ∷ []) rs i, len i))
    where
      len : length rs + 1 ≡ suc (length rs)
      len = omega arith

pub stored-append :
    (run_id : String) (xs ys : List EventRow)
    → stored run_id (xs ++ ys) ≡ stored run_id xs ++ stored run_id ys
stored-append run_id [] ys = refl
stored-append run_id (x ∷ xs) ys = ground (arith, stored-append run_id xs ys)

pub stored_same :
    (run_id : String) (xs : List EventRow) → All (λ r. r.run_id ≡ run_id) xs → stored run_id xs ≡ xs
stored_same run_id [] h = refl
stored_same run_id (x ∷ xs) (e, h) =
    ground (arith, str_eq_iff x.run_id run_id, stored_same run_id xs h)

is_mixed-false :
    (x : Item) (xs : List Item)
    → is_mixed (x ∷ xs) ≡ false
    → All (λ y. y.event.run_id ≡ x.event.run_id) xs
unfolding is_mixed
is_mixed-false x [] h = tt
is_mixed-false x (y ∷ ys) h =
    (ground (arith, str_eq_iff y.event.run_id x.event.run_id), is_mixed-false x ys (ground arith))

pub single_run-All :
    (xs : List Item) (run_id : String)
    → single_run xs ≡ ok run_id
    → All (λ y. y.event.run_id ≡ run_id) xs
unfolding single_run
single_run-All [] run_id h = tt
single_run-All (x ∷ xs) run_id h = elim (Bool-cases (is_mixed (x ∷ xs))) [
  | inl mixed ↦ absurd (ground arith)
  | inr one ↦
      let e : x.event.run_id ≡ run_id = ground arith in
      (
        e,
        All-map (λ y. y.event.run_id ≡ x.event.run_id) (λ y. y.event.run_id ≡ run_id) xs
            (λ y p. p ∙ e) (is_mixed-false x xs one),
      )
]

module _ (run_id tenant_id : String) where
  pub is_run_self :
      (r : RunRow) → r.run_id ≡ run_id → r.tenant_id ≡ tenant_id → is_run run_id tenant_id r ≡ true
  is_run_self r e f = ground (arith, str_eq_iff r.run_id run_id, str_eq_iff r.tenant_id tenant_id)

  pub find-update :
      (items : List Item) (last : Item) (rs : List RunRow) (r : RunRow)
      → find_run run_id tenant_id rs ≡ some r
      → find_run run_id tenant_id (update_run run_id tenant_id (updated_run items last) rs)
        ≡ some (updated_run items last r)
  unfolding find_run update_run updated_run
  find-update items last [] r h = cc
  find-update items last (x ∷ xs) r h = ground (arith, find-update items last xs r)

  pub any-update :
      (items : List Item) (last : Item) (rs : List RunRow)
      → any (λ x. str_eq x.run_id run_id) (update_run run_id tenant_id (updated_run items last) rs)
        ≡ any (λ x. str_eq x.run_id run_id) rs
  unfolding update_run updated_run
  any-update items last [] = refl
  any-update items last (x ∷ xs) = ground (arith, any-update items last xs)

  pub find-concat :
      (rs : List RunRow) (r : RunRow)
      → find_run run_id tenant_id rs ≡ none
      → is_run run_id tenant_id r ≡ true
      → find_run run_id tenant_id (rs ++ r ∷ []) ≡ some r
  unfolding find_run
  find-concat [] r h e = ground arith
  find-concat (x ∷ xs) r h e = ground (arith, find-concat xs r)

  pub any-concat :
      (rs : List RunRow) (r : RunRow)
      → str_eq r.run_id run_id ≡ true
      → any (λ x. str_eq x.run_id run_id) (rs ++ r ∷ []) ≡ true
  any-concat [] r h = ground arith
  any-concat (x ∷ xs) r h = ground (arith, any-concat xs r h)
