-- ===== src/Ingest/Recorded.antt =====
-- The record of a run before and after a batch, and the rows of the batch.
use loopstorm_guard.Common.{
  ℕ, suc, ◌+◌, ◌≡◌, refl, ap, ◌∙◌, String, true, Option, none, some, List, [], ◌∷◌, ◌++◌, arith,
  All, any, str_eq, str_eq_iff, length, if◌then◌else◌, is_some,
}
use loopstorm_guard.Ingest.Batch.{Item, seq_of}
use loopstorm_guard.Ingest.Store.{RunRow, find_run, insert_run}
use loopstorm_guard.Ingest.Lookup.{is_run_self, find-update, any-update, find-concat, any-concat}
use loopstorm_guard.Ingest.Handler.{updated_run, created_run, last_item, store_run}
use loopstorm_guard.Ingest.Checked.{rows, end_hash, end_seq}

abbrev pub prev_seq : Option RunRow → ℕ
prev_seq none = 0
prev_seq (some r) = r.last_seq

abbrev pub prev_count : Option RunRow → ℕ
prev_count none = 0
prev_count (some r) = r.event_count

pub end_hash-last :
    (prev : Option String) (x : Item) (xs : List Item)
    → end_hash prev (x ∷ xs) ≡ some (last_item x xs).event.hash
end_hash-last prev x [] = refl
end_hash-last prev x (y ∷ ys) = end_hash-last (some x.event.hash) y ys

pub end_seq-last :
    (seq : ℕ) (x : Item) (xs : List Item) → end_seq seq (x ∷ xs) ≡ seq_of (last_item x xs)
end_seq-last seq x [] = refl
end_seq-last seq x (y ∷ ys) = end_seq-last (seq_of x) y ys

pub length-rows : (tenant_id : String) (xs : List Item) → length (rows tenant_id xs) ≡ length xs
length-rows tenant_id [] = refl
length-rows tenant_id (x ∷ xs) = ap suc (length-rows tenant_id xs)

pub owned-rows :
    (tenant_id : String) (xs : List Item) → All (λ r. r.tenant_id ≡ tenant_id) (rows tenant_id xs)
owned-rows tenant_id [] = tt
owned-rows tenant_id (x ∷ xs) = (refl, owned-rows tenant_id xs)

pub ids-rows :
    (run_id tenant_id : String) (xs : List Item)
    → All (λ y. y.event.run_id ≡ run_id) xs
    → All (λ r. r.run_id ≡ run_id) (rows tenant_id xs)
ids-rows run_id tenant_id [] h = tt
ids-rows run_id tenant_id (x ∷ xs) (e, h) = (e, ids-rows run_id tenant_id xs h)

-- The record of the run after the batch.
pub run_after :
    (run_id tenant_id : String) (x : Item) (xs : List Item) (rs : List RunRow)
    (existing : Option RunRow)
    → x.event.run_id ≡ run_id
    → find_run run_id tenant_id rs ≡ existing
    → any (λ r. str_eq r.run_id run_id) rs ≡ is_some existing
    → (r : RunRow) × (find_run run_id tenant_id
          (store_run run_id tenant_id (x ∷ xs) x xs existing rs)
        ≡ some r)
      × (any (λ r. str_eq r.run_id run_id) (store_run run_id tenant_id (x ∷ xs) x xs existing rs)
          ≡ true)
      × (r.last_hash ≡ some (last_item x xs).event.hash)
      × (r.last_seq ≡ seq_of (last_item x xs))
      × (r.event_count ≡ prev_count existing + length (x ∷ xs))
unfolding store_run insert_run created_run updated_run
run_after run_id tenant_id x xs rs none id fresh known =
    let r = created_run run_id tenant_id (x ∷ xs) x.event (last_item x xs) in
    let found : find_run run_id tenant_id (rs ++ r ∷ []) ≡ some r =
      find-concat run_id tenant_id rs r fresh (is_run_self run_id tenant_id r refl refl) in
    let there : any (λ r. str_eq r.run_id run_id) (rs ++ r ∷ []) ≡ true =
      any-concat run_id tenant_id rs r ((str_eq_iff run_id run_id).1 refl) in
    (r, rw (known, if◌then◌else◌) found, rw (known, if◌then◌else◌) there, refl, refl, omega arith)
run_after run_id tenant_id x xs rs (some r) id found known = (
  updated_run (x ∷ xs) (last_item x xs) r,
  find-update run_id tenant_id (x ∷ xs) (last_item x xs) rs r found,
  any-update run_id tenant_id (x ∷ xs) (last_item x xs) rs ∙ known,
  refl,
  refl,
  refl,
)
