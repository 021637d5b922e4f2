-- ===== src/Ingest/Chained.antt =====
-- Stored rows that form a hash chain with ascending sequence numbers, and what the verifier of
-- lib/chain-verify.ts says of them.
use loopstorm_guard.Common.{
  ℕ, suc, ◌≤◌, ◌<◌, ◌≡◌, ◌≢◌, ◌⊎◌, inl, inr, refl, sym, ap, String, false, Option, none, some, List,
  [], ◌∷◌, ◌++◌, map, arith, All, filter, str_eq, str_eq_iff, Bool-cases, length,
}
use loopstorm_guard.Common.Sort.{IsSorted, sort_by_of_IsSorted}
use loopstorm_guard.Json.{end}
use loopstorm_guard.ChainVerify.{ChainEvent, compute_event_hash, verify_chain, valid}
use loopstorm_guard.ChainVerify.Linked.{IsAuthentic, IsLinked, link, verify_chain_iff}
use loopstorm_guard.Ingest.Store.{EventRow}

-- A stored row as the verifier gets it. The raw line is there, so `rest` is not read.
abbrev pub chain_event : EventRow → ChainEvent
chain_event r = record {
  seq = r.event.seq;
  hash = r.event.hash;
  hash_prev = r.event.hash_prev;
  raw_line = some r.raw_line;
  rest = end;
}

-- The rows of a run.
abbrev pub stored : String → List EventRow → List EventRow
stored run_id = filter (λ r. str_eq r.run_id run_id)

module _ (sha256 : String → String) where
  -- From the hash `prev` and the sequence number `seq`, the rows lead to `prev'` and `seq'`.
  abbrev pub IsChained : Option String → ℕ → List EventRow → Option String → ℕ → Type 0
  IsChained prev seq [] prev' seq' = (prev ≡ prev') × (seq ≡ seq')
  IsChained prev seq (r ∷ rs) prev' seq' =
      (seq < r.event.seq)
      × (r.raw_line ≢ "")
      × (sha256 r.raw_line ≡ r.event.hash)
      × (r.event.hash_prev ≡ prev)
      × IsChained (some r.event.hash) r.event.seq rs prev' seq'

  pub IsChained-append :
      (prev : Option String) (seq : ℕ) (xs ys : List EventRow) (q q' : Option String) (t t' : ℕ)
      → IsChained prev seq xs q t
      → IsChained q t ys q' t'
      → IsChained prev seq (xs ++ ys) q' t'
  IsChained-append prev seq [] ys q q' t t' (e, f) k = rw (e, f) k
  IsChained-append prev seq (x ∷ xs) ys q q' t t' (a, b, c, d, h) k =
      (a, b, c, d, IsChained-append (some x.event.hash) x.event.seq xs ys q q' t t' h k)

  pub IsChained-le :
      (prev : Option String) (seq : ℕ) (xs : List EventRow) (q : Option String) (t : ℕ)
      → IsChained prev seq xs q t
      → seq ≤ t
  IsChained-le prev seq [] q t (e, f) = omega arith
  IsChained-le prev seq (x ∷ xs) q t (a, b, c, d, h) =
      omega (arith, IsChained-le (some x.event.hash) x.event.seq xs q t h)

  above :
      (s : ℕ) (prev : Option String) (seq : ℕ) (xs : List EventRow) (q : Option String) (t : ℕ)
      → s ≤ seq
      → IsChained prev seq xs q t
      → All (λ e. s ≤ e.seq) (map chain_event xs)
  above s prev seq [] q t le h = tt
  above s prev seq (x ∷ xs) q t le (a, b, c, d, h) =
      (omega arith, above s (some x.event.hash) x.event.seq xs q t (omega arith) h)

  sorted :
      (prev : Option String) (seq : ℕ) (xs : List EventRow) (q : Option String) (t : ℕ)
      → IsChained prev seq xs q t
      → IsSorted (λ e. e.seq) (map chain_event xs)
  sorted prev seq [] q t h = tt
  sorted prev seq (x ∷ xs) q t (a, b, c, d, h) = (
    above x.event.seq (some x.event.hash) x.event.seq xs q t (omega arith) h,
    sorted (some x.event.hash) x.event.seq xs q t h,
  )

  authentic :
      (prev : Option String) (seq : ℕ) (xs : List EventRow) (q : Option String) (t : ℕ)
      → IsChained prev seq xs q t
      → All (IsAuthentic sha256) (map chain_event xs)
  unfolding compute_event_hash
  authentic prev seq [] q t h = tt
  authentic prev seq (x ∷ xs) q t (a, b, c, d, h) =
      (ground (arith, str_eq_iff x.raw_line ""), authentic (some x.event.hash) x.event.seq xs q t h)

  linked :
      (prev : Option String) (seq : ℕ) (xs : List EventRow) (q : Option String) (t : ℕ)
      → IsChained prev seq xs q t
      → IsLinked prev (map chain_event xs)
  linked prev seq [] q t h = IsLinked.end
  linked prev seq (x ∷ xs) q t (a, b, c, d, h) =
      link d (linked (some x.event.hash) x.event.seq xs q t h)

  length-map-chain_event : (xs : List EventRow) → length (map chain_event xs) ≡ length xs
  length-map-chain_event [] = refl
  length-map-chain_event (x ∷ xs) = ap suc (length-map-chain_event xs)

  -- The verifier accepts chained rows.
  pub verify_chain-IsChained :
      (xs : List EventRow) (q : Option String) (t : ℕ)
      → IsChained none 0 xs q t
      → verify_chain sha256 (map chain_event xs) ≡ valid (length xs)
  verify_chain-IsChained xs q t h = (verify_chain_iff sha256 (map chain_event xs) (length xs)).1 (
    sym (length-map-chain_event xs),
    rw (sort_by_of_IsSorted (λ e. e.seq) (map chain_event xs) (sorted none 0 xs q t h))
        (authentic none 0 xs q t h),
    rw (sort_by_of_IsSorted (λ e. e.seq) (map chain_event xs) (sorted none 0 xs q t h))
        (linked none 0 xs q t h),
  )

-- No row of the run has a sequence number above `s`.
abbrev pub IsBelow : String → ℕ → List EventRow → Type 0
IsBelow run_id s = All (λ x. (str_eq x.run_id run_id ≡ false) ⊎ (x.event.seq ≤ s))

pub IsBelow-stored :
    (sha256 : String → String) (run_id : String) (prev : Option String) (seq : ℕ)
    (events : List EventRow) (q : Option String) (t : ℕ)
    → IsChained sha256 prev seq (stored run_id events) q t
    → IsBelow run_id t events
IsBelow-stored sha256 run_id prev seq [] q t h = tt
IsBelow-stored sha256 run_id prev seq (x ∷ xs) q t h = elim (Bool-cases (str_eq x.run_id run_id)) [
  | inr other ↦ (inl other, IsBelow-stored sha256 run_id prev seq xs q t (rw (other, filter) at h))
  | inl same ↦
      let k : IsChained sha256 prev seq (x ∷ stored run_id xs) q t = rw (same, filter) at h in
      (
        inr (IsChained-le sha256 (some x.event.hash) x.event.seq (stored run_id xs) q t k.4),
        IsBelow-stored sha256 run_id (some x.event.hash) x.event.seq xs q t k.4,
      )
]
