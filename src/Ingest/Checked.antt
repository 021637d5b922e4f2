-- ===== src/Ingest/Checked.antt =====
-- What the checks of a batch establish: the items are a hash chain.
use loopstorm_guard.Common.Texts.{trim_end}
use loopstorm_guard.Common.{
  ℕ, ◌+◌, ◌<◌, ◌≡◌, ◌≢◌, inl, inr, refl, String, Option, none, some, List, [], ◌∷◌, map, arith, All,
  str_eq, str_eq_iff, opt_str_eq_iff, Bool-cases, Option-cases, if◌then◌else◌,
}
use loopstorm_guard.Ingest.Batch.{
  ParsedEvent, Item, Result, ok, fail, ◌>>=◌, parse_item, parse_lines, seq_of, check_seqs_from,
  check_seqs, verify_batch_chain,
}
use loopstorm_guard.Ingest.Store.{EventRow}
use loopstorm_guard.Ingest.Handler.{row_of}
use loopstorm_guard.Ingest.Chained.{IsChained}

abbrev pub rows : String → List Item → List EventRow
rows tenant_id = map (row_of tenant_id)

-- A chain of steps that ends well: its first step ends well, and so does the rest on its value.
module _ {ℓ κ} {T : Type ℓ} {U : Type κ} where
  pub >>=-ok :
      (step : Result T) (next : T → Result U) {end_value : U}
      → (step >>= next) ≡ ok end_value
      → (value : T) × (step ≡ ok value) × (next value ≡ ok end_value)
  >>=-ok (fail error) next e = cc
  >>=-ok (ok value) next e = (value, refl, e)

-- The raw line is not empty.
abbrev pub HasLine : Item → Type 0
HasLine x = x.raw_line ≢ ""

module _ (parse_event_line : String → Option ParsedEvent)
    (empty_fails : parse_event_line "" ≡ none) where
  parse_item-HasLine :
      (i : ℕ) (raw : String) (x : Item) → parse_item parse_event_line i raw ≡ ok x → HasLine x
  parse_item-HasLine i raw x h = elim (Option-cases (parse_event_line raw)) [
    | inl e ↦ absurd (ground arith)
    | inr (event, e) ↦ λ blank.
        let same : raw ≡ x.raw_line = ground arith in
        let none_here : parse_event_line raw ≡ none = rw (same, blank) empty_fails in ground arith
  ]

  pub parse_lines-HasLine :
      (i : ℕ) (lines : List String) (xs : List Item)
      → parse_lines parse_event_line i lines ≡ ok xs
      → All HasLine xs
  unfolding parse_lines
  parse_lines-HasLine i [] xs h = let e : [] ≡ xs = ground arith in rw (← e) tt
  parse_lines-HasLine i (line ∷ lines) xs h = elim (Bool-cases (str_eq line "")) [
    | inl blank ↦ parse_lines-HasLine (i + 1) lines xs (rw (blank, if◌then◌else◌) at h)
    | inr filled ↦
        let h' = rw (filled, if◌then◌else◌) at h in
        let (x, ex, k) = >>=-ok (parse_item parse_event_line i (trim_end line)) _ h' in
        let (ys, ey, k') = >>=-ok (parse_lines parse_event_line (i + 1) lines) _ k in
        let e : x ∷ ys ≡ xs = ground arith in
        rw (← e)
          (parse_item-HasLine i (trim_end line) x ex, parse_lines-HasLine (i + 1) lines ys ey)
  ]

-- The hash and the sequence number after a batch.
abbrev pub end_hash : Option String → List Item → Option String
end_hash prev [] = prev
end_hash prev (x ∷ xs) = end_hash (some x.event.hash) xs

abbrev pub end_seq : ℕ → List Item → ℕ
end_seq seq [] = seq
end_seq seq (x ∷ xs) = end_seq (seq_of x) xs

module _ (sha256 : String → String) where
  checked-IsChained :
      (tenant_id : String) (prev : Option String) (seq : ℕ) (xs : List Item)
      → check_seqs_from seq xs ≡ ok tt
      → verify_batch_chain sha256 xs prev ≡ ok tt
      → All HasLine xs
      → IsChained sha256 prev seq (rows tenant_id xs) (end_hash prev xs) (end_seq seq xs)
  unfolding check_seqs_from verify_batch_chain
  checked-IsChained tenant_id prev seq [] c v l = (refl, refl)
  checked-IsChained tenant_id prev seq (x ∷ xs) c v (here, l) =
      let hash : sha256 x.raw_line ≡ x.event.hash =
        ground (arith, str_eq_iff (sha256 x.raw_line) x.event.hash) in
      let linked : x.event.hash_prev ≡ prev =
        ground (arith, opt_str_eq_iff x.event.hash_prev prev) in
      let later : verify_batch_chain sha256 xs (some x.event.hash) ≡ ok tt = ground arith in
      let seqs : check_seqs_from (seq_of x) xs ≡ ok tt = ground arith in
      (
        ground arith,
        here,
        hash,
        linked,
        checked-IsChained tenant_id (some x.event.hash) (seq_of x) xs seqs later l,
      )

  pub batch-IsChained :
      (tenant_id : String) (prev : Option String) (seq : ℕ) (x : Item) (xs : List Item)
      → check_seqs (x ∷ xs) ≡ ok tt
      → verify_batch_chain sha256 (x ∷ xs) prev ≡ ok tt
      → All HasLine (x ∷ xs)
      → seq < seq_of x
      → IsChained sha256 prev seq
          (rows tenant_id (x ∷ xs))
          (end_hash prev (x ∷ xs))
          (end_seq seq (x ∷ xs))
  unfolding check_seqs verify_batch_chain
  batch-IsChained tenant_id prev seq x xs c v (here, l) lt =
      let hash : sha256 x.raw_line ≡ x.event.hash =
        ground (arith, str_eq_iff (sha256 x.raw_line) x.event.hash) in
      let linked : x.event.hash_prev ≡ prev =
        ground (arith, opt_str_eq_iff x.event.hash_prev prev) in
      let later : verify_batch_chain sha256 xs (some x.event.hash) ≡ ok tt = ground arith in
      (
        lt,
        here,
        hash,
        linked,
        checked-IsChained tenant_id (some x.event.hash) (seq_of x) xs c later l,
      )
