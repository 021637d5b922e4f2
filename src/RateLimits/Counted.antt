-- ===== src/RateLimits/Counted.antt =====
-- What a chain of checks does to the counts of the buckets.
use loopstorm_guard.Common.{ℕ, suc, ◌≤◌, ◌≡◌, ◌⊎◌, inl, inr, String, true, List, arith, Bool-cases}
use loopstorm_guard.RateLimits.Store.{
  Bucket, DbReply, answers, fails_before, fails_after, increment_bucket, count_of, start_of,
  count_of-upsert, count_of-upsert_le,
}
use loopstorm_guard.RateLimits.Email.{sent, Check, next_check, pass, run_checks}

-- The check is one of the chain.
abbrev pub HasCheck : String → ℕ → ℕ → Check → Type 0
HasCheck key window limit (pass ip) = ⊥
HasCheck key window limit (next_check key' window' limit' rest) =
    ((key' ≡ key) × (window' ≡ window) × (limit' ≡ limit)) ⊎ HasCheck key window limit rest

increment-le :
    (key key' : String) (window limit now start : ℕ) (reply : DbReply) (table : List Bucket)
    → count_of key' start table
      ≤ count_of key' start (increment_bucket key window limit now reply table).0
unfolding increment_bucket
increment-le key key' window limit now start answers table =
    count_of-upsert_le key key' (start_of window now) start table
increment-le key key' window limit now start fails_before table = omega arith
increment-le key key' window limit now start fails_after table =
    count_of-upsert_le key key' (start_of window now) start table

-- An allowed request has been counted, and is within the limit.
increment-allowed :
    (key : String) (window limit now : ℕ) (reply : DbReply) (table : List Bucket)
    → (increment_bucket key window limit now reply table).1.allowed ≡ true
    → (suc (count_of key (start_of window now) table) ≤ limit)
      × (count_of key (start_of window now) (increment_bucket key window limit now reply table).0
          ≡ suc (count_of key (start_of window now) table))
unfolding increment_bucket
increment-allowed key window limit now answers table h =
    ground (arith, count_of-upsert key (start_of window now) table)
increment-allowed key window limit now fails_before table h = absurd (ground arith)
increment-allowed key window limit now fails_after table h = absurd (ground arith)

module _ (now : ℕ) (reply : String → DbReply) (key : String) where
  pub run_checks-le :
      (start : ℕ) (check : Check) (table : List Bucket)
      → count_of key start table ≤ count_of key start (run_checks now reply check table).0
  unfolding run_checks
  run_checks-le start (pass ip) table = omega arith
  run_checks-le start (next_check key' window limit rest) table = ground (
    arith,
    increment-le key' key window limit now start (reply key') table,
    run_checks-le start rest (increment_bucket key' window limit now (reply key') table).0,
  )

  pub run_checks-sent :
      (window limit : ℕ) (ip : String) (check : Check) (table : List Bucket)
      → (run_checks now reply check table).1 ≡ sent ip
      → HasCheck key window limit check
      → (suc (count_of key (start_of window now) table) ≤ limit)
        × (suc (count_of key (start_of window now) table)
            ≤ count_of key (start_of window now) (run_checks now reply check table).0)
  unfolding run_checks
  run_checks-sent window limit ip (pass ip') table h has = absurd has
  run_checks-sent window limit ip (next_check key' window' limit' rest) table h has =
      elim (Bool-cases (increment_bucket key' window' limit' now (reply key') table).1.allowed) [
        | inr e ↦ absurd (ground (arith, rw (run_checks, e) at h))
        | inl e ↦
            let after = (increment_bucket key' window' limit' now (reply key') table).0 in
            let below =
              increment-le key' key window' limit' now (start_of window now) (reply key') table in
            let above = run_checks-le (start_of window now) rest after in
            elim has [
              | inl (same, same', same'') ↦
                  let (fits, counted) =
                    increment-allowed key' window' limit' now (reply key') table e in
                  let fits' : suc (count_of key (start_of window now) table) ≤ limit =
                    rw (← same, ← same', ← same'') fits in
                  let counted' : count_of key (start_of window now) after
                      ≡ suc (count_of key (start_of window now) table) =
                    rw (← same, ← same') counted in
                  rw (run_checks, e) (fits', omega (arith, above, counted'))
              | inr k ↦
                  let (fits, counted) =
                    run_checks-sent window limit ip rest after (rw (run_checks, e) at h) k in
                  rw (run_checks, e) (omega (arith, below, fits), omega (arith, below, counted))
            ]
      ]
