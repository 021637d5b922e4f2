-- ===== src/RateLimits/Store.antt =====
-- The table of buckets and `incrementBucket` of packages/backend/src/lib/rate-limit-store.ts.
use loopstorm_guard.Common.{
  ℕ, suc, ◌+◌, ◌-◌, ◌%◌, ◌≤◌, ◌≡◌, String, Bool, false, ◌&&◌, List, [], ◌∷◌, ◌==◌, leb, str_eq,
  if◌then◌else◌, arith, str_eq_iff,
}

pub record Bucket : Type 0 where
  pub key : String
  pub window_start : ℕ
  pub count : ℕ

pub record RateLimitResult : Type 0 where
  pub allowed : Bool
  pub count : ℕ
  pub retry_after : ℕ

-- How the database answers: it may fail before or after the row is written.
pub data DbReply : Type 0 where
  answers : DbReply
  fails_before : DbReply
  fails_after : DbReply

abbrev pub is_bucket : String → ℕ → Bucket → Bool
is_bucket key start b = str_eq b.key key && b.window_start == start

-- The statement `INSERT … ON CONFLICT … DO UPDATE SET count = count + 1`.
unfoldable pub upsert : String → ℕ → List Bucket → List Bucket
upsert key start [] = record { key = key; window_start = start; count = 1 } ∷ []
upsert key start (b ∷ bs) =
    if is_bucket key start b then record b { count = b.count + 1 } ∷ bs else b ∷ upsert key start bs

-- The count of a bucket; 0 if there is no row.
unfoldable pub count_of : String → ℕ → List Bucket → ℕ
count_of key start [] = 0
count_of key start (b ∷ bs) = if is_bucket key start b then b.count else count_of key start bs

abbrev pub max_one : ℕ → ℕ
max_one n = if leb n 1 then 1 else n

-- The start of the window, and the seconds that are left of it.
abbrev pub start_of : ℕ → ℕ → ℕ
start_of window now = now - now % window

abbrev pub seconds_left : ℕ → ℕ → ℕ
seconds_left window now = max_one (window - (now - start_of window now))

unfoldable pub increment_bucket :
    String → ℕ → ℕ → ℕ → DbReply → List Bucket → List Bucket × RateLimitResult
unfolding upsert count_of
increment_bucket key window limit now answers table =
    let after = upsert key (start_of window now) table in
    let count = count_of key (start_of window now) after in
    (
      after,
      record { allowed = leb count limit; count = count; retry_after = seconds_left window now },
    )
increment_bucket key window limit now fails_before table =
    (table, record { allowed = false; count = limit + 1; retry_after = window })
increment_bucket key window limit now fails_after table = (
  upsert key (start_of window now) table,
  record { allowed = false; count = limit + 1; retry_after = window },
)

pub count_of-upsert :
    (key : String) (start : ℕ) (table : List Bucket)
    → count_of key start (upsert key start table) ≡ suc (count_of key start table)
unfolding count_of upsert
count_of-upsert key start [] = ground (arith, str_eq_iff key key)
count_of-upsert key start (b ∷ bs) = ground (arith, count_of-upsert key start bs)

-- Counts never go down.
pub count_of-upsert_le :
    (key key' : String) (start start' : ℕ) (table : List Bucket)
    → count_of key' start' table ≤ count_of key' start' (upsert key start table)
unfolding count_of upsert
count_of-upsert_le key key' start start' [] = omega arith
count_of-upsert_le key key' start start' (b ∷ bs) =
    ground (arith, count_of-upsert_le key key' start start' bs)
