-- ===== src/RateLimits/Retry.antt =====
-- The time after which a refused request may be tried again.
use native.Mathlib.Nat.{mod-lt, div-add-mod, mul-add-mod_self_left}
use loopstorm_guard.Common.{ℕ, suc, ◌+◌, ◌*◌, ◌/◌, ◌≤◌, ◌<◌, ◌≡◌, arith, String, List, ◌%◌}
use loopstorm_guard.RateLimits.Store.{start_of, seconds_left, increment_bucket, Bucket, answers}

module _ (window now : ℕ) (positive : 0 < window) where
  seconds_left-now : now + seconds_left window now ≡ start_of window now + window
  seconds_left-now = ground (arith, mod-lt now positive)

  seconds_left-le : (0 < seconds_left window now) × (seconds_left window now ≤ window)
  seconds_left-le = ground (arith, mod-lt now positive)

  next_window : start_of window now + window ≡ window * suc (now / window)
  next_window = grind (arith, div-add-mod now window)

  start_of-next : start_of window (window * suc (now / window)) ≡ window * suc (now / window)
  start_of-next =
      let m = mul-add-mod_self_left window (suc (now / window)) 0 in
      let z : 0 % window ≡ 0 = omega (arith, div-add-mod 0 window) in
      let e : window * suc (now / window) % window ≡ 0 = grind (arith, m, z) in rw e (omega arith)

-- When the database answers and windows are not empty, the time to wait is at least one second and
-- at most a window, and whoever waits for it comes back at the first second of the next window.
pub increment_bucket-retry_after :
    (key : String) (window limit now : ℕ) (table : List Bucket)
    → 0 < window
    → (0 < (increment_bucket key window limit now answers table).1.retry_after)
      × ((increment_bucket key window limit now answers table).1.retry_after ≤ window)
      × (now + (increment_bucket key window limit now answers table).1.retry_after
          ≡ start_of window now + window)
      × (start_of window (now + (increment_bucket key window limit now answers table).1.retry_after)
          ≡ now + (increment_bucket key window limit now answers table).1.retry_after)
unfolding increment_bucket
increment_bucket-retry_after key window limit now table positive =
    let (some_time, bounded) = seconds_left-le window now positive in
    let next = seconds_left-now window now positive in
    let start = next_window window now positive in
    (some_time, bounded, next, rw (next, start) (start_of-next window now positive))
