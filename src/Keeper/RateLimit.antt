-- ===== src/Keeper/RateLimit.antt =====
-- keeper/src/auth/rate-limit.service.ts: fixed windows of requests per key.
pub mod Windows
pub mod Tests
use leverx.Prelude.{ℕ, ◌+◌, Bool, true, false, ◌||◌, Option, none, some, List, [], ◌∷◌}
use leverx.Prelude.Tests.{leb, if◌then◌else◌}
use leverx.Prelude.Texts.{Text}
use leverx.Prelude.Maps.{Map, get, set}

pub record Bucket : Type 0 where
  pub count : ℕ
  pub reset_at : ℕ

abbrev pub Buckets : Type 0
Buckets = Map Bucket

-- What becomes of the bucket of the key; `none` leaves it and refuses the request.
unfoldable pub next_bucket : Option Bucket → ℕ → ℕ → ℕ → Option Bucket
next_bucket none limit window_ms now = some (record { count = 1; reset_at = now + window_ms })
next_bucket (some bucket) limit window_ms now =
    if leb bucket.reset_at now
    then some (record { count = 1; reset_at = now + window_ms })
    else if leb limit bucket.count
    then none
    else some (record bucket { count = bucket.count + 1 })

abbrev pub store_bucket : Text → Buckets → Option Bucket → Bool × Buckets
store_bucket key buckets none = (false, buckets)
store_bucket key buckets (some bucket) = (true, set key bucket buckets)

unfoldable pub allow : Text → ℕ → ℕ → ℕ → Buckets → Bool × Buckets
unfolding get set next_bucket
allow key limit window_ms now buckets =
    store_bucket key buckets (next_bucket (get key buckets) limit window_ms now)

-- The requests of one key at some times, and how many of them are allowed.
unfoldable pub requests : Text → ℕ → ℕ → List ℕ → Buckets → ℕ × Buckets
unfolding allow
requests key limit window_ms [] buckets = (0, buckets)
requests key limit window_ms (now ∷ times) buckets =
    let (allowed, after) = allow key limit window_ms now buckets in
    let (n, last) = requests key limit window_ms times after in
    ((if allowed then 1 else 0) + n, last)
