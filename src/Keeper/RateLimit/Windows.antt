-- ===== src/Keeper/RateLimit/Windows.antt =====
-- keeper/src/auth/rate-limit.service.ts: how many requests a window lets through.
use leverx.Prelude.{
  ℕ, ◌+◌, ◌-◌, ◌≤◌, ◌<◌, ◌≡◌, refl, true, false, Option, none, some, List, [], ◌∷◌, arith, min, max,
  inl, inr,
}
use leverx.Prelude.Tests.{leb, Bool-cases, le→leb}
use leverx.Prelude.Texts.{Text, text_eq}
use leverx.Prelude.Lists.{All, length}
use leverx.Prelude.Maps.{get, set, get-set_same, get-set_other}
use leverx.Keeper.RateLimit.{Bucket, Buckets, next_bucket, store_bucket, allow, requests}

abbrev OverAt : ℕ → Option Bucket → Type 0
OverAt now none = Unit
OverAt now (some bucket) = bucket.reset_at ≤ now

-- The key has no bucket, or one that is over.
abbrev pub Expired : Text → ℕ → Buckets → Type 0
Expired key now buckets = OverAt now (get key buckets)

allow-fresh :
    (key : Text) (limit window_ms now : ℕ) (buckets : Buckets)
    → Expired key now buckets
    → allow key limit window_ms now buckets
      ≡ (true, set key (record { count = 1; reset_at = now + window_ms }) buckets)
unfolding allow next_bucket
allow-fresh key limit window_ms now buckets h = go (get key buckets) h
  where
    go :
        (o : Option Bucket)
        → OverAt now o
        → store_bucket key buckets (next_bucket o limit window_ms now)
          ≡ (true, set key (record { count = 1; reset_at = now + window_ms }) buckets)
    go none h = refl
    go (some b) h = rw (le→leb b.reset_at now h) refl

-- Within a window that has some requests left.
in_window :
    (key : Text) (limit window_ms end count : ℕ) (times : List ℕ) (buckets : Buckets)
    → All (λ t. t < end) times
    → get key buckets ≡ some (record { count = count; reset_at = end })
    → (requests key limit window_ms times buckets).0 ≡ min (length times) (limit - count)
unfolding requests allow next_bucket
in_window key limit window_ms end count [] buckets h e = ground arith
in_window key limit window_ms end count (t ∷ times) buckets (h, hs) e =
    let open_still : leb end t ≡ false = ground arith in
    elim (Bool-cases (leb limit count)) [
      | inl f ↦
          rw (e, open_still, f)
            (ground (arith, in_window key limit window_ms end count times buckets hs e))
      | inr f ↦
          let after = set key (record { count = count + 1; reset_at = end }) buckets in
          rw (e, open_still, f)
            (ground (
              arith,
              in_window key limit window_ms end (count + 1) times after hs
                  (get-set_same key (record { count = count + 1; reset_at = end }) buckets),
            ))
    ]

-- If no bucket of the key is in force, the request at `start` opens a window, and of it and any
-- requests before the end of the window exactly `limit` are allowed, or all of them if there are
-- fewer; a limit of 0 allows the first.
pub requests-window :
    (key : Text) (limit window_ms start : ℕ) (times : List ℕ) (buckets : Buckets)
    → All (λ t. t < start + window_ms) times
    → Expired key start buckets
    → (requests key limit window_ms (start ∷ times) buckets).0
      ≡ min (length times + 1) (max limit 1)
unfolding requests
requests-window key limit window_ms start times buckets h e =
    let bucket : Bucket = record { count = 1; reset_at = start + window_ms } in
    rw (allow-fresh key limit window_ms start buckets e) (
      ground (
        arith,
        in_window key limit window_ms (start + window_ms) 1 times (set key bucket buckets) h
            (get-set_same key bucket buckets),
      ))

-- A request leaves the buckets of the other keys as they are.
pub allow-other :
    (key other : Text) (limit window_ms now : ℕ) (buckets : Buckets)
    → text_eq key other ≡ false
    → get other (allow key limit window_ms now buckets).1 ≡ get other buckets
unfolding allow
allow-other key other limit window_ms now buckets h = stored (next_bucket _ limit window_ms now)
  where
    stored : (o : Option Bucket) → get other (store_bucket key buckets o).1 ≡ get other buckets
    stored none = refl
    stored (some bucket) = get-set_other key other bucket buckets h
