-- ===== src/Keeper/RateLimit/Tests.antt =====
-- keeper/src/auth/rate-limit.service.ts at concrete inputs.
use leverx.Prelude.{ℕ, ◌≡◌, ◌+◌, min, max, List, [], ◌∷◌, arith}
use leverx.Prelude.Lists.{length}
use leverx.Prelude.Maps.{get}
use leverx.Keeper.RateLimit.{Buckets, requests}
use leverx.Keeper.RateLimit.Windows.{requests-window}

abbrev no_buckets : Buckets
no_buckets = []

abbrev later : List ℕ
later = 2_000 ∷ 3_000 ∷ 60_999 ∷ []

requests-window_example :
    (requests (b'a' ∷ []) 2 60_000 (1_000 ∷ later) no_buckets).0 ≡ min (length later + 1) (max 2 1)
unfolding get
requests-window_example =
    requests-window (b'a' ∷ []) 2 60_000 1_000 later no_buckets
      (omega arith, (omega arith, (omega arith, tt))) tt
