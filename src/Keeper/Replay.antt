-- ===== src/Keeper/Replay.antt =====
-- keeper/src/trade/trade-replay.store.ts, the cache of used trade intents, and the expiry check of
-- keeper/src/trade/trade-message.ts that lets an intent through.
pub mod Protects
pub mod Refines
pub mod Tests
use Prim.Native.String.{String}
use leverx.Prelude.{ℕ, ◌+◌, Bool, true, false, not, Option, none, some, List, [], ◌∷◌}
use leverx.Prelude.Tests.{ltb, leb, if◌then◌else◌}
use leverx.Prelude.Int.{sub_ℕ, ltb_ℤ, pos}
use leverx.Prelude.Texts.{Text, trim}
use leverx.Prelude.Maps.{Map, get, set, keep_if}

-- The signatures that were used, with the expiry of their intents.
abbrev pub Store : Type 0
Store = Map ℕ

abbrev pub empty_store : Store
empty_store = []

unfoldable pub prune : ℕ → Store → Store
unfolding keep_if
prune now used = keep_if (λ expires_at. not (ltb expires_at now)) used

abbrev pub is_live : ℕ → Option ℕ → Bool
is_live now none = false
is_live now (some expires_at) = leb now expires_at

-- The answer, and the store as it is left.
unfoldable pub is_replayed : Text → ℕ → Store → Bool × Store
unfolding prune get trim
is_replayed signature now used =
    let pruned = prune now used in (is_live now (get (trim signature) pruned), pruned)

unfoldable pub mark_used : Text → ℕ → Store → Store
unfolding set trim
mark_used signature expires_at used = set (trim signature) expires_at used

abbrev pub trade_max_ttl_ms : ℕ
trade_max_ttl_ms = 300_000

abbrev pub trade_clock_skew_ms : ℕ
trade_clock_skew_ms = 30_000

pub data ExpiryCheck : Type 0 where
  expiry_ok message_expired message_expiry_too_far : ExpiryCheck

unfoldable pub assert_trade_intent_expiry : ℕ → ℕ → ExpiryCheck
assert_trade_intent_expiry expires_at now =
    if ltb_ℤ (pos expires_at) (sub_ℕ now trade_clock_skew_ms)
    then message_expired
    else if ltb (now + trade_max_ttl_ms + trade_clock_skew_ms) expires_at
    then message_expiry_too_far
    else expiry_ok

-- What happens to the store over time.
pub data Use : Type 0 where
  check : Text → ℕ → Use
  mark : Text → ℕ → Use

unfoldable pub after_uses : List Use → Store → Store
unfolding is_replayed mark_used
after_uses [] used = used
after_uses (check signature now ∷ uses) used = after_uses uses (is_replayed signature now used).1
after_uses (mark signature expires_at ∷ uses) used =
    after_uses uses (mark_used signature expires_at used)
