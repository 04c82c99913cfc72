-- ===== src/Keeper/Replay/Protects.antt =====
-- keeper/src/trade/trade-replay.store.ts: how long a used intent stays refused.
use leverx.Prelude.{
  ℕ, ◌+◌, ◌≤◌, ◌<◌, ◌≡◌, refl, ◌∙◌, ◌↔◌, true, false, not, some, List, [], ◌∷◌, arith,
}
use leverx.Prelude.Tests.{ltb}
use leverx.Prelude.Texts.{Text, trim, text_eq}
use leverx.Prelude.Lists.{All}
use leverx.Prelude.Maps.{
  get, set, get-set_same, get-set_other, get-keep_if, get-keep_if_sound, get-keep_if_dropped,
  Unique, set-Unique, keep_if-Unique,
}
use leverx.Keeper.Replay.{
  Store, empty_store, prune, is_replayed, mark_used, expiry_ok, assert_trade_intent_expiry,
  trade_max_ttl_ms, trade_clock_skew_ms, Use, check, mark, after_uses,
}

-- A use that can not forget the signature: a check no later than its expiry, or another signature.
abbrev pub Spares : Text → ℕ → Use → Type 0
Spares signature expires_at (check other now) = now ≤ expires_at
Spares signature expires_at (mark other e) = text_eq (trim other) (trim signature) ≡ false

kept :
    (signature : Text) (expires_at : ℕ) (uses : List Use) (used : Store)
    → All (Spares signature expires_at) uses
    → get (trim signature) used ≡ some expires_at
    → get (trim signature) (after_uses uses used) ≡ some expires_at
unfolding after_uses is_replayed mark_used prune
kept signature expires_at [] used h e = e
kept signature expires_at (check other now ∷ uses) used (h, hs) e =
    kept signature expires_at uses _ hs
      (get-keep_if (λ t. not (ltb t now)) (trim signature) expires_at used e (ground arith))
kept signature expires_at (mark other t ∷ uses) used (h, hs) e =
    kept signature expires_at uses _ hs (get-set_other (trim other) (trim signature) t used h ∙ e)

-- Once an intent is marked as used, it is recognised as replayed at every time up to its expiry, whatever
-- the store held before, and whatever checks up to the expiry and marks of other signatures come
-- between.
pub is_replayed-mark_used :
    (signature : Text) (expires_at : ℕ) (uses : List Use) (used : Store) (now : ℕ)
    → All (Spares signature expires_at) uses
    → now ≤ expires_at
    → (is_replayed signature now (after_uses uses (mark_used signature expires_at used))).0 ≡ true
unfolding is_replayed prune mark_used
is_replayed-mark_used signature expires_at uses used now h early =
    let stored = kept signature expires_at uses _ h marked in
    rw (get-keep_if (λ t. not (ltb t now)) (trim signature) expires_at _ stored (ground arith))
      (ground arith)
  where
    marked : get (trim signature) (mark_used signature expires_at used) ≡ some expires_at
    marked = get-set_same (trim signature) expires_at used

-- The expiry check accepts exactly the intents that expired at most the clock skew ago and expire at
-- most the maximal lifetime and the skew from now.
pub assert_trade_intent_expiry_iff :
    (expires_at now : ℕ)
    → (assert_trade_intent_expiry expires_at now ≡ expiry_ok) ↔ (
        (now ≤ expires_at + trade_clock_skew_ms)
        × (expires_at ≤ now + trade_max_ttl_ms + trade_clock_skew_ms))
unfolding assert_trade_intent_expiry
assert_trade_intent_expiry_iff expires_at now = ground arith

pub after_uses-Unique :
    (uses : List Use) (used : Store) → Unique used → Unique (after_uses uses used)
unfolding after_uses is_replayed mark_used prune
after_uses-Unique [] used u = u
after_uses-Unique (check signature now ∷ uses) used u =
    after_uses-Unique uses _ (keep_if-Unique _ used u)
after_uses-Unique (mark signature t ∷ uses) used u =
    after_uses-Unique uses _ (set-Unique (trim signature) t used u)

-- An intent that expired no longer ago than the clock skew passes the expiry check, and yet the store
-- does not recognise it as replayed when it was just marked as used, whatever uses came before: the
-- same signed intent is accepted again until the skew is over.
pub is_replayed-within_skew :
    (signature : Text) (expires_at : ℕ) (uses : List Use) (now : ℕ)
    → expires_at < now
    → now ≤ expires_at + trade_clock_skew_ms
    → (assert_trade_intent_expiry expires_at now ≡ expiry_ok)
      × ((is_replayed signature now
            (mark_used signature expires_at (after_uses uses empty_store))).0
          ≡ false)
unfolding is_replayed prune assert_trade_intent_expiry mark_used
is_replayed-within_skew signature expires_at uses now late within =
    let used = after_uses uses empty_store in
    let gone =
      get-keep_if_dropped (λ t. not (ltb t now)) (trim signature) expires_at
        (set (trim signature) expires_at used)
        (set-Unique (trim signature) expires_at used (after_uses-Unique uses empty_store tt))
        (get-set_same (trim signature) expires_at used) (ground arith) in
    (ground arith, rw gone refl)

-- A check leaves no expired intent in the store.
pub is_replayed-pruned :
    (signature other : Text) (now expires_at : ℕ) (used : Store)
    → get other (is_replayed signature now used).1 ≡ some expires_at
    → now ≤ expires_at
unfolding is_replayed prune
is_replayed-pruned signature other now expires_at used h =
    let live = get-keep_if_sound (λ t. not (ltb t now)) other expires_at used h in ground arith
