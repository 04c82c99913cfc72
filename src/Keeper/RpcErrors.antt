-- ===== src/Keeper/RpcErrors.antt =====
-- keeper/src/sui/sui-rpc-errors.ts: which errors of an RPC node are worth another attempt.
use leverx.Prelude.{ℕ, Bool, false, ◌||◌, Option, none, some, List, [], ◌∷◌}
use leverx.Prelude.Tests.{◌==◌}
use leverx.Prelude.Texts.{Text, text, to_lower_case, includes_any}

-- `String(err)`, and the `status` of an error that has one.
pub record RpcError : Type 0 where
  pub message : Text
  pub status : Option ℕ

abbrev pub rate_limit_patterns : List Text
rate_limit_patterns = text "429" ∷ text "rate limit" ∷ text "too many requests" ∷ []

abbrev pub transient_patterns : List Text
transient_patterns =
    text "econnreset"
    ∷ text "etimedout"
    ∷ text "enotfound"
    ∷ text "fetch failed"
    ∷ text "socket hang up"
    ∷ text "network error"
    ∷ text "502"
    ∷ text "503"
    ∷ text "504"
    ∷ []

abbrev pub is_429 : Option ℕ → Bool
is_429 none = false
is_429 (some status) = status == 429

unfoldable pub is_rate_limit_error : RpcError → Bool
is_rate_limit_error err =
    includes_any (to_lower_case err.message) rate_limit_patterns || is_429 err.status

unfoldable pub is_transient_error : RpcError → Bool
unfolding is_rate_limit_error
is_transient_error err =
    is_rate_limit_error err || includes_any (to_lower_case err.message) transient_patterns
