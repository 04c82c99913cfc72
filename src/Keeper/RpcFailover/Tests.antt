-- ===== src/Keeper/RpcFailover/Tests.antt =====
-- keeper/src/sui/sui-rpc-failover.ts at concrete inputs.
use leverx.Prelude.{ℕ, ◌+◌, ◌≡◌, refl, true, none, [], ◌∷◌}
use leverx.Keeper.RpcErrors.{RpcError, is_rate_limit_error}
use leverx.Keeper.RpcFailover.{
  Endpoint, primary, fallback, Outcome, answered, failed_with, State, Failover, invoke,
}
use leverx.Keeper.RpcFailover.Discipline.{Concludes, invoke-Concludes}

-- `HTTP 429`
abbrev rate_limited : RpcError
rate_limited = record {
  message = b'H' ∷ b'T' ∷ b'T' ∷ b'P' ∷ 32 ∷ b'4' ∷ b'2' ∷ b'9' ∷ [];
  status = none;
}

is_rate_limit_error_run : is_rate_limit_error rate_limited ≡ true
unfolding is_rate_limit_error
is_rate_limit_error_run = refl

-- The primary node is rate limited, and the fallback answers 7.
abbrev answer : Endpoint → ℕ → Outcome ℕ × ℕ
answer primary t = (failed_with rate_limited, t + 10)
answer fallback t = (answered 7, t + 10)

abbrev limited : Failover ℕ ℕ
limited = record {
  has_fallback = true;
  rest_ms = 60_000;
  min_interval_ms = 250;
  max_retries = 6;
  retry_base_ms = 300;
  retry_max_ms = 8_000;
  now = λ t. t;
  sleep = λ ms t. t + ms;
  call = answer;
}

abbrev fresh : State ℕ
fresh = record {
  active = primary;
  fallback_until_ms = none;
  last_call_ms = 0;
  world = 1_000;
  calls = [];
}

invoke-Concludes_example : Concludes limited 6 (invoke limited fresh)
invoke-Concludes_example = invoke-Concludes limited fresh (record { timed = tt; proper = tt })
