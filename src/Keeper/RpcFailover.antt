-- ===== src/Keeper/RpcFailover.antt =====
-- keeper/src/sui/sui-rpc-failover.ts: calls of an RPC node with retries, a rate limiter and a fallback.
pub mod Rules
pub mod Discipline
pub mod Tests
use leverx.Prelude.{
  ℕ, zero, suc, ◌+◌, ◌-◌, ◌*◌, ◌^◌, Bool, true, false, not, ◌&&◌, Option, none, some, List, [], ◌∷◌,
  min,
}
use leverx.Prelude.Tests.{ltb, if◌then◌else◌}
use leverx.Keeper.RpcErrors.{RpcError, is_rate_limit_error, is_transient_error}

pub data Endpoint : Type 0 where
  primary fallback : Endpoint

pub data Outcome (A : Type 0) : Type 0 where
  answered : A → Outcome A
  failed_with : RpcError → Outcome A

-- A call that was made, for the theorems: the endpoint, the time, and until when the fallback lasts.
pub record Call : Type 0 where
  pub endpoint : Endpoint
  pub at_ms : ℕ
  pub until_ms : Option ℕ

pub record State (W : Type 0) : Type 0 where
  pub active : Endpoint
  pub fallback_until_ms : Option ℕ
  pub last_call_ms : ℕ
  pub world : W
  pub calls : List Call

-- The settings, the clock, `setTimeout` and the call itself. Retry counts and times are naturals.
pub record Failover (W A : Type 0) : Type 0 where
  pub has_fallback : Bool
  pub rest_ms : ℕ
  pub min_interval_ms : ℕ
  pub max_retries : ℕ
  pub retry_base_ms : ℕ
  pub retry_max_ms : ℕ
  pub now : W → ℕ
  pub sleep : ℕ → W → W
  pub call : Endpoint → W → Outcome A × W

abbrev pub is_primary : Endpoint → Bool
is_primary primary = true
is_primary fallback = false

-- `lastErr` is undefined if there was no attempt.
pub data Invoked (A : Type 0) : Type 0 where
  resolved : A → Invoked A
  rejected : Option RpcError → Invoked A

module _ {W A : Type 0} (f : Failover W A) where
  -- `if (wait > 0) await sleep(wait)`, where the wait may be negative
  abbrev pub wait_until : ℕ → W → W
  wait_until due w = if ltb (f.now w) due then f.sleep (due - f.now w) w else w

  unfoldable pub acquire : State W → State W
  acquire s =
      let w = wait_until (s.last_call_ms + f.min_interval_ms) s.world in
      record s { world = w; last_call_ms = f.now w }

  abbrev pub switch_back_at : State W → Endpoint → Option ℕ → State W
  switch_back_at s primary until = s
  switch_back_at s fallback none = s
  switch_back_at s fallback (some until) =
      if ltb (f.now s.world) until
      then s
      else record s { active = primary; fallback_until_ms = none }

  unfoldable pub maybe_switch_back_to_primary : State W → State W
  maybe_switch_back_to_primary s = switch_back_at s s.active s.fallback_until_ms

  unfoldable pub switch_to_fallback : State W → State W
  switch_to_fallback s =
      if f.has_fallback
      then record s { active = fallback; fallback_until_ms = some (f.now s.world + f.rest_ms) }
      else s

  abbrev pub client_of : Endpoint → Endpoint
  client_of primary = primary
  client_of fallback = if f.has_fallback then fallback else primary

  -- `getActiveClient`, and the call of that client.
  unfoldable pub call_active : State W → Outcome A × State W
  unfolding maybe_switch_back_to_primary
  call_active s =
      let s' = maybe_switch_back_to_primary s in
      let client = client_of s'.active in
      let (outcome, w) = f.call client s'.world in
      (
        outcome,
        record s' {
          world = w;
          calls =
              record { endpoint = client; at_ms = f.now s'.world; until_ms = s'.fallback_until_ms }
              ∷ s'.calls;
        },
      )

  -- What follows a transient error: the switch to the fallback, or the backoff.
  unfoldable pub after_transient : ℕ → RpcError → State W → State W
  unfolding switch_to_fallback
  after_transient attempt err s =
      if is_primary s.active && (f.has_fallback && is_rate_limit_error err)
      then switch_to_fallback s
      else record s { world = f.sleep (min (f.retry_base_ms * 2 ^ attempt) f.retry_max_ms) s.world }

  abbrev pub retry_if :
      Bool → RpcError → (RpcError → State W → Invoked A × State W) → State W → Invoked A × State W
  retry_if false err again s = (rejected (some err), s)
  retry_if true err again s = again err s

  -- An attempt's outcome: the answer, an error to throw, or another attempt.
  unfoldable pub conclude :
      (RpcError → State W → Invoked A × State W) → Outcome A × State W → Invoked A × State W
  conclude again (answered a, s) = (resolved a, s)
  conclude again (failed_with err, s) = retry_if (is_transient_error err) err again s

  -- The `for` loop with the attempts that are left.
  unfoldable pub invoke_loop : ℕ → ℕ → Option RpcError → State W → Invoked A × State W
  unfolding conclude
  invoke_loop zero attempt last_err s = (rejected last_err, s)
  invoke_loop (suc left) attempt last_err s =
      conclude
        (λ err s'. invoke_loop left (attempt + 1) (some err) (after_transient attempt err s'))
        (call_active (maybe_switch_back_to_primary (acquire s)))

  unfoldable pub invoke : State W → Invoked A × State W
  unfolding invoke_loop
  invoke s = invoke_loop f.max_retries 0 none s
