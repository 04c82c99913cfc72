-- ===== src/Keeper/RpcFailover/Rules.antt =====
-- keeper/src/sui/sui-rpc-failover.ts: what an invocation keeps of the world, whatever the failover does.
use leverx.Prelude.{
  ℕ, zero, suc, ◌+◌, ◌≤◌, ◌<◌, ◌≡◌, refl, sym, subst, Option, none, some, ◌&&◌, inl, inr, arith,
}
use leverx.Prelude.Tests.{ltb, Bool-cases}
use leverx.Keeper.RpcErrors.{RpcError, is_rate_limit_error, is_transient_error}
use leverx.Keeper.RpcFailover.{
  Endpoint, primary, fallback, is_primary, Outcome, answered, failed_with, State, Failover, Invoked,
  resolved, rejected, wait_until, acquire, switch_back_at, maybe_switch_back_to_primary,
  switch_to_fallback, client_of, call_active, after_transient, conclude, invoke_loop, invoke,
}

-- Of a world that is answered, and of one that is not.
abbrev pub OnOutcome : {W A : Type 0} → (A → W → Type 0) → (W → Type 0) → Outcome A → W → Type 0
OnOutcome Q P (answered a) w = Q a w
OnOutcome Q P (failed_with err) w = P w

abbrev pub OnInvoked :
    {W A : Type 0} → (A → W → Type 0) → (W → Type 0) → Invoked A × State W → Type 0
OnInvoked Q P (resolved a, s) = Q a s.world
OnInvoked Q P (rejected err, s) = P s.world

-- P of some number of failed calls, at most so many.
abbrev pub AtMost : {W : Type 0} → ℕ → (ℕ → W → Type 0) → W → Type 0
AtMost most P w = (k : ℕ) × (k ≤ most) × P k w

module _ {W A : Type 0} (f : Failover W A) (P : ℕ → W → Type 0) (Q : A → W → Type 0)
    (sleeps : (k ms : ℕ) (w : W) → P k w → P k (f.sleep ms w))
    (calls : (endpoint : Endpoint) (k : ℕ) (w : W)
      → k < f.max_retries
      → P k w
      → OnOutcome Q (P (suc k)) (f.call endpoint w).0 (f.call endpoint w).1) where
  waited : (k due : ℕ) (w : W) → P k w → P k (wait_until f due w)
  waited k due w p = elim (Bool-cases (ltb (f.now w) due)) [
    | inl e ↦ rw e (sleeps k _ w p)
    | inr e ↦ rw e p
  ]

  acquired : (k : ℕ) (s : State W) → P k s.world → P k (acquire f s).world
  unfolding acquire
  acquired k s p = waited k _ s.world p

  same_world :
      (s : State W) (e : Endpoint) (u : Option ℕ) → (switch_back_at f s e u).world ≡ s.world
  same_world s primary u = refl
  same_world s fallback none = refl
  same_world s fallback (some until) = elim (Bool-cases (ltb (f.now s.world) until)) [
    | inl e ↦ rw e refl
    | inr e ↦ rw e refl
  ]

  back : (k : ℕ) (s : State W) → P k s.world → P k (maybe_switch_back_to_primary f s).world
  unfolding maybe_switch_back_to_primary
  back k s p = subst (P k) (sym (same_world s s.active s.fallback_until_ms)) p

  after :
      (k attempt : ℕ) (err : RpcError) (s : State W)
      → P k s.world
      → P k (after_transient f attempt err s).world
  unfolding after_transient switch_to_fallback
  after k attempt err s p =
      elim (Bool-cases (is_primary s.active && (f.has_fallback && is_rate_limit_error err))) [
        | inl e ↦ rw e (elim (Bool-cases f.has_fallback) [ inl h ↦ rw h p | inr h ↦ rw h p ])
        | inr e ↦ rw e (sleeps k _ s.world p)
      ]

  called :
      (k : ℕ) (s : State W)
      → k < f.max_retries
      → P k s.world
      → OnOutcome Q (P (suc k)) (call_active f s).0 (call_active f s).1.world
  unfolding call_active
  called k s h p =
      let s' = maybe_switch_back_to_primary f s in
      calls (client_of f s'.active) k s'.world h (back k s p)

  concluded :
      (k : ℕ) (again : RpcError → State W → Invoked A × State W) (r : Outcome A × State W)
      → k ≤ f.max_retries
      → ((err : RpcError) (s : State W)
          → P k s.world
          → OnInvoked Q (AtMost f.max_retries P) (again err s))
      → OnOutcome Q (P k) r.0 r.1.world
      → OnInvoked Q (AtMost f.max_retries P) (conclude f again r)
  unfolding conclude
  concluded k again (answered a, s) h more q = q
  concluded k again (failed_with err, s) h more q = elim (Bool-cases (is_transient_error err)) [
    | inl e ↦ rw e (more err s q)
    | inr e ↦ rw e (k, h, q)
  ]

  loop :
      (left attempt : ℕ) (last : Option RpcError) (s : State W)
      → attempt + left ≡ f.max_retries
      → P attempt s.world
      → OnInvoked Q (AtMost f.max_retries P) (invoke_loop f left attempt last s)
  unfolding invoke_loop
  loop zero attempt last s e p = (attempt, omega (arith, e), p)
  loop (suc left) attempt last s e p =
      let next : suc attempt ≡ attempt + 1 = omega arith in
      concluded (suc attempt) _ _ (omega (arith, e))
        (λ err s' q.
          let s'' = after_transient f attempt err s' in
          loop left (attempt + 1) (some err) s'' (omega (arith, e))
            (subst (λ k. P k s''.world) next (after (suc attempt) attempt err s' q)))
        (called attempt _ (omega (arith, e)) (back attempt _ (acquired attempt s p)))

  -- Let P hold of the number of failed calls and the world, whatever is slept, and let an answered call
  -- leave Q of its answer. Then an invocation from P of 0 resolves with Q of its answer, or rejects with P
  -- of a number that is at most that of the retries.
  pub invoke_rule : (s : State W) → P 0 s.world → OnInvoked Q (AtMost f.max_retries P) (invoke f s)
  unfolding invoke
  invoke_rule s p = loop f.max_retries 0 none s (omega arith) p
