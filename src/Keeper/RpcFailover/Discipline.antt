-- ===== src/Keeper/RpcFailover/Discipline.antt =====
-- keeper/src/sui/sui-rpc-failover.ts: how often and where a call is made.
use leverx.Prelude.{
  ℕ, zero, suc, ◌+◌, ◌≤◌, ◌<◌, ◌≡◌, refl, ap, ◌⊎◌, inl, inr, Bool, true, false, ◌&&◌, Option, none,
  some, List, arith,
}
use leverx.Prelude.Tests.{ltb, Bool-cases}
use leverx.Prelude.Lists.{All, length}
use leverx.Keeper.RpcErrors.{RpcError, is_rate_limit_error, is_transient_error}
use leverx.Keeper.RpcFailover.{
  Endpoint, primary, fallback, Outcome, answered, failed_with, Call, State, Failover, Invoked,
  resolved, rejected, acquire, maybe_switch_back_to_primary, switch_to_fallback, client_of,
  call_active, after_transient, conclude, invoke_loop, invoke, is_primary,
}

abbrev pub Before : ℕ → Option ℕ → Type 0
Before t none = ⊥
Before t (some until) = t < until

-- A call of the fallback is made only where there is one and while its rest lasts.
abbrev pub IsProper : Bool → Call → Type 0
IsProper has_fallback c = Where c.endpoint
  where
    Where : Endpoint → Type 0
    Where primary = Unit
    Where fallback = (has_fallback ≡ true) × Before c.at_ms c.until_ms

-- The fallback is active with an end of its rest, or the primary without.
abbrev Timed : Bool → Endpoint → Option ℕ → Type 0
Timed b primary none = Unit
Timed b primary (some t) = ⊥
Timed b fallback none = ⊥
Timed b fallback (some t) = b ≡ true

-- The rest of an active fallback has not ended.
abbrev Resting : ℕ → Endpoint → Option ℕ → Type 0
Resting now primary o = Unit
Resting now fallback o = Before now o

module _ {W A : Type 0} (f : Failover W A) where
  pub record IsDisciplined (s : State W) : Type 0 where
    pub timed : Timed f.has_fallback s.active s.fallback_until_ms
    pub proper : All (IsProper f.has_fallback) s.calls

  acquire-IsDisciplined : (s : State W) → IsDisciplined s → IsDisciplined (acquire f s)
  unfolding acquire
  acquire-IsDisciplined s d = record { timed = d.timed; proper = d.proper }

  acquired : (s : State W) → length (acquire f s).calls ≡ length s.calls
  unfolding acquire
  acquired s = refl

  -- After the switch back, an active fallback is at rest; no call was made.
  record IsReady (n : ℕ) (s : State W) : Type 0 where
    disciplined : IsDisciplined s
    resting : Resting (f.now s.world) s.active s.fallback_until_ms
    count : length s.calls ≡ n

  back_at :
      (e : Endpoint) (o : Option ℕ) (last : ℕ) (w : W) (cs : List Call)
      → let s : State W = record {
        active = e;
        fallback_until_ms = o;
        last_call_ms = last;
        world = w;
        calls = cs;
      } in
        IsDisciplined s → IsReady (length cs) (maybe_switch_back_to_primary f s)
  unfolding maybe_switch_back_to_primary
  back_at primary none last w cs d = record { disciplined = d; resting = tt; count = refl }
  back_at primary (some t) last w cs d = absurd d.timed
  back_at fallback none last w cs d = absurd d.timed
  back_at fallback (some t) last w cs d = elim (Bool-cases (ltb (f.now w) t)) [
    | inl e ↦ rw e (record { disciplined = d; resting = ground arith; count = refl })
    | inr e ↦ rw e (record {
      disciplined = record { timed = tt; proper = d.proper };
      resting = tt;
      count = refl;
    })
  ]

  back-IsReady :
      (s : State W) → IsDisciplined s → IsReady (length s.calls) (maybe_switch_back_to_primary f s)
  back-IsReady s d = back_at s.active s.fallback_until_ms s.last_call_ms s.world s.calls d

  IsProper-call :
      (e : Endpoint) (o : Option ℕ) (t : ℕ)
      → Timed f.has_fallback e o
      → Resting t e o
      → IsProper f.has_fallback (record { endpoint = client_of f e; at_ms = t; until_ms = o })
  IsProper-call primary o t timed resting = tt
  IsProper-call fallback none t timed resting = absurd timed
  IsProper-call fallback (some u) t timed resting = rw timed (refl, resting)

  -- A call is proper and counts one.
  call-IsDisciplined :
      (s : State W)
      → IsDisciplined s
      → IsDisciplined (call_active f s).1
        × (length (call_active f s).1.calls ≡ suc (length s.calls))
  unfolding call_active
  call-IsDisciplined s d =
      let r = back-IsReady s d in
      let back = maybe_switch_back_to_primary f s in
      (
        record {
          timed = r.disciplined.timed;
          proper = (
            IsProper-call back.active back.fallback_until_ms (f.now back.world) r.disciplined.timed
                r.resting,
            r.disciplined.proper,
          );
        },
        ap suc r.count,
      )

  switch-IsDisciplined :
      (s : State W)
      → IsDisciplined s
      → IsDisciplined (switch_to_fallback f s)
        × (length (switch_to_fallback f s).calls ≡ length s.calls)
  unfolding switch_to_fallback
  switch-IsDisciplined s d = elim (Bool-cases f.has_fallback) [
    | inl e ↦ simp e (record { timed = e; proper = d.proper }, refl)
    | inr e ↦ simp e (d, refl)
  ]

  after-IsDisciplined :
      (attempt : ℕ) (err : RpcError) (s : State W)
      → IsDisciplined s
      → IsDisciplined (after_transient f attempt err s)
        × (length (after_transient f attempt err s).calls ≡ length s.calls)
  unfolding after_transient
  after-IsDisciplined attempt err s d =
      elim (Bool-cases (is_primary s.active && (f.has_fallback && is_rate_limit_error err))) [
        | inl e ↦ simp e (switch-IsDisciplined s d)
        | inr e ↦ simp e (record { timed = d.timed; proper = d.proper }, refl)
      ]

  -- Some call came to this.
  abbrev pub Came : Outcome A → Type 0
  Came outcome = (e : Endpoint) × (w : W) × ((f.call e w).0 ≡ outcome)

  abbrev CameLast : Option RpcError → Type 0
  CameLast none = Unit
  CameLast (some err) = Came (failed_with err)

  -- What an invocation comes to that may make calls until there are `most`: an answer or an error that
  -- a call came to, and an error only if it is not transient or all the calls were made.
  abbrev pub Concludes : ℕ → Invoked A × State W → Type 0
  Concludes most (resolved a, s) = IsDisciplined s × (length s.calls ≤ most) × Came (answered a)
  Concludes most (rejected none, s) = IsDisciplined s × (length s.calls ≡ most)
  Concludes most (rejected (some err), s) =
      IsDisciplined s
      × (length s.calls ≤ most)
      × Came (failed_with err)
      × ((is_transient_error err ≡ false) ⊎ (length s.calls ≡ most))

  exhausted :
      (most : ℕ) (last : Option RpcError) (s : State W)
      → IsDisciplined s
      → CameLast last
      → length s.calls ≡ most
      → Concludes most (rejected last, s)
  exhausted most none s d c e = (d, e)
  exhausted most (some err) s d c e = (d, omega (arith, e), c, inr e)

  call-Came : (s : State W) → Came (call_active f s).0
  unfolding call_active
  call-Came s = (_, _, refl)

  conclude-Concludes :
      (left most : ℕ) (again : RpcError → State W → Invoked A × State W)
      → ((err : RpcError) (s : State W)
          → IsDisciplined s
          → Came (failed_with err)
          → length s.calls + left ≡ most
          → Concludes most (again err s))
      → (r : Outcome A × State W) → IsDisciplined r.1
      → Came r.0
      → length r.1.calls + left ≡ most
      → Concludes most (conclude f again r)
  unfolding conclude
  conclude-Concludes left most again h (answered a, s) d came e = (d, omega (arith, e), came)
  conclude-Concludes left most again h (failed_with err, s) d came e =
      elim (Bool-cases (is_transient_error err)) [
        | inl t ↦ rw (t, Concludes) (h err s d came e)
        | inr t ↦ rw (t, Concludes) (d, omega (arith, e), came, inl t)
      ]

  loop-Concludes :
      (left attempt most : ℕ) (last : Option RpcError) (s : State W)
      → IsDisciplined s
      → CameLast last
      → length s.calls + left ≡ most
      → Concludes most (invoke_loop f left attempt last s)
  unfolding invoke_loop
  loop-Concludes zero attempt most last s d c e = exhausted most last s d c (omega (arith, e))
  loop-Concludes (suc left) attempt most last s d c e =
      let r = back-IsReady (acquire f s) (acquire-IsDisciplined s d) in
      let called =
        call-IsDisciplined (maybe_switch_back_to_primary f (acquire f s)) r.disciplined in
      conclude-Concludes left most _
        (λ err s' d' came e'.
          let after = after-IsDisciplined attempt err s' d' in
          loop-Concludes left (attempt + 1) most (some err) (after_transient f attempt err s')
            after.0 came (omega (arith, e', after.1)))
        (call_active f (maybe_switch_back_to_primary f (acquire f s))) called.0
        (call-Came (maybe_switch_back_to_primary f (acquire f s)))
        (omega (arith, called.1, r.count, e, acquired s))

  -- From a disciplined state an invocation ends after at most `max_retries` calls and leaves a disciplined
  -- state: the fallback was called only where there is one and before the end of its rest. The
  -- invocation resolves with an answer that a call gave, or rejects with an error that a call gave; it
  -- rejects with a transient error only after `max_retries` calls.
  pub invoke-Concludes :
      (s : State W) → IsDisciplined s → Concludes (length s.calls + f.max_retries) (invoke f s)
  unfolding invoke
  invoke-Concludes s d =
      loop-Concludes f.max_retries 0 (length s.calls + f.max_retries) none s d tt refl
