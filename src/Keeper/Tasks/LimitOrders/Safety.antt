-- ===== src/Keeper/Tasks/LimitOrders/Safety.antt =====
-- keeper/src/tasks/limit-order.service.ts: what a run submits and reports.
use Prim.Native.String.{String}
use leverx.Prelude.{
  ℕ, ◌+◌, ◌*◌, ◌≤◌, ◌<◌, ◌≡◌, refl, Bool, Option, none, some, List, [], ◌∷◌, ◌++◌, arith,
}
use leverx.Prelude.Tests.{if◌then◌else◌}
use leverx.Prelude.Lists.{take}
use leverx.Keeper.Types.{Text, limit_order, LimitMintOrder, TaskResult, KeeperConfig}
use leverx.Keeper.Effects.{Event, Session}
use leverx.Keeper.Effects.Rules.{
  Post, Ensures, bind_rule, return_rule, reading_rule, weaken_rule, branch_rule, assume_rule,
}
use leverx.Keeper.Sui.Guard.{Confirms, Confirms-Extends, Extends, IsGuarded, confirmations}
use leverx.Keeper.Indexer.Pages.{fetch_all_pages_rule}
use leverx.Keeper.Tasks.{Services, not_configured}
use leverx.Keeper.Tasks.Submit.{no_gain, recount, pushed_digests}
use leverx.Keeper.Tasks.Results.{reported_digests, gained, push, successes, successes-push}
use leverx.Keeper.Tasks.LimitOrders.{fill_loop, expire_loop, run_fills, run, fills}
use leverx.Keeper.Tasks.LimitOrders.Attempts.{
  fills_in, FillAttempt, ExpireAttempt, try_fill_rule, try_expire_rule,
}

fills-append : (xs ys : List TaskResult) → fills (xs ++ ys) ≡ fills xs + fills ys
fills-append [] ys = omega arith
fills-append (x ∷ xs) ys = omega (arith, fills-append xs ys)

fills-push :
    (rs : List TaskResult) (o : Option TaskResult) → fills (push rs o) ≡ fills rs + fills_in o
fills-push rs none = omega arith
fills-push rs (some r) = omega (arith, fills-append rs (r ∷ []))

gained-le-one : (o : Option TaskResult) → gained o ≤ 1
gained-le-one none = omega arith
gained-le-one (some r) = ground arith

-- Results of fills only, at most `limit` of them successful, whose digests are those confirmed after `ds`.
record Filled (ds : List Text) (limit : ℕ) (rs : List TaskResult) (l : List Event) : Type 0 where
  counts : Confirms (ds ++ reported_digests rs) l
  all_fills : fills rs ≡ successes rs
  bounded : successes rs ≤ limit

-- The results of a run: fills and expiries, at most `limit` of each.
pub record Reported (ds : List Text) (limit : ℕ) (rs : List TaskResult) (l : List Event)
    : Type 0 where
  pub counts : Confirms (ds ++ reported_digests rs) l
  pub fills_bounded : fills rs ≤ limit
  pub expiries_bounded : successes rs ≤ fills rs + limit

module _ {W : Type 0} (sv : Services W) (cfg : KeeperConfig) (ds : List Text) (limit : ℕ) where
  fill_loop_rule :
      (now : ℕ) (orders : List LimitMintOrder) (results : List TaskResult)
      → Ensures
          (Filled ds limit results)
          (fill_loop sv cfg limit now orders results)
          (Filled ds limit)
          (λ l. ⊥)
  unfolding fill_loop
  fill_loop_rule now [] results = return_rule _ λ l p. p
  fill_loop_rule now (o ∷ orders) results =
      branch_rule _ (λ e. return_rule _ λ l p. p)
        λ e.
          bind_rule (λ r. Filled ds limit (push results r))
            (assume_rule (λ l p. pure_of results l p)
              λ (same, below).
                weaken_rule (λ l p. p.counts) (λ r l a. pushed results r l same (ground arith) a)
                  (λ l p. p) (try_fill_rule sv cfg (ds ++ reported_digests results) now o))
            λ r. fill_loop_rule now orders (push results r)
    where
      pure_of :
          (rs : List TaskResult) (l : List Event)
          → Filled ds limit rs l
          → (fills rs ≡ successes rs) × (successes rs ≤ limit)
      pure_of rs l p = (p.all_fills, p.bounded)

      pushed :
          (rs : List TaskResult) (r : Option TaskResult) (l : List Event)
          → fills rs ≡ successes rs
          → successes rs < limit
          → FillAttempt (ds ++ reported_digests rs) r l
          → Filled ds limit (push rs r) l
      pushed rs r l same below a = record {
        counts = recount l (pushed_digests ds rs r) a.counts;
        all_fills = omega (arith, same, a.as_fill, successes-push rs r, fills-push rs r);
        bounded = omega (arith, below, gained-le-one r, successes-push rs r);
      }

  -- `count` expiries have succeeded since the fills.
  record Expiring (count : ℕ) (rs : List TaskResult) (l : List Event) : Type 0 where
    counts : Confirms (ds ++ reported_digests rs) l
    fills_bounded : fills rs ≤ limit
    expiries : successes rs ≡ fills rs + count
    below : count ≤ limit

  reported :
      (count : ℕ) (rs : List TaskResult) (l : List Event)
      → Expiring count rs l
      → Reported ds limit rs l
  reported count rs l p = record {
    counts = p.counts;
    fills_bounded = p.fills_bounded;
    expiries_bounded = omega (arith, p.expiries, p.below);
  }

  expire_loop_rule :
      (count : ℕ) (orders : List LimitMintOrder) (results : List TaskResult)
      → Ensures
          (Expiring count results)
          (expire_loop sv cfg limit count orders results)
          (Reported ds limit)
          (λ l. ⊥)
  unfolding expire_loop
  expire_loop_rule count [] results = return_rule _ λ l p. reported count results l p
  expire_loop_rule count (o ∷ orders) results =
      branch_rule _ (λ e. return_rule _ λ l p. reported count results l p)
        λ e.
          bind_rule (λ r. Expiring (if r.success then count + 1 else count) (results ++ (r ∷ [])))
            (assume_rule (λ l p. pure_of results l p)
              λ facts.
                weaken_rule (λ l p. p.counts) (λ r l a. expired results r l facts (ground arith) a)
                  (λ l p. p) (try_expire_rule sv cfg (ds ++ reported_digests results) o))
            λ r.
              expire_loop_rule (if r.success then count + 1 else count) orders (results ++ (r ∷ []))
    where
      pure_of :
          (rs : List TaskResult) (l : List Event)
          → Expiring count rs l
          → (fills rs ≤ limit) × (successes rs ≡ fills rs + count)
      pure_of rs l p = (p.fills_bounded, p.expiries)

      expired :
          (rs : List TaskResult) (r : TaskResult) (l : List Event)
          → (fills rs ≤ limit) × (successes rs ≡ fills rs + count)
          → count < limit
          → ExpireAttempt (ds ++ reported_digests rs) r l
          → Expiring (if r.success then count + 1 else count) (rs ++ (r ∷ [])) l
      expired rs r l (few, same) below a = record {
        counts = recount l (pushed_digests ds rs (some r)) a.counts;
        fills_bounded = omega (arith, few, a.as_expiry, fills-push rs (some r));
        expiries =
            ground (arith, same, a.as_expiry, successes-push rs (some r), fills-push rs (some r));
        below = ground (arith, below);
      }

  run_fills_rule :
      (allowed : Bool) (now : ℕ)
      → Ensures (Confirms ds) (run_fills sv cfg limit allowed now) (Filled ds limit) (Confirms ds)
  unfolding run_fills
  run_fills_rule allowed now =
      branch_rule allowed
        (λ e.
          bind_rule (λ _. Confirms ds) (fetch_all_pages_rule _ (Confirms ds) _ _)
            λ orders.
              weaken_rule (λ l p. none_yet l p) (λ rs l p. p) (λ l p. absurd p)
                (fill_loop_rule now (take (limit * 3) orders) []))
        λ e. return_rule _ λ l p. none_yet l p
    where
      none_yet : (l : List Event) → Confirms ds l → Filled ds limit [] l
      none_yet l p = record { counts = no_gain ds l p; all_fills = refl; bounded = omega arith }

module _ {W : Type 0} (sv : Services W) (ds : List Text) (limit : ℕ) where
  pub run_rule :
      (allow_fills : Bool)
      → Ensures (Confirms ds) (run sv limit allow_fills) (Reported ds limit) (Extends ds)
  unfolding run
  run_rule allow_fills = reading_rule _ λ cfg. reading_rule _ λ readiness.
      branch_rule _ (λ e. return_rule _ λ l p. nothing_done readiness.missing l p)
        λ e. reading_rule _ λ now.
          bind_rule (Filled ds limit)
            (weaken_rule (λ l p. p) (λ rs l p. p) (λ l p. Confirms-Extends ds [] l (no_gain ds l p))
              (run_fills_rule sv cfg ds limit _ now))
            λ results.
              bind_rule (λ _. Filled ds limit results)
                (weaken_rule (λ l p. p) (λ rs l p. p) (λ l p. Confirms-Extends ds _ l p.counts)
                  (fetch_all_pages_rule _ (Filled ds limit results) _ _))
                λ expired.
                  weaken_rule (λ l p. from_fills cfg results l p) (λ rs l p. p) (λ l p. absurd p)
                    (expire_loop_rule sv cfg ds limit 0 expired results)
    where
      nothing_done :
          (missing : List String) (l : List Event)
          → Confirms ds l
          → Reported ds limit (not_configured limit_order missing) l
      nothing_done missing l p = record {
        counts = no_gain ds l p;
        fills_bounded = omega arith;
        expiries_bounded = omega arith;
      }

      from_fills :
          (cfg : KeeperConfig) (rs : List TaskResult) (l : List Event)
          → Filled ds limit rs l
          → Expiring sv cfg ds limit 0 rs l
      from_fills cfg rs l p = record {
        counts = p.counts;
        fills_bounded = omega (arith, p.all_fills, p.bounded);
        expiries = omega (arith, p.all_fills);
        below = omega arith;
      }

module _ {W : Type 0} (sv : Services W) where
  -- A run of the limit-order task from a guarded log keeps it guarded: each submission follows a successful
  -- simulation of the same transaction, with nothing between the two but unconfirmed attempts to submit it.
  -- If the run resolves, the digests that the node confirmed since its start are exactly those of its
  -- successful results, in their order; at most `limit` of these are fills and at most `limit` expiries.
  -- If it rejects, the confirmed digests from before are still there.
  pub run-Reported :
      (limit : ℕ) (allow_fills : Bool) (s : Session W)
      → IsGuarded s.log
      → Post
          (Reported (confirmations s.log) limit)
          (Extends (confirmations s.log))
          (run sv limit allow_fills s)
  run-Reported limit allow_fills s guarded =
      (run_rule sv (confirmations s.log) limit allow_fills).holds s
        (record { guarded = guarded; digests = refl })
