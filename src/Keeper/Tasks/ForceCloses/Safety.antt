-- ===== src/Keeper/Tasks/ForceCloses/Safety.antt =====
-- keeper/src/tasks/force-close.service.ts: what a run submits and reports.
use leverx.Prelude.{
  ℕ, zero, suc, ◌+◌, ◌≡◌, refl, true, false, Bool, Option, none, some, List, [], ◌∷◌, ◌++◌, arith,
}
use leverx.Prelude.Tests.{if◌then◌else◌}
use leverx.Keeper.Types.{Text, KeeperConfig, LeveragedPosition, TaskResult}
use leverx.Keeper.Ptb.{Transaction, Built}
use leverx.Keeper.Effects.{Event, M, Session}
use leverx.Keeper.Effects.Rules.{
  Post, Ensures, bind_rule, catch_rule, outside_rule, return_rule, reading_rule, weaken_rule,
  branch_rule, assume_rule,
}
use leverx.Keeper.Sui.Guard.{
  Confirms, Confirms-Extends, Extends, IsGuarded, confirmations, transaction_rule,
  try_dev_inspect_rule,
}
use leverx.Keeper.Indexer.Pages.{fetch_all_pages_rule}
use leverx.Keeper.Tasks.{Services}
use leverx.Keeper.Tasks.Submit.{
  execute_if_ok_rule, no_gain, recount, pushed_digests, Accounted, none-Accounted,
}
use leverx.Keeper.Tasks.Results.{reported_digests, gained_digests, successes, successes-push}
use leverx.Keeper.Tasks.Liquidations.Safety.{is_liquidatable_rule}
use leverx.Keeper.Tasks.ForceCloses.{
  is_oracle_settled, submit_close, deleverage_unless_liquidatable, unless_settled,
  try_force_deleverage, try_force_repay_post_expiry, close_loop, close_expired, run_force_closes,
}

abbrev Gains : List Text → TaskResult → List Event → Type 0
Gains ds r = Confirms (ds ++ gained_digests (some r))

module _ {W : Type 0} (sv : Services W) (ds : List Text) where
  settled_rule :
      (oracle : Text)
      → Ensures (Confirms ds) (is_oracle_settled sv oracle) (λ _. Confirms ds) (Confirms ds)
  unfolding is_oracle_settled
  settled_rule oracle =
      catch_rule (Confirms ds) (outside_rule _ (λ l p a. p) (λ l p. p)) λ e. return_rule _ λ l p. p

  submit_rule :
      (position : LeveragedPosition) (b : Built Transaction)
      → Ensures (Confirms ds) (submit_close sv position b) (Gains ds) (Confirms ds)
  unfolding submit_close
  submit_rule position b =
      bind_rule (λ _. Confirms ds) (transaction_rule sv.sui ds b)
        λ tx. bind_rule _ (try_dev_inspect_rule sv.sui ds tx) λ sim.
          execute_if_ok_rule sv.sui ds tx sim (λ e. return_rule _ λ l p. no_gain ds l p) λ d l p. p

  deleverage_rule :
      (cfg : KeeperConfig) (position : LeveragedPosition) (liquidatable : Option Bool)
      → Ensures
          (Confirms ds)
          (deleverage_unless_liquidatable sv cfg position liquidatable)
          (Gains ds)
          (Confirms ds)
  unfolding deleverage_unless_liquidatable
  deleverage_rule cfg position (some true) = return_rule _ λ l p. no_gain ds l p
  deleverage_rule cfg position (some false) = submit_rule position _
  deleverage_rule cfg position none = submit_rule position _

  unless_settled_rule :
      (position : LeveragedPosition) {m : M W TaskResult} (settled : Option Bool)
      → Ensures (Confirms ds) m (Gains ds) (Confirms ds)
      → Ensures (Confirms ds) (unless_settled sv position m settled) (Gains ds) (Confirms ds)
  unfolding unless_settled
  unless_settled_rule position none h = return_rule _ λ l p. no_gain ds l p
  unless_settled_rule position (some true) h = return_rule _ λ l p. no_gain ds l p
  unless_settled_rule position (some false) h = h

  -- One attempt never rejects, and gains exactly what it confirms.
  try_force_deleverage_rule :
      (now : ℕ) (position : LeveragedPosition)
      → Ensures (Confirms ds) (try_force_deleverage sv position now) (Gains ds) (λ l. ⊥)
  unfolding try_force_deleverage
  try_force_deleverage_rule now position = reading_rule _ λ cfg.
      catch_rule (Confirms ds)
        (reading_rule _ λ window.
          branch_rule _ (λ e. return_rule _ λ l p. no_gain ds l p)
            λ e.
              bind_rule (λ _. Confirms ds) (settled_rule position.oracle_id)
                λ settled. unless_settled_rule position settled (
                  bind_rule (λ _. Confirms ds) (is_liquidatable_rule sv ds position)
                    λ b. deleverage_rule cfg position b))
        λ e. return_rule _ λ l p. no_gain ds l p

  try_force_repay_rule :
      (position : LeveragedPosition)
      → Ensures (Confirms ds) (try_force_repay_post_expiry sv position) (Gains ds) (λ l. ⊥)
  unfolding try_force_repay_post_expiry
  try_force_repay_rule position = reading_rule _ λ cfg.
      catch_rule (Confirms ds)
        (bind_rule (λ _. Confirms ds) (settled_rule position.oracle_id)
          λ settled. unless_settled_rule position settled (submit_rule position _))
        λ e. return_rule _ λ l p. no_gain ds l p

-- What is left of the limit is what the successes have not used.
record Remaining (ds : List Text) (limit remaining : ℕ) (rs : List TaskResult) (l : List Event)
    : Type 0 where
  counts : Confirms (ds ++ reported_digests rs) l
  left : successes rs + remaining ≡ limit

accounted :
    (ds : List Text) (limit remaining : ℕ) (rs : List TaskResult) (l : List Event)
    → Remaining ds limit remaining rs l
    → Accounted ds limit rs l
accounted ds limit remaining rs l p = record { counts = p.counts; bounded = omega (arith, p.left) }

module _ {W : Type 0} (attempt : LeveragedPosition → M W TaskResult)
    (attempt_gains : (ds : List Text) (position : LeveragedPosition)
      → Ensures (Confirms ds) (attempt position) (Gains ds) (λ l. ⊥))
    (ds : List Text) (limit : ℕ) where
  loop_rule :
      (remaining : ℕ) (positions : List LeveragedPosition) (results : List TaskResult)
      → Ensures
          (Remaining ds limit remaining results)
          (close_loop attempt remaining positions results)
          (λ a. Remaining ds limit a.0 a.1)
          (λ l. ⊥)
  unfolding close_loop
  loop_rule remaining [] results = return_rule _ λ l p. p
  loop_rule zero (p ∷ ps) results = return_rule _ λ l p. p
  loop_rule (suc remaining) (p ∷ ps) results =
      bind_rule
        (λ r.
          Remaining ds limit (if r.success then remaining else suc remaining) (results ++ (r ∷ [])))
        (assume_rule (λ l p. p.left)
          λ left.
            weaken_rule (λ l p. p.counts) (λ r l p. pushed r l left p) (λ l p. p)
              (attempt_gains (ds ++ reported_digests results) p))
        λ r. loop_rule (if r.success then remaining else suc remaining) ps (results ++ (r ∷ []))
    where
      pushed :
          (r : TaskResult) (l : List Event)
          → successes results + suc remaining ≡ limit
          → Gains (ds ++ reported_digests results) r l
          → Remaining ds limit
              (if r.success then remaining else suc remaining)
              (results ++ (r ∷ []))
              l
      pushed r l left p = record {
        counts = recount l (pushed_digests ds results (some r)) p;
        left = ground (arith, left, successes-push results (some r));
      }

module _ {W : Type 0} (sv : Services W) (ds : List Text) (limit : ℕ) where
  close_expired_rule :
      (now remaining : ℕ) (results : List TaskResult)
      → Ensures
          (Remaining ds limit remaining results)
          (close_expired sv now remaining results)
          (Accounted ds limit)
          (Extends ds)
  unfolding close_expired
  close_expired_rule now zero results = return_rule _ λ l p. accounted ds limit 0 results l p
  close_expired_rule now (suc remaining) results =
      bind_rule (λ _. Remaining ds limit (suc remaining) results)
        (weaken_rule (λ l p. p) (λ a l p. p) (λ l p. Confirms-Extends ds _ l p.counts)
          (fetch_all_pages_rule _ (Remaining ds limit (suc remaining) results) _ _))
        λ expired.
          bind_rule (λ a. Remaining ds limit a.0 a.1)
            (weaken_rule (λ l p. p) (λ a l p. p) (λ l p. absurd p)
              (loop_rule (try_force_repay_post_expiry sv) (try_force_repay_rule sv) ds limit _
                expired results))
            λ (left, all_results). return_rule _ λ l p. accounted ds limit left all_results l p

  pub run_rule : Ensures (Confirms ds) (run_force_closes sv limit) (Accounted ds limit) (Extends ds)
  unfolding run_force_closes
  run_rule = reading_rule _ λ readiness.
      branch_rule _ (λ e. return_rule _ λ l p. none-Accounted ds limit _ l refl refl p)
        λ e. reading_rule _ λ window. reading_rule _ λ now.
          bind_rule (λ _. Confirms ds)
            (weaken_rule (λ l p. p) (λ a l p. p) (λ l p. Confirms-Extends ds [] l (no_gain ds l p))
              (fetch_all_pages_rule _ (Confirms ds) _ _))
            λ candidates.
              bind_rule (λ a. Remaining ds limit a.0 a.1)
                (weaken_rule (λ l p. at_start l p) (λ a l p. p) (λ l p. absurd p)
                  (loop_rule _ (λ k p. try_force_deleverage_rule sv k now p) ds limit limit _ []))
                λ (remaining, results). close_expired_rule now remaining results
    where
      at_start : (l : List Event) → Confirms ds l → Remaining ds limit limit [] l
      at_start l p = record { counts = no_gain ds l p; left = omega arith }

module _ {W : Type 0} (sv : Services W) where
  -- A run of the force-close task from a guarded log keeps it guarded, before and after the expiry: each
  -- submission follows a successful simulation of the same transaction, with nothing between the two but
  -- unconfirmed attempts to submit it. If the run resolves, the digests that the node confirmed since its
  -- start are exactly those of its successful results, in their order, at most `limit` over both paths
  -- together. If it rejects, the confirmed digests from before are still there.
  pub run_force_closes-Accounted :
      (limit : ℕ) (s : Session W)
      → IsGuarded s.log
      → Post
          (Accounted (confirmations s.log) limit)
          (Extends (confirmations s.log))
          (run_force_closes sv limit s)
  run_force_closes-Accounted limit s guarded =
      (run_rule sv (confirmations s.log) limit).holds s
        (record { guarded = guarded; digests = refl })
