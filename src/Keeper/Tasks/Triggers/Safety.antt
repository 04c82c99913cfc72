-- ===== src/Keeper/Tasks/Triggers/Safety.antt =====
-- keeper/src/tasks/trigger.service.ts: what a run submits and reports.
use leverx.Prelude.{ℕ, refl, Option, none, some, List, [], ◌∷◌, ◌++◌}
use leverx.Keeper.Types.{Text, KeeperConfig, LeveragedPosition, TaskResult}
use leverx.Keeper.Effects.{Session}
use leverx.Keeper.Effects.Rules.{
  Post, Ensures, bind_rule, catch_rule, outside_rule, return_rule, reading_rule, weaken_rule,
  branch_rule,
}
use leverx.Keeper.Sui.Guard.{
  Confirms, IsGuarded, confirmations, transaction_rule, try_dev_inspect_rule,
}
use leverx.Keeper.Indexer.Pages.{fetch_all_pages_rule}
use leverx.Keeper.Quotes.Reads.{fetch_market_bid_per_unit_rule}
use leverx.Keeper.Tasks.{Services}
use leverx.Keeper.Tasks.Submit.{execute_if_ok_rule, no_gain, Accounted, push_rule, none-Accounted}
use leverx.Keeper.Tasks.Results.{gained_digests, push}
use leverx.Keeper.Tasks.Triggers.{
  OnChainTriggers, TriggerAction, read_on_chain_triggers, resolve_trigger_action, redeem_on,
  redeem_if_any, attempt_with, try_trigger, trigger_loop, run_triggers,
}

module _ {W : Type 0} (sv : Services W) (ds : List Text) where
  read_rule :
      (position : LeveragedPosition)
      → Ensures (Confirms ds) (read_on_chain_triggers sv position) (λ _. Confirms ds) (Confirms ds)
  unfolding read_on_chain_triggers
  read_rule position = reading_rule _ λ cfg.
      bind_rule (λ _. Confirms ds) (transaction_rule sv.sui ds _)
        λ tx.
          bind_rule (λ _. Confirms ds) (outside_rule _ (λ l p a. p) (λ l p. p))
            λ values. return_rule _ λ l p. p

  resolve_rule :
      (position : LeveragedPosition) (triggers : OnChainTriggers)
      → Ensures
          (Confirms ds)
          (resolve_trigger_action sv position triggers)
          (λ _. Confirms ds)
          (Confirms ds)
  unfolding resolve_trigger_action
  resolve_rule position triggers =
      bind_rule (λ _. Confirms ds) (fetch_market_bid_per_unit_rule sv.sui ds _ _)
        λ bid. return_rule _ λ l p. p

module _ {W : Type 0} (sv : Services W) (cfg : KeeperConfig) (ds : List Text) where
  redeem_rule :
      (position : LeveragedPosition) (triggers : OnChainTriggers) (action : TriggerAction)
      → Ensures
          (Confirms ds)
          (redeem_on sv cfg position triggers action)
          (λ r. Confirms (ds ++ gained_digests r))
          (Confirms ds)
  unfolding redeem_on
  redeem_rule position triggers action =
      bind_rule (λ _. Confirms ds) (transaction_rule sv.sui ds _)
        λ tx. bind_rule _ (try_dev_inspect_rule sv.sui ds tx) λ sim.
          execute_if_ok_rule sv.sui ds tx sim (λ e. return_rule _ λ l p. no_gain ds l p) λ d l p. p

  redeem_if_any_rule :
      (position : LeveragedPosition) (triggers : OnChainTriggers) (action : Option TriggerAction)
      → Ensures
          (Confirms ds)
          (redeem_if_any sv cfg position triggers action)
          (λ r. Confirms (ds ++ gained_digests r))
          (Confirms ds)
  unfolding redeem_if_any
  redeem_if_any_rule position triggers none = return_rule _ λ l p. no_gain ds l p
  redeem_if_any_rule position triggers (some action) = redeem_rule position triggers action

  attempt_rule :
      (position : LeveragedPosition) (triggers : Option OnChainTriggers)
      → Ensures
          (Confirms ds)
          (attempt_with sv cfg position triggers)
          (λ r. Confirms (ds ++ gained_digests r))
          (Confirms ds)
  unfolding attempt_with
  attempt_rule position none = return_rule _ λ l p. no_gain ds l p
  attempt_rule position (some triggers) =
      branch_rule _ (λ e. return_rule _ λ l p. no_gain ds l p)
        λ e.
          bind_rule (λ _. Confirms ds) (resolve_rule sv ds position triggers)
            λ action. redeem_if_any_rule position triggers action

  -- One attempt never rejects, and gains exactly what it confirms.
  try_trigger_rule :
      (position : LeveragedPosition)
      → Ensures
          (Confirms ds)
          (try_trigger sv cfg position)
          (λ r. Confirms (ds ++ gained_digests r))
          (λ l. ⊥)
  unfolding try_trigger
  try_trigger_rule position =
      catch_rule (Confirms ds)
        (bind_rule (λ _. Confirms ds) (read_rule sv ds position)
          λ triggers. attempt_rule position triggers)
        λ e. return_rule _ λ l p. no_gain ds l p

module _ {W : Type 0} (sv : Services W) (ds : List Text) (limit : ℕ) where
  loop_rule :
      (cfg : KeeperConfig) (positions : List LeveragedPosition) (results : List TaskResult)
      → Ensures
          (Accounted ds limit results)
          (trigger_loop sv cfg limit positions results)
          (Accounted ds limit)
          (λ l. ⊥)
  unfolding trigger_loop
  loop_rule cfg [] results = return_rule _ λ l p. p
  loop_rule cfg (p ∷ ps) results =
      branch_rule _ (λ e. return_rule _ λ l q. q)
        λ e.
          bind_rule (λ r. Accounted ds limit (push results r))
            (push_rule ds limit results e λ k. try_trigger_rule sv cfg k p)
            λ r. loop_rule cfg ps (push results r)

  pub run_rule : Ensures (Confirms ds) (run_triggers sv limit) (Accounted ds limit) (Confirms ds)
  unfolding run_triggers
  run_rule = reading_rule _ λ readiness.
      branch_rule _ (λ e. return_rule _ λ l p. none-Accounted ds limit _ l refl refl p)
        λ e. reading_rule _ λ cfg.
          bind_rule (λ _. Confirms ds) (fetch_all_pages_rule _ (Confirms ds) _ _)
            λ positions.
              weaken_rule (λ l p. none-Accounted ds limit [] l refl refl p) (λ rs l p. p)
                (λ l p. absurd p) (loop_rule cfg positions [])

module _ {W : Type 0} (sv : Services W) where
  -- A run of the trigger task from a guarded log keeps it guarded: each submission follows a successful
  -- simulation of the same transaction, with nothing between the two but unconfirmed attempts to submit it.
  -- If the run resolves, the digests that the node confirmed since its start are exactly those of its
  -- successful results, in their order, at most `limit`; if it rejects, the node confirmed none.
  pub run_triggers-Accounted :
      (limit : ℕ) (s : Session W)
      → IsGuarded s.log
      → Post
          (Accounted (confirmations s.log) limit)
          (Confirms (confirmations s.log))
          (run_triggers sv limit s)
  run_triggers-Accounted limit s guarded =
      (run_rule sv (confirmations s.log) limit).holds s
        (record { guarded = guarded; digests = refl })
