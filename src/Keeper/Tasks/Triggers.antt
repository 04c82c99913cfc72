-- ===== src/Keeper/Tasks/Triggers.antt =====
-- keeper/src/tasks/trigger.service.ts: redeeming positions whose take-profit or stop-loss premium is hit.
pub mod Decide
pub mod Safety
use Prim.Native.String.{String}
use leverx.Prelude.{ℕ, Bool, true, false, not, ◌&&◌, Option, none, some, List, [], ◌∷◌}
use leverx.Prelude.Tests.{ltb, leb, ◌==◌, if◌then◌else◌}
use leverx.Prelude.Int.{ℤ}
use leverx.Keeper.Constants.{trigger_redeem_slippage_bps}
use leverx.Keeper.Types.{
  Text, KeeperConfig, LeveragedPosition, Message, logged, TaskResult, trigger,
}
use leverx.Keeper.TradeMath.{redeem_payout_from_bid, min_payout_after_slippage}
use leverx.Keeper.Ptb.{built, key_from_position}
use leverx.Keeper.Ptb.Reads.{build_get_triggers}
use leverx.Keeper.Ptb.Maintenance.{build_trigger_redeem}
use leverx.Keeper.Effects.{M, return, outside, reading, try_catch, branch, ◌>>=◌}
use leverx.Keeper.Sui.{transaction, try_dev_inspect}
use leverx.Keeper.Indexer.{
  PositionQuery, only_open, fetch_all_pages, default_page_size, default_max_items, position_target,
}
use leverx.Keeper.Quotes.{fetch_market_bid_per_unit}
use leverx.Keeper.Tasks.{
  Services, simulation_failure_message, execute_if_ok, succeeded, failed, not_configured,
}
use leverx.Keeper.Tasks.Results.{push, successes}

pub record OnChainTriggers : Type 0 where
  pub take_profit_premium : ℕ
  pub stop_loss_premium : ℕ
  pub take_profit_slippage_bps : ℕ
  pub stop_loss_slippage_bps : ℕ

pub data TriggerKind : Type 0 where
  take_profit stop_loss : TriggerKind

pub record TriggerAction : Type 0 where
  pub kind : TriggerKind
  pub bid : ℕ

abbrev pub triggers_of : Option (ℕ × ℕ × ℕ × ℕ) → Option OnChainTriggers
triggers_of none = none
triggers_of (some (tp, sl, tp_bps, sl_bps)) = some (record {
  take_profit_premium = tp;
  stop_loss_premium = sl;
  take_profit_slippage_bps = tp_bps;
  stop_loss_slippage_bps = sl_bps;
})

abbrev pub configured_slippage : OnChainTriggers → TriggerKind → ℕ
configured_slippage triggers take_profit = triggers.take_profit_slippage_bps
configured_slippage triggers stop_loss = triggers.stop_loss_slippage_bps

unfoldable pub slippage_bps_for_action : OnChainTriggers → TriggerKind → ℕ
slippage_bps_for_action triggers kind =
    let configured = configured_slippage triggers kind in
    if ltb 0 configured then configured else trigger_redeem_slippage_bps

unfoldable pub compute_trigger_min_payout : LeveragedPosition → ℕ → ℕ → ℤ
unfolding redeem_payout_from_bid min_payout_after_slippage
compute_trigger_min_payout position bid_per_unit slippage_bps =
    min_payout_after_slippage (redeem_payout_from_bid bid_per_unit position.open_quantity)
      slippage_bps

-- What a positive bid triggers: the profit is taken first.
abbrev pub action_at : OnChainTriggers → ℕ → Option TriggerAction
action_at triggers bid =
    if ltb 0 triggers.take_profit_premium && leb triggers.take_profit_premium bid
    then some (record { kind = take_profit; bid = bid })
    else if ltb 0 triggers.stop_loss_premium && leb bid triggers.stop_loss_premium
    then some (record { kind = stop_loss; bid = bid })
    else none

-- No bid, or a bid of 0, triggers nothing.
unfoldable pub action_for_bid : OnChainTriggers → Option ℕ → Option TriggerAction
action_for_bid triggers none = none
action_for_bid triggers (some bid) = if bid == 0 then none else action_at triggers bid

abbrev pub positive_quantity : ℕ → Option ℕ
positive_quantity q = if ltb 0 q then some q else none

abbrev pub open_positions : PositionQuery
open_positions = record {
  status = only_open;
  min_borrow_quote = none;
  min_open_quantity = some 1;
  max_expiry_ms = none;
  has_predict_manager = some true;
  has_margin = none;
  exclude_liquidated = false;
}

module _ {W : Type 0} (sv : Services W) where
  open sv use {sui, indexer, describe}

  unfoldable pub read_on_chain_triggers : LeveragedPosition → M W (Option OnChainTriggers)
  read_on_chain_triggers position = reading sui.get_config λ cfg. do
    tx ← transaction sui (built (build_get_triggers cfg position))
    values ← outside (sui.inspect_u64_quad tx)
    return (triggers_of values)

  unfoldable pub resolve_trigger_action :
      LeveragedPosition → OnChainTriggers → M W (Option TriggerAction)
  resolve_trigger_action position triggers = do
    bid ←
        fetch_market_bid_per_unit sui (key_from_position position)
          (positive_quantity position.open_quantity)
    return (action_for_bid triggers bid)

  unfoldable pub redeem_on :
      KeeperConfig → LeveragedPosition → OnChainTriggers → TriggerAction → M W (Option TaskResult)
  redeem_on cfg position triggers action = do
    tx ← transaction sui (
        build_trigger_redeem cfg position (
          compute_trigger_min_payout position action.bid
            (slippage_bps_for_action triggers action.kind)))
    simulation ← try_dev_inspect sui tx
    execute_if_ok sui tx simulation
        (λ e. return (
          some (failed trigger (position_target position) (simulation_failure_message describe e))))
        λ digest. some (succeeded trigger (position_target position) digest)

  unfoldable pub redeem_if_any :
      KeeperConfig
      → LeveragedPosition
      → OnChainTriggers
      → Option TriggerAction
      → M W (Option TaskResult)
  unfolding redeem_on
  redeem_if_any cfg position triggers none = return none
  redeem_if_any cfg position triggers (some action) = redeem_on cfg position triggers action

  unfoldable pub attempt_with :
      KeeperConfig → LeveragedPosition → Option OnChainTriggers → M W (Option TaskResult)
  unfolding resolve_trigger_action redeem_if_any
  attempt_with cfg position none = return none
  attempt_with cfg position (some triggers) =
      branch (triggers.take_profit_premium == 0 && triggers.stop_loss_premium == 0) (return none)
        (do
          action ← resolve_trigger_action position triggers
          redeem_if_any cfg position triggers action)

  -- The body of the loop; `none` is `continue`.
  unfoldable pub try_trigger : KeeperConfig → LeveragedPosition → M W (Option TaskResult)
  try_trigger cfg position =
      try_catch (do triggers ← read_on_chain_triggers position; attempt_with cfg position triggers)
        λ err. return (
          some (
            failed trigger (position_target position)
              (logged "trigger" (position_target position) err)))

  unfoldable pub trigger_loop :
      KeeperConfig → ℕ → List LeveragedPosition → List TaskResult → M W (List TaskResult)
  trigger_loop cfg limit [] results = return results
  trigger_loop cfg limit (position ∷ positions) results =
      branch (leb limit (successes results)) (return results) (do
        result ← try_trigger cfg position
        trigger_loop cfg limit positions (push results result))

  unfoldable pub run_triggers : ℕ → M W (List TaskResult)
  run_triggers limit = reading sui.get_task_readiness λ readiness.
      branch (not readiness.trigger) (return (not_configured trigger readiness.missing)) (
        reading sui.get_config λ cfg. do
          positions ←
              fetch_all_pages (indexer.fetch_positions open_positions) default_page_size
                default_max_items
          trigger_loop cfg limit positions [])
