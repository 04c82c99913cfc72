-- ===== src/Keeper/Tasks/ForceCloses.antt =====
-- keeper/src/tasks/force-close.service.ts: closing the debt of borrowed positions around their expiry.
pub mod Safety
use Prim.Native.String.{String}
use leverx.Prelude.{
  ℕ, zero, suc, ◌+◌, Bool, true, false, not, Option, none, some, List, [], ◌∷◌, ◌++◌,
}
use leverx.Prelude.Tests.{if◌then◌else◌}
use leverx.Prelude.Lists.{filter}
use leverx.Keeper.Types.{
  Text, KeeperConfig, LeveragedPosition, Message, code, logged, TaskResult, force_close,
}
use leverx.Keeper.TradeMath.{is_final_hour_before_expiry}
use leverx.Keeper.Ptb.{Transaction, Built}
use leverx.Keeper.Ptb.Maintenance.{
  build_force_deleverage_binary, build_force_deleverage_range, build_force_repay_binary_post_expiry,
  build_force_repay_range_post_expiry,
}
use leverx.Keeper.Effects.{M, return, outside, reading, try_catch, branch, ◌>>=◌}
use leverx.Keeper.Sui.{transaction, try_dev_inspect}
use leverx.Keeper.Indexer.{
  PositionQuery, only_open, fetch_all_pages, default_page_size, default_max_items, position_target,
}
use leverx.Keeper.Tasks.{
  Services, simulation_failure_message, execute_if_ok, succeeded, failed, not_configured,
}
use leverx.Keeper.Tasks.Liquidations.{is_liquidatable}

abbrev pub borrowed_until : ℕ → PositionQuery
borrowed_until max_expiry_ms = record {
  status = only_open;
  min_borrow_quote = some 1;
  min_open_quantity = some 1;
  max_expiry_ms = some max_expiry_ms;
  has_predict_manager = some true;
  has_margin = none;
  exclude_liquidated = false;
}

abbrev pub refused : LeveragedPosition → String → TaskResult
refused position reason = failed force_close (position_target position) (code reason)

unfoldable pub force_deleverage_transaction : KeeperConfig → LeveragedPosition → Built Transaction
force_deleverage_transaction cfg position =
    if position.is_range
    then build_force_deleverage_range cfg position
    else build_force_deleverage_binary cfg position

unfoldable pub force_repay_transaction : KeeperConfig → LeveragedPosition → Built Transaction
force_repay_transaction cfg position =
    if position.is_range
    then build_force_repay_range_post_expiry cfg position
    else build_force_repay_binary_post_expiry cfg position

module _ {W : Type 0} (sv : Services W) where
  open sv use {sui, indexer, describe, oracle_state}

  -- `none` is 'unreachable'.
  unfoldable pub is_oracle_settled : Text → M W (Option Bool)
  is_oracle_settled oracle_id = try_catch (outside (oracle_state oracle_id)) λ err. return none

  unfoldable pub submit_close : LeveragedPosition → Built Transaction → M W TaskResult
  submit_close position b = do
    tx ← transaction sui b
    simulation ← try_dev_inspect sui tx
    execute_if_ok sui tx simulation
        (λ e.
          return
            (failed force_close (position_target position) (simulation_failure_message describe e)))
        λ digest. succeeded force_close (position_target position) digest

  -- An unreachable check does not hold the attempt back.
  unfoldable pub deleverage_unless_liquidatable :
      KeeperConfig → LeveragedPosition → Option Bool → M W TaskResult
  unfolding submit_close
  deleverage_unless_liquidatable cfg position (some true) =
      return (refused position "skipped_liquidatable")
  deleverage_unless_liquidatable cfg position (some false) =
      submit_close position (force_deleverage_transaction cfg position)
  deleverage_unless_liquidatable cfg position none =
      submit_close position (force_deleverage_transaction cfg position)

  -- What both paths do with the oracle's state: only an unsettled oracle lets them go on.
  unfoldable pub unless_settled : LeveragedPosition → M W TaskResult → Option Bool → M W TaskResult
  unless_settled position go_on none = return (refused position "oracle_state_unreachable")
  unless_settled position go_on (some true) = return (refused position "oracle_already_settled")
  unless_settled position go_on (some false) = go_on

  unfoldable pub try_force_deleverage : LeveragedPosition → ℕ → M W TaskResult
  unfolding is_oracle_settled unless_settled deleverage_unless_liquidatable
  try_force_deleverage position now = reading sui.get_config λ cfg.
      try_catch
        (reading sui.get_final_window_ms λ window.
          branch (not (is_final_hour_before_expiry position.expiry_ms now window))
            (return (refused position "outside_force_window"))
            (do
              settled ← is_oracle_settled position.oracle_id
              unless_settled position
                  (do
                    liquidatable ← is_liquidatable sv position
                    deleverage_unless_liquidatable cfg position liquidatable)
                  settled))
        λ err. return (
          failed force_close (position_target position)
            (logged "force_close" (position_target position) err))

  unfoldable pub try_force_repay_post_expiry : LeveragedPosition → M W TaskResult
  unfolding is_oracle_settled unless_settled submit_close
  try_force_repay_post_expiry position = reading sui.get_config λ cfg.
      try_catch
        (do
          settled ← is_oracle_settled position.oracle_id
          unless_settled position (submit_close position (force_repay_transaction cfg position))
              settled)
        λ err. return (
          failed force_close (position_target position)
            (logged "force_repay" (position_target position) err))

-- The loop of both paths; it keeps what is left of the limit.
module _ {W : Type 0} (attempt : LeveragedPosition → M W TaskResult) where
  unfoldable pub close_loop :
      ℕ → List LeveragedPosition → List TaskResult → M W (ℕ × List TaskResult)
  close_loop remaining [] results = return (remaining, results)
  close_loop zero (position ∷ positions) results = return (zero, results)
  close_loop (suc remaining) (position ∷ positions) results = do
    result ← attempt position
    close_loop (if result.success then remaining else suc remaining) positions
        (results ++ (result ∷ []))

module _ {W : Type 0} (sv : Services W) where
  open sv use {sui, indexer}

  unfoldable pub close_expired : ℕ → ℕ → List TaskResult → M W (List TaskResult)
  unfolding close_loop try_force_repay_post_expiry
  close_expired now zero results = return results
  close_expired now (suc remaining) results = do
    expired ←
        fetch_all_pages (indexer.fetch_positions (borrowed_until now)) default_page_size
          default_max_items
    (left, all_results) ←
        close_loop (try_force_repay_post_expiry sv) (suc remaining) expired results
    return all_results

  unfoldable pub run_force_closes : ℕ → M W (List TaskResult)
  unfolding close_loop close_expired try_force_deleverage
  run_force_closes limit = reading sui.get_task_readiness λ readiness.
      branch (not readiness.force_close) (return (not_configured force_close readiness.missing)) (
        reading sui.get_final_window_ms λ window. reading sui.now λ now. do
          candidates ←
              fetch_all_pages (indexer.fetch_positions (borrowed_until (now + window)))
                default_page_size default_max_items
          (remaining, results) ←
              close_loop (λ position. try_force_deleverage sv position now) limit
                (filter (λ position. is_final_hour_before_expiry position.expiry_ms now window)
                  candidates)
                []
          close_expired now remaining results)
