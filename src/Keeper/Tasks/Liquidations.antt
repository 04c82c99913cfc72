-- ===== src/Keeper/Tasks/Liquidations.antt =====
-- keeper/src/tasks/liquidation.service.ts: flash liquidations, and writing off the debt of flat positions.
pub mod Safety
use Prim.Native.String.{String}
use leverx.Prelude.{ℕ, Bool, true, false, not, Option, none, some, List, [], ◌∷◌}
use leverx.Prelude.Tests.{ltb, leb, ◌==◌, if◌then◌else◌}
use leverx.Keeper.Constants.{flash_borrow_buffer_bps}
use leverx.Keeper.Types.{
  Text, KeeperConfig, LeveragedPosition, Message, code, logged, TaskResult, liquidation,
}
use leverx.Keeper.TradeMath.{has_liquidation_debt, flash_borrow_amount_for_liquidation}
use leverx.Keeper.Ptb.{Transaction, built}
use leverx.Keeper.Ptb.Reads.{build_is_liquidatable, build_quote_liquidation_flash_borrow}
use leverx.Keeper.Ptb.Maintenance.{build_liquidation, build_write_off_flat_borrow}
use leverx.Keeper.Effects.{M, return, outside, reading, try_catch, branch, ◌>>=◌}
use leverx.Keeper.Sui.{
  BoolRead, bool_ok, bool_failed, Simulation, sim_ok, sim_failed, transaction, try_dev_inspect,
  dev_inspect, execute,
}
use leverx.Keeper.Indexer.{fetch_liquidation_candidates, position_target}
use leverx.Keeper.Tasks.{Services, succeeded, failed, not_configured}
use leverx.Keeper.Tasks.Results.{push, successes}

-- A quote of 0 counts as none.
abbrev pub quoted_or : ℕ → Option ℕ → ℕ
quoted_or fallback none = fallback
quoted_or fallback (some quoted) = if ltb 0 quoted then quoted else fallback

abbrev pub read_bool : BoolRead → Option Bool
read_bool (bool_ok b) = some b
read_bool (bool_failed e) = none

abbrev pub has_manager : Option Text → Bool
has_manager none = false
has_manager (some []) = false
has_manager (some (c ∷ id)) = true

-- `describeMoveAbort(error) ?? 'liquidation PTB simulation failed'`
abbrev pub liquidation_hint : Option String → String
liquidation_hint none = "liquidation PTB simulation failed"
liquidation_hint (some hint) = hint

-- A write-off counts only if it succeeded.
abbrev pub write_off_or : TaskResult → Option TaskResult → TaskResult
write_off_or failure none = failure
write_off_or failure (some write_off) = if write_off.success then write_off else failure

module _ {W : Type 0} (sv : Services W) where
  open sv use {sui, indexer, describe}

  unfoldable pub resolve_flash_borrow_amount : LeveragedPosition → M W ℕ
  resolve_flash_borrow_amount position = reading sui.get_config λ cfg. do
    tx ← transaction sui (build_quote_liquidation_flash_borrow cfg position flash_borrow_buffer_bps)
    quoted ← outside (sui.inspect_u64 tx)
    return (
        quoted_or
          (flash_borrow_amount_for_liquidation position.borrow_quote position.margin_quote
            flash_borrow_buffer_bps)
          quoted)

  unfoldable pub execute_write_off : LeveragedPosition → Transaction → M W (Option TaskResult)
  execute_write_off position tx =
      try_catch
        (do
          digest ← execute sui tx
          return (some (succeeded liquidation (position_target position) digest)))
        λ err. return (
          some (
            failed liquidation (position_target position)
              (logged "bad debt write-off failed" (position_target position) err)))

  -- Only after the expiry, and only where a manager is known.
  unfoldable pub try_write_off_flat : LeveragedPosition → M W (Option TaskResult)
  unfolding execute_write_off
  try_write_off_flat position = reading sui.now λ now.
      branch (ltb now position.expiry_ms) (return none) (
        branch (not (has_manager position.predict_manager_id)) (return none) (
          reading sui.get_config λ cfg. do
            tx ← transaction sui (built (build_write_off_flat_borrow [] cfg position))
            ready ← dev_inspect sui tx
            branch (not ready) (return none) (execute_write_off position tx)))

  unfoldable pub is_liquidatable : LeveragedPosition → M W (Option Bool)
  is_liquidatable position = reading sui.get_config λ cfg. do
    tx ← transaction sui (build_is_liquidatable cfg position)
    result ← outside (sui.inspect_bool tx)
    return (read_bool result)

  -- A failed simulation falls back to a write-off.
  unfoldable pub submit_liquidation :
      LeveragedPosition → Transaction → Simulation → M W (Option TaskResult)
  unfolding try_write_off_flat
  submit_liquidation position tx sim_ok = do
    digest ← execute sui tx
    return (some (succeeded liquidation (position_target position) digest))
  submit_liquidation position tx (sim_failed e) = do
    write_off ← try_write_off_flat position
    return (
        some (
          write_off_or
            (failed liquidation (position_target position) (code (liquidation_hint (describe e))))
            write_off))

  unfoldable pub liquidate : KeeperConfig → LeveragedPosition → M W (Option TaskResult)
  unfolding submit_liquidation resolve_flash_borrow_amount
  liquidate cfg position = do
    borrow_amount ← resolve_flash_borrow_amount position
    tx ← transaction sui (build_liquidation [] cfg position borrow_amount)
    simulation ← try_dev_inspect sui tx
    submit_liquidation position tx simulation

  unfoldable pub liquidate_if :
      KeeperConfig → LeveragedPosition → Option Bool → M W (Option TaskResult)
  unfolding liquidate
  liquidate_if cfg position none =
      return (
        some (failed liquidation (position_target position) (code "liquidation_check_unreachable")))
  liquidate_if cfg position (some false) = return none
  liquidate_if cfg position (some true) = liquidate cfg position

  -- The body of the loop; `none` is `continue` without a result.
  unfoldable pub try_liquidate : KeeperConfig → LeveragedPosition → M W (Option TaskResult)
  unfolding try_write_off_flat is_liquidatable liquidate_if
  try_liquidate cfg position =
      try_catch
        (branch (not (has_liquidation_debt position.borrow_quote position.margin_quote))
          (return none)
          (branch (position.open_quantity == 0) (try_write_off_flat position)
            (do liquidatable ← is_liquidatable position; liquidate_if cfg position liquidatable)))
        λ err. return (
          some (
            failed liquidation (position_target position)
              (logged "liquidation failed" (position_target position) err)))

  unfoldable pub liquidation_loop :
      KeeperConfig → ℕ → List LeveragedPosition → List TaskResult → M W (List TaskResult)
  liquidation_loop cfg limit [] results = return results
  liquidation_loop cfg limit (position ∷ positions) results =
      branch (leb limit (successes results)) (return results) (do
        result ← try_liquidate cfg position
        liquidation_loop cfg limit positions (push results result))

  unfoldable pub run_liquidations : ℕ → M W (List TaskResult)
  run_liquidations limit = reading sui.get_config λ cfg. reading sui.get_task_readiness λ readiness.
      branch (not readiness.liquidation) (return (not_configured liquidation readiness.missing)) (do
        candidates ← fetch_liquidation_candidates indexer
        liquidation_loop cfg limit candidates [])
