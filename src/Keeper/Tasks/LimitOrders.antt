-- ===== src/Keeper/Tasks/LimitOrders.antt =====
-- keeper/src/tasks/limit-order.service.ts: filling and expiring resting limit orders.
pub mod Attempts
pub mod Safety
use Prim.Native.String.{String}
use leverx.Prelude.{
  ℕ, suc, ◌+◌, ◌*◌, ◌/◌, Bool, true, false, not, ◌&&◌, Option, none, some, List, [], ◌∷◌, ◌++◌,
}
use leverx.Prelude.Tests.{ltb, leb, if◌then◌else◌}
use leverx.Prelude.Lists.{take}
use leverx.Keeper.Types.{
  Text, KeeperConfig, LimitMintOrder, Message, code, logged, TaskKind, TaskResult, limit_order,
  limit_order_expire,
}
use leverx.Keeper.TradeMath.{is_leveraged_mint_allowed}
use leverx.Keeper.Ptb.{built, key_from_limit_order}
use leverx.Keeper.Ptb.Maintenance.{build_execute_limit_mint, build_expire_limit_mint}
use leverx.Keeper.Effects.{M, return, outside, reading, try_catch, branch, ◌>>=◌}
use leverx.Keeper.Sui.{transaction, try_dev_inspect}
use leverx.Keeper.Indexer.{
  LimitOrderQuery, fetch_all_pages, default_page_size, default_max_items, target_key,
}
use leverx.Keeper.Quotes.{fetch_market_ask_per_unit, fetch_predict_manager_id}
use leverx.Keeper.Tasks.{
  Services, simulation_failure_message, execute_if_ok, succeeded, failed, not_configured,
}
use leverx.Keeper.Tasks.Results.{push, successes}

-- `results.filter((r) => r.success && r.kind === 'limit_order').length`
abbrev pub is_fill : TaskKind → Bool
is_fill limit_order = true
is_fill _ = false

abbrev pub fills : List TaskResult → ℕ
fills [] = 0
fills (r ∷ rs) = (if r.success && is_fill r.kind then 1 else 0) + fills rs

abbrev pub order_target : LimitMintOrder → Text
order_target o = target_key o.account_id o.position_key

abbrev pub quantity_if_any : ℕ → Option ℕ
quantity_if_any q = if ltb 0 q then some q else none

-- The highest ask that fills the order.
unfoldable pub max_premium : LimitMintOrder → ℕ
max_premium o = o.limit_premium_per_unit + o.limit_premium_per_unit * o.slippage_bps / 10_000

abbrev pub ask_fills : LimitMintOrder → Option ℕ → Bool
ask_fills o none = false
ask_fills o (some best_ask) = leb best_ask (max_premium o)

abbrev open_after : ℕ → LimitOrderQuery
open_after now = record { min_order_expires_ms = some now; max_order_expires_ms = none }

abbrev open_until : ℕ → LimitOrderQuery
open_until now = record { min_order_expires_ms = none; max_order_expires_ms = some now }

module _ {W : Type 0} (sv : Services W) where
  open sv use {sui, indexer, describe}

  unfoldable pub can_fill_leveraged_order : LimitMintOrder → ℕ → ℕ → Bool
  can_fill_leveraged_order order now final_window_ms =
      is_leveraged_mint_allowed order.expiry_ms order.leverage_bps now final_window_ms

  unfoldable pub is_fillable : LimitMintOrder → M W Bool
  is_fillable order = do
    best_ask ←
        fetch_market_ask_per_unit sui (key_from_limit_order order) (quantity_if_any order.quantity)
    return (ask_fills order best_ask)

  -- The on-chain link first, and the indexer's account only where there is none.
  unfoldable pub manager_of : Text → M W (Option Text)
  manager_of account_id = do
    linked ← fetch_predict_manager_id sui account_id
    elim linked [
      | some id ↦ return (some id)
      | none ↦ outside (indexer.fetch_account_manager account_id)
    ]

  unfoldable pub submit_fill : KeeperConfig → LimitMintOrder → Text → M W (Option TaskResult)
  submit_fill cfg order manager_id = do
    tx ← transaction sui (built (build_execute_limit_mint cfg order manager_id))
    simulation ← try_dev_inspect sui tx
    execute_if_ok sui tx simulation
        (λ e.
          return (
            some (failed limit_order (order_target order) (simulation_failure_message describe e))))
        λ digest. some (succeeded limit_order (order_target order) digest)

  unfoldable pub fill_with : KeeperConfig → LimitMintOrder → Option Text → M W (Option TaskResult)
  unfolding submit_fill
  fill_with cfg order none =
      return (some (failed limit_order (order_target order) (code "missing_predict_manager")))
  fill_with cfg order (some []) =
      return (some (failed limit_order (order_target order) (code "missing_predict_manager")))
  fill_with cfg order (some (c ∷ id)) = submit_fill cfg order (c ∷ id)

  -- The body of the fill loop; `none` is `continue`.
  unfoldable pub try_fill : KeeperConfig → ℕ → LimitMintOrder → M W (Option TaskResult)
  try_fill cfg now order =
      try_catch
        (reading sui.get_final_window_ms λ window.
          branch (not (can_fill_leveraged_order order now window)) (return none) (do
            fillable ← is_fillable order
            branch (not fillable) (return none)
                (do manager_id ← manager_of order.account_id; fill_with cfg order manager_id)))
        λ err. return (
          some (
            failed limit_order (order_target order)
              (logged "limit fill failed" (order_target order) err)))

  unfoldable pub fill_loop :
      KeeperConfig → ℕ → ℕ → List LimitMintOrder → List TaskResult → M W (List TaskResult)
  fill_loop cfg limit now [] results = return results
  fill_loop cfg limit now (order ∷ orders) results =
      branch (leb limit (fills results)) (return results)
        (do result ← try_fill cfg now order; fill_loop cfg limit now orders (push results result))

  unfoldable pub try_expire : KeeperConfig → LimitMintOrder → M W TaskResult
  try_expire cfg order =
      try_catch
        (do
          tx ← transaction sui (built (build_expire_limit_mint cfg order))
          simulation ← try_dev_inspect sui tx
          execute_if_ok sui tx simulation
              (λ e. return (
                failed limit_order_expire (order_target order)
                  (simulation_failure_message describe e)))
              λ digest. succeeded limit_order_expire (order_target order) digest)
        λ err. return (
          failed limit_order_expire (order_target order)
            (logged "limit expire failed" (order_target order) err))

  -- `expired_count` counts the orders that were expired so far.
  unfoldable pub expire_loop :
      KeeperConfig → ℕ → ℕ → List LimitMintOrder → List TaskResult → M W (List TaskResult)
  expire_loop cfg limit expired_count [] results = return results
  expire_loop cfg limit expired_count (order ∷ orders) results =
      branch (leb limit expired_count) (return results) (do
        result ← try_expire cfg order
        expire_loop cfg limit (if result.success then expired_count + 1 else expired_count) orders
            (results ++ (result ∷ [])))

  unfoldable pub run_fills : KeeperConfig → ℕ → Bool → ℕ → M W (List TaskResult)
  run_fills cfg limit allowed now =
      branch allowed
        (do
          fillable ←
              fetch_all_pages (indexer.fetch_limit_orders (open_after now)) default_page_size
                default_max_items
          fill_loop cfg limit now (take (limit * 3) fillable) [])
        (return [])

  unfoldable pub run : ℕ → Bool → M W (List TaskResult)
  run limit allow_fills = reading sui.get_config λ cfg. reading sui.get_task_readiness λ readiness.
      branch (not readiness.limit_order) (return (not_configured limit_order readiness.missing)) (
        reading sui.now λ now. do
          results ← run_fills cfg limit (readiness.tx_ready && allow_fills) now
          expired ←
              fetch_all_pages (indexer.fetch_limit_orders (open_until now)) default_page_size
                default_max_items
          expire_loop cfg limit 0 expired results)
