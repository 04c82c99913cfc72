-- ===== src/Keeper/Ptb/Request.antt =====
-- The transactions that the keeper signs and executes (`sui.execute`): those of
-- keeper/src/tasks/*.service.ts, of the relay in keeper/src/trade/trade.service.ts, and of
-- keeper/src/manager/manager.service.ts.
use leverx.Prelude.{ℕ}
use leverx.Prelude.Int.{ℤ}
use leverx.Prelude.{[]}
use leverx.Prelude.Tests.{if◌then◌else◌}
use leverx.Keeper.Types.{Text, KeeperConfig, LeveragedPosition, LimitMintOrder}
use leverx.Keeper.Ptb.{Transaction, Built, built}
use leverx.Keeper.Ptb.Maintenance.{
  build_force_deleverage_binary, build_force_deleverage_range, build_force_repay_binary_post_expiry,
  build_force_repay_range_post_expiry, build_expire_limit_mint, build_execute_limit_mint,
  build_trigger_redeem, build_liquidation, build_write_off_flat_borrow,
}
use leverx.Keeper.Ptb.Relay.{
  LeveragedMintParams, LeveragedRedeemParams, SettleParams, RecoverManagerParams,
  build_leveraged_mint, build_leveraged_redeem, build_settle_expired_permissionless,
  build_recover_manager_surplus, build_create_predict_manager,
}

pub data KeeperRequest : Type 0 where
  force_deleverage force_repay write_off : LeveragedPosition → KeeperRequest
  expire_limit : LimitMintOrder → KeeperRequest
  execute_limit : LimitMintOrder → Text → KeeperRequest
  trigger_redeem : LeveragedPosition → ℤ → KeeperRequest
  liquidate : LeveragedPosition → ℕ → KeeperRequest
  relay_mint : Text → Text → LeveragedMintParams → KeeperRequest
  relay_redeem : LeveragedRedeemParams → KeeperRequest
  relay_settle : SettleParams → KeeperRequest
  relay_recover : RecoverManagerParams → KeeperRequest
  create_manager : KeeperRequest

-- The transaction that the service builds for the request.
unfoldable pub build_request : KeeperConfig → KeeperRequest → Built Transaction
build_request cfg (force_deleverage p) =
    if p.is_range then build_force_deleverage_range cfg p else build_force_deleverage_binary cfg p
build_request cfg (force_repay p) =
    if p.is_range
    then build_force_repay_range_post_expiry cfg p
    else build_force_repay_binary_post_expiry cfg p
build_request cfg (write_off p) = built (build_write_off_flat_borrow [] cfg p)
build_request cfg (expire_limit o) = built (build_expire_limit_mint cfg o)
build_request cfg (execute_limit o m) = built (build_execute_limit_mint cfg o m)
build_request cfg (trigger_redeem p min_payout) = build_trigger_redeem cfg p min_payout
build_request cfg (liquidate p amount) = build_liquidation [] cfg p amount
build_request cfg (relay_mint account manager params) =
    built (build_leveraged_mint cfg account manager params)
build_request cfg (relay_redeem params) = built (build_leveraged_redeem cfg params)
build_request cfg (relay_settle params) = built (build_settle_expired_permissionless cfg params)
build_request cfg (relay_recover params) = built (build_recover_manager_surplus cfg params)
build_request cfg create_manager = built (build_create_predict_manager cfg)
