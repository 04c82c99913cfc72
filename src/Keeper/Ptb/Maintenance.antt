-- ===== src/Keeper/Ptb/Maintenance.antt =====
-- keeper/src/sui/ptb-builder.service.ts: the transactions of the keeper's maintenance tasks.
use leverx.Prelude.{ℕ, [], ◌∷◌}
use leverx.Prelude.Tests.{if◌then◌else◌}
use leverx.Prelude.Int.{ℤ}
use leverx.Keeper.Types.{Text, KeeperConfig, LeveragedPosition, LimitMintOrder}
use leverx.Keeper.Ptb.{
  Transaction, object, clock, pure_id, pure_u64, result, Built, built, ◌>>=◌, u64, u64_arg,
  object_of, target_of, move_call, add_market_key, key_from_position, key_from_limit_order,
}

unfoldable pub build_force_deleverage_binary : KeeperConfig → LeveragedPosition → Built Transaction
build_force_deleverage_binary cfg position =
    let (tx, key) = add_market_key [] cfg (key_from_position position) in
    do
      quantity ← u64 position.open_quantity "position.open_quantity"
      built
          (move_call tx (target_of cfg.package_id "trade::force_deleverage_binary_at_expiry")
            (cfg.quote_type ∷ [])
            (object cfg.registry_id
              ∷ object cfg.vault_id
              ∷ object cfg.fee_collector_id
              ∷ object position.account_id
              ∷ object cfg.predict_id
              ∷ object_of position.predict_manager_id
              ∷ object position.oracle_id
              ∷ key
              ∷ u64_arg quantity
              ∷ clock
              ∷ [])).0

unfoldable pub build_force_repay_binary_post_expiry :
    KeeperConfig → LeveragedPosition → Built Transaction
build_force_repay_binary_post_expiry cfg position =
    let (tx, key) = add_market_key [] cfg (key_from_position position) in
    do
      quantity ← u64 position.open_quantity "position.open_quantity"
      built
          (move_call tx (target_of cfg.package_id "trade::force_repay_binary_post_expiry")
            (cfg.quote_type ∷ [])
            (object cfg.registry_id
              ∷ object cfg.vault_id
              ∷ object cfg.fee_collector_id
              ∷ object position.account_id
              ∷ object cfg.predict_id
              ∷ object_of position.predict_manager_id
              ∷ object position.oracle_id
              ∷ key
              ∷ u64_arg quantity
              ∷ clock
              ∷ [])).0

unfoldable pub build_force_repay_range_post_expiry :
    KeeperConfig → LeveragedPosition → Built Transaction
build_force_repay_range_post_expiry cfg position =
    let (tx, key) = add_market_key [] cfg (key_from_position position) in
    do
      quantity ← u64 position.open_quantity "position.open_quantity"
      built
          (move_call tx (target_of cfg.package_id "trade::force_repay_range_post_expiry")
            (cfg.quote_type ∷ [])
            (object cfg.registry_id
              ∷ object cfg.vault_id
              ∷ object cfg.fee_collector_id
              ∷ object position.account_id
              ∷ object cfg.predict_id
              ∷ object_of position.predict_manager_id
              ∷ object position.oracle_id
              ∷ key
              ∷ u64_arg quantity
              ∷ clock
              ∷ [])).0

unfoldable pub build_force_deleverage_range : KeeperConfig → LeveragedPosition → Built Transaction
build_force_deleverage_range cfg position =
    let (tx, key) = add_market_key [] cfg (key_from_position position) in
    do
      quantity ← u64 position.open_quantity "position.open_quantity"
      built
          (move_call tx (target_of cfg.package_id "trade::force_deleverage_range_at_expiry")
            (cfg.quote_type ∷ [])
            (object cfg.registry_id
              ∷ object cfg.vault_id
              ∷ object cfg.fee_collector_id
              ∷ object position.account_id
              ∷ object cfg.predict_id
              ∷ object_of position.predict_manager_id
              ∷ object position.oracle_id
              ∷ key
              ∷ u64_arg quantity
              ∷ clock
              ∷ [])).0

unfoldable pub build_expire_limit_mint : KeeperConfig → LimitMintOrder → Transaction
build_expire_limit_mint cfg order =
    let (tx, key) = add_market_key [] cfg (key_from_limit_order order) in
    let path =
      if order.is_range
      then "trade::expire_range_limit_mint_order"
      else "trade::expire_binary_limit_mint_order" in
    (move_call tx (target_of cfg.package_id path) [] (object order.account_id ∷ key ∷ clock ∷ [])).0

unfoldable pub build_execute_limit_mint : KeeperConfig → LimitMintOrder → Text → Transaction
build_execute_limit_mint cfg order predict_manager_id =
    let (tx, key) = add_market_key [] cfg (key_from_limit_order order) in
    let path =
      if order.is_range
      then "trade::execute_range_limit_mint_order"
      else "trade::execute_binary_limit_mint_order" in
    (move_call tx (target_of cfg.package_id path) (cfg.quote_type ∷ []) (
      object cfg.registry_id
      ∷ object cfg.vault_id
      ∷ object order.account_id
      ∷ object cfg.predict_id
      ∷ object predict_manager_id
      ∷ object order.oracle_id
      ∷ key
      ∷ clock
      ∷ [])).0

unfoldable pub build_trigger_redeem : KeeperConfig → LeveragedPosition → ℤ → Built Transaction
build_trigger_redeem cfg position min_payout =
    let (tx, key) = add_market_key [] cfg (key_from_position position) in
    do
      quantity ← u64 position.open_quantity "position.open_quantity"
      built
          (move_call tx
            (target_of cfg.package_id (
              if position.is_range
              then "trade::leveraged_redeem_range_market"
              else "trade::leveraged_redeem_binary_market"))
            (cfg.quote_type ∷ [])
            (object cfg.registry_id
              ∷ object cfg.vault_id
              ∷ object cfg.fee_collector_id
              ∷ object position.account_id
              ∷ object cfg.predict_id
              ∷ object_of position.predict_manager_id
              ∷ object position.oracle_id
              ∷ key
              ∷ u64_arg quantity
              ∷ pure_u64 min_payout
              ∷ clock
              ∷ [])).0

-- Flash loan, liquidation with the borrowed coin, and repayment with the receipt.
unfoldable pub build_liquidation :
    Transaction → KeeperConfig → LeveragedPosition → ℕ → Built Transaction
build_liquidation tx cfg position borrow_amount =
    let (tx₁, key) = add_market_key tx cfg (key_from_position position) in
    let (tx₂, loan) =
      move_call tx₁ (target_of cfg.package_id "vault_flash::borrow_flash_liquidity")
        (cfg.quote_type ∷ [])
        (object cfg.registry_id ∷ object cfg.vault_id ∷ u64_arg borrow_amount ∷ clock ∷ []) in
    let path =
      if position.is_range
      then "liquidation::flash_liquidate_range_with_redeem_permissionless"
      else "liquidation::flash_liquidate_with_redeem_permissionless" in
    do
      quantity ← u64 position.open_quantity "position.open_quantity"
      let (tx₃, liquidate) = move_call tx₂ (target_of cfg.package_id path) (cfg.quote_type ∷ []) (
          object cfg.registry_id
          ∷ object cfg.vault_id
          ∷ object cfg.fee_collector_id
          ∷ object position.account_id
          ∷ object cfg.predict_id
          ∷ object_of position.predict_manager_id
          ∷ object position.oracle_id
          ∷ key
          ∷ u64_arg quantity
          ∷ result loan 0
          ∷ clock
          ∷ [])
      built
          (move_call tx₃ (target_of cfg.package_id "vault_flash::repay_flash_liquidity")
            (cfg.quote_type ∷ [])
            (object cfg.registry_id
              ∷ object cfg.vault_id
              ∷ object cfg.fee_collector_id
              ∷ result liquidate 0
              ∷ result loan 1
              ∷ pure_id position.account_id
              ∷ clock
              ∷ [])).0

unfoldable pub build_write_off_flat_borrow :
    Transaction → KeeperConfig → LeveragedPosition → Transaction
build_write_off_flat_borrow tx cfg position =
    let (tx₁, key) = add_market_key tx cfg (key_from_position position) in
    let path =
      if position.is_range
      then "trade::write_off_flat_range_borrow_permissionless"
      else "trade::write_off_flat_binary_borrow_permissionless" in
    (move_call tx₁ (target_of cfg.package_id path) (cfg.quote_type ∷ []) (
      object cfg.registry_id
      ∷ object cfg.vault_id
      ∷ object cfg.fee_collector_id
      ∷ object position.account_id
      ∷ object cfg.predict_id
      ∷ object_of position.predict_manager_id
      ∷ object position.oracle_id
      ∷ key
      ∷ clock
      ∷ [])).0
