-- ===== src/Keeper/Ptb/Targets.antt =====
-- keeper/src/sui/move-targets.ts: the Move calls that gas sponsorship allows.
use Prim.Native.String.{String}
use leverx.Prelude.{List, [], ◌∷◌, ◌++◌, map}
use leverx.Keeper.Types.{Text, KeeperConfig}
use leverx.Keeper.Ptb.{MoveTarget, target_of}

abbrev pub leverx_paths : List String
leverx_paths =
    "predict_client::create_manager" ∷ "predict_client::deposit_quote"
    ∷ "predict_client::withdraw_quote" ∷ "trade::deposit_quote"
    ∷ "trade::leveraged_mint_binary_market" ∷ "trade::leveraged_mint_range_market"
    ∷ "trade::leveraged_mint_binary_limit" ∷ "trade::leveraged_mint_range_limit"
    ∷ "trade::leveraged_redeem_binary_market" ∷ "trade::leveraged_redeem_range_market"
    ∷ "trade::leveraged_redeem_binary_limit" ∷ "trade::leveraged_redeem_range_limit"
    ∷ "trade::execute_binary_limit_mint_order" ∷ "trade::execute_range_limit_mint_order"
    ∷ "trade::expire_binary_limit_mint_order" ∷ "trade::expire_range_limit_mint_order"
    ∷ "trade::settle_expired_proxy_position_permissionless"
    ∷ "trade::settle_expired_proxy_range_permissionless"
    ∷ "trade::recover_manager_surplus_to_trading_binary"
    ∷ "trade::recover_manager_surplus_to_trading_range" ∷ "trade::force_deleverage_binary_at_expiry"
    ∷ "trade::force_deleverage_range_at_expiry" ∷ "trade::force_repay_binary_post_expiry"
    ∷ "trade::force_repay_range_post_expiry" ∷ "trade::write_off_flat_binary_borrow_permissionless"
    ∷ "trade::write_off_flat_range_borrow_permissionless" ∷ "vault_flash::borrow_flash_liquidity"
    ∷ "vault_flash::repay_flash_liquidity"
    ∷ "liquidation::flash_liquidate_with_redeem_permissionless"
    ∷ "liquidation::flash_liquidate_range_with_redeem_permissionless" ∷ []

abbrev pub market_key_paths : List String
market_key_paths = "range_key::new" ∷ "market_key::up" ∷ "market_key::down" ∷ []

-- The targets in one package; none if the package is not configured.
abbrev pub targets_in : Text → List String → List MoveTarget
targets_in [] paths = []
targets_in (c ∷ pkg) paths = map (target_of (c ∷ pkg)) paths

unfoldable pub keeper_allowed_move_call_targets : KeeperConfig → List MoveTarget
keeper_allowed_move_call_targets cfg =
    targets_in cfg.package_id leverx_paths ++ targets_in cfg.predict_package_id market_key_paths
