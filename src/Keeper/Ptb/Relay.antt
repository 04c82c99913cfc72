-- ===== src/Keeper/Ptb/Relay.antt =====
-- keeper/src/sui/ptb-builder.service.ts: the transactions relayed for a user's signed intent, and the
-- one that creates a manager.
use leverx.Prelude.{ℕ, Bool, true, false, [], ◌∷◌, ◌++◌}
use leverx.Prelude.Tests.{if◌then◌else◌}
use leverx.Keeper.Types.{Text, KeeperConfig, PositionKeyArgs}
use leverx.Keeper.Ptb.{
  Transaction, object, clock, pure_bool, u64_arg, target_of, move_call, add_market_key,
}

pub data OrderKind : Type 0 where
  market limit : OrderKind

abbrev pub is_limit : OrderKind → Bool
is_limit market = false
is_limit limit = true

pub record LeveragedMintParams : Type 0 where
  pub key : PositionKeyArgs
  pub margin_quote_atoms : ℕ
  pub leverage_bps : ℕ
  pub quantity : ℕ
  pub max_mint_cost : ℕ
  pub market_slippage_bps : ℕ
  pub remint_after_deleverage : Bool
  pub order_kind : OrderKind
  pub limit_premium_per_unit : ℕ
  pub placement_slippage_bps : ℕ

unfoldable pub build_leveraged_mint : KeeperConfig → Text → Text → LeveragedMintParams → Transaction
build_leveraged_mint cfg account_id predict_manager_id params =
    let (tx, key) = add_market_key [] cfg params.key in
    let limited = is_limit params.order_kind in
    let path =
      if params.key.is_range
      then (if limited
          then "trade::leveraged_mint_range_limit"
          else "trade::leveraged_mint_range_market")
      else (if limited
          then "trade::leveraged_mint_binary_limit"
          else "trade::leveraged_mint_binary_market") in
    let bounds =
      if limited
      then u64_arg params.limit_premium_per_unit ∷ u64_arg params.placement_slippage_bps ∷ []
      else u64_arg params.max_mint_cost ∷ u64_arg params.market_slippage_bps ∷ [] in
    (move_call tx (target_of cfg.package_id path) (cfg.quote_type ∷ []) (
      (object cfg.registry_id
        ∷ object cfg.vault_id
        ∷ object account_id
        ∷ object cfg.predict_id
        ∷ object predict_manager_id
        ∷ object params.key.oracle_id
        ∷ key
        ∷ u64_arg params.margin_quote_atoms
        ∷ u64_arg params.leverage_bps
        ∷ u64_arg params.quantity
        ∷ [])
      ++ (bounds ++ (pure_bool params.remint_after_deleverage ∷ clock ∷ [])))).0

pub record LeveragedRedeemParams : Type 0 where
  pub key : PositionKeyArgs
  pub account_id : Text
  pub predict_manager_id : Text
  pub quantity : ℕ
  pub min_payout : ℕ
  pub redeem_mode : OrderKind
  pub min_premium_per_unit : ℕ

unfoldable pub build_leveraged_redeem : KeeperConfig → LeveragedRedeemParams → Transaction
build_leveraged_redeem cfg params =
    let (tx, key) = add_market_key [] cfg params.key in
    let limited = is_limit params.redeem_mode in
    let path =
      if params.key.is_range
      then (if limited
          then "trade::leveraged_redeem_range_limit"
          else "trade::leveraged_redeem_range_market")
      else (if limited
          then "trade::leveraged_redeem_binary_limit"
          else "trade::leveraged_redeem_binary_market") in
    (move_call tx (target_of cfg.package_id path) (cfg.quote_type ∷ []) (
      object cfg.registry_id
      ∷ object cfg.vault_id
      ∷ object cfg.fee_collector_id
      ∷ object params.account_id
      ∷ object cfg.predict_id
      ∷ object params.predict_manager_id
      ∷ object params.key.oracle_id
      ∷ key
      ∷ u64_arg params.quantity
      ∷ u64_arg (if limited then params.min_premium_per_unit else params.min_payout)
      ∷ clock
      ∷ [])).0

pub record SettleParams : Type 0 where
  pub key : PositionKeyArgs
  pub account_id : Text
  pub predict_manager_id : Text
  pub quantity : ℕ

unfoldable pub build_settle_expired_permissionless : KeeperConfig → SettleParams → Transaction
build_settle_expired_permissionless cfg params =
    let (tx, key) = add_market_key [] cfg params.key in
    let path =
      if params.key.is_range
      then "trade::settle_expired_proxy_range_permissionless"
      else "trade::settle_expired_proxy_position_permissionless" in
    (move_call tx (target_of cfg.package_id path) (cfg.quote_type ∷ []) (
      object cfg.registry_id
      ∷ object cfg.vault_id
      ∷ object cfg.fee_collector_id
      ∷ object params.account_id
      ∷ object cfg.predict_id
      ∷ object params.predict_manager_id
      ∷ object params.key.oracle_id
      ∷ key
      ∷ u64_arg params.quantity
      ∷ clock
      ∷ [])).0

pub record RecoverManagerParams : Type 0 where
  pub key : PositionKeyArgs
  pub account_id : Text
  pub predict_manager_id : Text
  pub manager_quote_atoms : ℕ

unfoldable pub build_recover_manager_surplus : KeeperConfig → RecoverManagerParams → Transaction
build_recover_manager_surplus cfg params =
    let (tx, key) = add_market_key [] cfg params.key in
    let path =
      if params.key.is_range
      then "trade::recover_manager_surplus_to_trading_range"
      else "trade::recover_manager_surplus_to_trading_binary" in
    (move_call tx (target_of cfg.package_id path) (cfg.quote_type ∷ []) (
      object cfg.registry_id
      ∷ object cfg.predict_id
      ∷ object params.account_id
      ∷ object params.predict_manager_id
      ∷ key
      ∷ u64_arg params.manager_quote_atoms
      ∷ [])).0

-- The manager service signs this one; it has no arguments.
unfoldable pub build_create_predict_manager : KeeperConfig → Transaction
build_create_predict_manager cfg =
    (move_call [] (target_of cfg.package_id "predict_client::create_manager") [] []).0
