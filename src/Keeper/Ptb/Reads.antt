-- ===== src/Keeper/Ptb/Reads.antt =====
-- keeper/src/sui/ptb-builder.service.ts: transactions that are only inspected.
use leverx.Prelude.{ℕ, [], ◌∷◌}
use leverx.Prelude.Tests.{ltb, if◌then◌else◌}
use leverx.Keeper.Types.{Text, KeeperConfig, PositionKeyArgs, LeveragedPosition}
use leverx.Keeper.Ptb.{
  Transaction, object, clock, Built, built, ◌>>=◌, u64, u64_arg, target_of, move_call,
  add_market_key, key_from_position,
}

unfoldable pub build_is_liquidatable : KeeperConfig → LeveragedPosition → Built Transaction
build_is_liquidatable cfg position =
    let (tx, key) = add_market_key [] cfg (key_from_position position) in
    let path =
      if position.is_range
      then "trade::is_range_position_liquidatable_with_open_position"
      else "trade::is_binary_position_liquidatable_with_open_position" in
    do
      quantity ← u64 position.open_quantity "position.open_quantity"
      built
          (move_call tx (target_of cfg.package_id path) (cfg.quote_type ∷ []) (
            object cfg.registry_id
            ∷ object cfg.vault_id
            ∷ object position.account_id
            ∷ object cfg.predict_id
            ∷ object position.oracle_id
            ∷ key
            ∷ u64_arg quantity
            ∷ clock
            ∷ [])).0

unfoldable pub build_market_ask : KeeperConfig → PositionKeyArgs → ℕ → Transaction
build_market_ask cfg key_args quantity =
    let (tx, key) = add_market_key [] cfg key_args in
    let path =
      if key_args.is_range
      then "predict_client::market_ask_range"
      else "predict_client::market_ask_binary" in
    (move_call tx (target_of cfg.package_id path) []
      (object cfg.predict_id ∷ object key_args.oracle_id ∷ key ∷ u64_arg quantity ∷ clock ∷ [])).0

unfoldable pub build_market_bid : KeeperConfig → PositionKeyArgs → ℕ → Transaction
build_market_bid cfg key_args quantity =
    let (tx, key) = add_market_key [] cfg key_args in
    let path =
      if key_args.is_range
      then "predict_client::market_bid_range"
      else "predict_client::market_bid_binary" in
    (move_call tx (target_of cfg.package_id path) []
      (object cfg.predict_id ∷ object key_args.oracle_id ∷ key ∷ u64_arg quantity ∷ clock ∷ [])).0

unfoldable pub build_read_predict_manager_id : KeeperConfig → Text → Transaction
build_read_predict_manager_id cfg account_id =
    (move_call [] (target_of cfg.package_id "user_proxy::predict_manager_id") []
      (object account_id ∷ [])).0

unfoldable pub build_read_manager_quote_balance : KeeperConfig → Text → Transaction
build_read_manager_quote_balance cfg predict_manager_id =
    (move_call [] (target_of cfg.package_id "predict_client::manager_balance") (cfg.quote_type ∷ [])
      (object predict_manager_id ∷ [])).0

unfoldable pub build_read_manager_open_quantity :
    KeeperConfig → Text → PositionKeyArgs → Transaction
build_read_manager_open_quantity cfg predict_manager_id key =
    let (tx, market_key) = add_market_key [] cfg key in
    let path =
      if key.is_range
      then "predict_client::manager_range_position"
      else "predict_client::manager_binary_position" in
    (move_call tx (target_of cfg.package_id path) []
      (object predict_manager_id ∷ market_key ∷ [])).0

unfoldable pub build_get_triggers : KeeperConfig → LeveragedPosition → Transaction
build_get_triggers cfg position =
    let (tx, key) = add_market_key [] cfg (key_from_position position) in
    let path =
      if position.is_range then "triggers::get_range_triggers" else "triggers::get_triggers" in
    (move_call tx (target_of cfg.package_id path) [] (object position.account_id ∷ key ∷ [])).0

-- The principal of the ledger: the vault debt, or the margin debt where there is none.
unfoldable pub build_quote_liquidation_flash_borrow :
    KeeperConfig → LeveragedPosition → ℕ → Built Transaction
build_quote_liquidation_flash_borrow cfg position buffer_bps = do
  borrow ← u64 position.borrow_quote "position.borrow_quote"
  ledger_principal ←
      (if ltb 0 borrow
        then u64 position.borrow_quote "position.borrow_quote"
        else u64 position.margin_quote "position.margin_quote")
  built
      (move_call [] (target_of cfg.package_id "trade::quote_liquidation_flash_borrow")
        (cfg.quote_type ∷ [])
        (object cfg.registry_id
          ∷ object cfg.vault_id
          ∷ u64_arg ledger_principal
          ∷ u64_arg buffer_bps
          ∷ clock
          ∷ [])).0
