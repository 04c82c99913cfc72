-- ===== src/Client/Intents.antt =====
-- app/src/lib/leverx/trade-intent-message.ts and manager-intent-message.ts: the messages that the wallet
-- signs. Their fields are those of the keeper's types.
pub mod Agreement
pub mod Tests
use leverx.Prelude.{ℕ, ◌+◌, Bool, List, [], ◌∷◌}
use leverx.Prelude.Texts.{Text, text}
use leverx.Prelude.Decimal.{to_string}
use leverx.Keeper.Messages.{normalised}
use leverx.Keeper.Messages.Trade.{
  MintIntentFields, RedeemIntentFields, SettleIntentFields, RecoverManagerIntentFields,
}
use leverx.Keeper.Messages.Manager.{ManagerCreateIntentFields}
use leverx.Keeper.Messages.Build.{encode_bool, number_text, kind_text, message_of}

abbrev pub trade_mint_message_prefix : Text
trade_mint_message_prefix = text "leverx:trade:mint:v1"

abbrev pub trade_redeem_message_prefix : Text
trade_redeem_message_prefix = text "leverx:trade:redeem:v1"

abbrev pub trade_settle_message_prefix : Text
trade_settle_message_prefix = text "leverx:trade:settle:v1"

abbrev pub trade_recover_manager_message_prefix : Text
trade_recover_manager_message_prefix = text "leverx:trade:recover_manager:v1"

abbrev pub manager_create_message_prefix : Text
manager_create_message_prefix = text "leverx:manager:create:v1"

abbrev pub trade_intent_ttl_ms : ℕ
trade_intent_ttl_ms = 300_000

abbrev pub manager_intent_ttl_ms : ℕ
manager_intent_ttl_ms = 300_000

unfoldable pub trade_intent_expiry_ms : ℕ → ℕ
trade_intent_expiry_ms now = now + trade_intent_ttl_ms

unfoldable pub manager_intent_expiry_ms : ℕ → ℕ
manager_intent_expiry_ms now = now + manager_intent_ttl_ms

unfoldable pub build_mint_intent_message : MintIntentFields → Text
build_mint_intent_message fields = message_of trade_mint_message_prefix (
    (text "address", normalised fields.base.address)
    ∷ (text "account_id", normalised fields.base.account_id)
    ∷ (text "predict_manager_id", normalised fields.base.predict_manager_id)
    ∷ (text "expires_ms", to_string fields.base.expires_at_ms)
    ∷ (text "oracle_id", normalised fields.base.key.oracle_id)
    ∷ (text "market_expiry_ms", number_text fields.base.key.expiry_ms)
    ∷ (text "strike", number_text fields.base.key.strike)
    ∷ (text "higher_strike", number_text fields.base.key.higher_strike)
    ∷ (text "is_up", encode_bool fields.base.key.is_up)
    ∷ (text "is_range", encode_bool fields.base.key.is_range)
    ∷ (text "margin_quote_atoms", to_string fields.margin_quote_atoms)
    ∷ (text "leverage_bps", to_string fields.leverage_bps)
    ∷ (text "quantity", to_string fields.quantity)
    ∷ (text "max_mint_cost", to_string fields.max_mint_cost)
    ∷ (text "market_slippage_bps", to_string fields.market_slippage_bps)
    ∷ (text "remint_after_deleverage", encode_bool fields.remint_after_deleverage)
    ∷ (text "order_kind", kind_text fields.order_kind)
    ∷ (text "limit_premium_per_unit", to_string fields.limit_premium_per_unit)
    ∷ (text "placement_slippage_bps", to_string fields.placement_slippage_bps)
    ∷ [])

unfoldable pub build_redeem_intent_message : RedeemIntentFields → Text
build_redeem_intent_message fields = message_of trade_redeem_message_prefix (
    (text "address", normalised fields.base.address)
    ∷ (text "account_id", normalised fields.base.account_id)
    ∷ (text "predict_manager_id", normalised fields.base.predict_manager_id)
    ∷ (text "expires_ms", to_string fields.base.expires_at_ms)
    ∷ (text "oracle_id", normalised fields.base.key.oracle_id)
    ∷ (text "market_expiry_ms", number_text fields.base.key.expiry_ms)
    ∷ (text "strike", number_text fields.base.key.strike)
    ∷ (text "higher_strike", number_text fields.base.key.higher_strike)
    ∷ (text "is_up", encode_bool fields.base.key.is_up)
    ∷ (text "is_range", encode_bool fields.base.key.is_range)
    ∷ (text "quantity", to_string fields.quantity)
    ∷ (text "min_payout", to_string fields.min_payout)
    ∷ (text "redeem_mode", kind_text fields.redeem_mode)
    ∷ (text "min_premium_per_unit", to_string fields.min_premium_per_unit)
    ∷ [])

unfoldable pub build_settle_intent_message : SettleIntentFields → Text
build_settle_intent_message fields = message_of trade_settle_message_prefix (
    (text "address", normalised fields.base.address)
    ∷ (text "account_id", normalised fields.base.account_id)
    ∷ (text "predict_manager_id", normalised fields.base.predict_manager_id)
    ∷ (text "expires_ms", to_string fields.base.expires_at_ms)
    ∷ (text "oracle_id", normalised fields.base.key.oracle_id)
    ∷ (text "market_expiry_ms", number_text fields.base.key.expiry_ms)
    ∷ (text "strike", number_text fields.base.key.strike)
    ∷ (text "higher_strike", number_text fields.base.key.higher_strike)
    ∷ (text "is_up", encode_bool fields.base.key.is_up)
    ∷ (text "is_range", encode_bool fields.base.key.is_range)
    ∷ (text "quantity", to_string fields.quantity)
    ∷ [])

unfoldable pub build_recover_manager_intent_message : RecoverManagerIntentFields → Text
build_recover_manager_intent_message fields = message_of trade_recover_manager_message_prefix (
    (text "address", normalised fields.base.address)
    ∷ (text "account_id", normalised fields.base.account_id)
    ∷ (text "predict_manager_id", normalised fields.base.predict_manager_id)
    ∷ (text "expires_ms", to_string fields.base.expires_at_ms)
    ∷ (text "oracle_id", normalised fields.base.key.oracle_id)
    ∷ (text "market_expiry_ms", number_text fields.base.key.expiry_ms)
    ∷ (text "strike", number_text fields.base.key.strike)
    ∷ (text "higher_strike", number_text fields.base.key.higher_strike)
    ∷ (text "is_up", encode_bool fields.base.key.is_up)
    ∷ (text "is_range", encode_bool fields.base.key.is_range)
    ∷ (text "manager_quote_atoms", to_string fields.manager_quote_atoms)
    ∷ [])

unfoldable pub build_manager_create_message : ManagerCreateIntentFields → Text
build_manager_create_message fields = message_of manager_create_message_prefix (
    (text "address", normalised fields.address)
    ∷ (text "expires_ms", to_string fields.expires_at_ms)
    ∷ [])
