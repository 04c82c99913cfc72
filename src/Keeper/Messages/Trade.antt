-- ===== src/Keeper/Messages/Trade.antt =====
-- keeper/src/trade/trade-message.ts: the four signed intents, and how a message is read into one.
use leverx.Prelude.{ℕ, Bool, Option}
use leverx.Prelude.Tests.{if◌then◌else◌}
use leverx.Prelude.Texts.{Text, text}
use leverx.Prelude.Maps.{get}
use leverx.Keeper.Ptb.Relay.{OrderKind, market, limit}
use leverx.Keeper.Messages.{
  Fields, Parsed, parsed, ◌>>=◌, Number, number_of_bigint, is_text, parse_bool,
  parse_key_value_message, parse_address_field, parse_u64_field, parse_number_field,
  parse_optional_u64, parse_optional_number,
}

abbrev pub trade_mint_message_prefix : Text
trade_mint_message_prefix = text "leverx:trade:mint:v1"

abbrev pub trade_redeem_message_prefix : Text
trade_redeem_message_prefix = text "leverx:trade:redeem:v1"

abbrev pub trade_settle_message_prefix : Text
trade_settle_message_prefix = text "leverx:trade:settle:v1"

abbrev pub trade_recover_manager_message_prefix : Text
trade_recover_manager_message_prefix = text "leverx:trade:recover_manager:v1"

pub record MarketKeyFields : Type 0 where
  pub oracle_id : Text
  pub expiry_ms : Number
  pub strike : Number
  pub higher_strike : Number
  pub is_up : Bool
  pub is_range : Bool

-- The fields that all four intents have.
pub record IntentBase : Type 0 where
  pub address : Text
  pub account_id : Text
  pub predict_manager_id : Text
  pub expires_at_ms : ℕ
  pub key : MarketKeyFields

pub record MintIntentFields : Type 0 where
  pub base : IntentBase
  pub margin_quote_atoms : ℕ
  pub leverage_bps : ℕ
  pub quantity : ℕ
  pub max_mint_cost : ℕ
  pub market_slippage_bps : ℕ
  pub remint_after_deleverage : Bool
  pub order_kind : OrderKind
  pub limit_premium_per_unit : ℕ
  pub placement_slippage_bps : ℕ

pub record RedeemIntentFields : Type 0 where
  pub base : IntentBase
  pub quantity : ℕ
  pub min_payout : ℕ
  pub redeem_mode : OrderKind
  pub min_premium_per_unit : ℕ

pub record SettleIntentFields : Type 0 where
  pub base : IntentBase
  pub quantity : ℕ

pub record RecoverManagerIntentFields : Type 0 where
  pub base : IntentBase
  pub manager_quote_atoms : ℕ

-- `value === 'limit' ? 'limit' : 'market'`
abbrev pub kind_of : Option Text → OrderKind
kind_of value = if is_text (text "limit") value then limit else market

unfoldable pub parse_mint_order_kind : Fields → OrderKind
unfolding get
parse_mint_order_kind fields = kind_of (get (text "order_kind") fields)

unfoldable pub parse_redeem_mode : Fields → OrderKind
unfolding get
parse_redeem_mode fields = kind_of (get (text "redeem_mode") fields)

unfoldable pub parse_market_key_fields : Fields → Parsed MarketKeyFields
unfolding parse_address_field parse_u64_field number_of_bigint get
parse_market_key_fields fields = do
  oracle ← parse_address_field fields (text "oracle_id")
  expiry ← parse_u64_field fields (text "market_expiry_ms")
  low ← parse_u64_field fields (text "strike")
  high ← parse_u64_field fields (text "higher_strike")
  parsed (record {
    oracle_id = oracle;
    expiry_ms = number_of_bigint expiry;
    strike = number_of_bigint low;
    higher_strike = number_of_bigint high;
    is_up = parse_bool (get (text "is_up") fields);
    is_range = parse_bool (get (text "is_range") fields);
  })

-- What each of the four parsers reads first, in this order.
unfoldable pub parse_base : Fields → Parsed IntentBase
unfolding parse_number_field parse_market_key_fields parse_address_field
parse_base fields = do
  expires ← parse_number_field fields (text "expires_ms")
  market_key ← parse_market_key_fields fields
  owner ← parse_address_field fields (text "address")
  account ← parse_address_field fields (text "account_id")
  manager ← parse_address_field fields (text "predict_manager_id")
  parsed (record {
    address = owner;
    account_id = account;
    predict_manager_id = manager;
    expires_at_ms = expires;
    key = market_key;
  })

unfoldable pub read_mint : Fields → Parsed MintIntentFields
unfolding parse_base parse_u64_field parse_number_field parse_optional_u64 parse_optional_number
    parse_mint_order_kind get
read_mint fields = do
  head ← parse_base fields
  margin ← parse_u64_field fields (text "margin_quote_atoms")
  leverage ← parse_u64_field fields (text "leverage_bps")
  contracts ← parse_u64_field fields (text "quantity")
  cost ← parse_u64_field fields (text "max_mint_cost")
  slippage ← parse_number_field fields (text "market_slippage_bps")
  premium ← parse_optional_u64 fields (text "limit_premium_per_unit")
  placement ← parse_optional_number fields (text "placement_slippage_bps")
  parsed (record {
    base = head;
    margin_quote_atoms = margin;
    leverage_bps = leverage;
    quantity = contracts;
    max_mint_cost = cost;
    market_slippage_bps = slippage;
    remint_after_deleverage = parse_bool (get (text "remint_after_deleverage") fields);
    order_kind = parse_mint_order_kind fields;
    limit_premium_per_unit = premium;
    placement_slippage_bps = placement;
  })

unfoldable pub parse_mint_intent_message : Text → Parsed MintIntentFields
unfolding parse_key_value_message read_mint
parse_mint_intent_message message = do
  fields ← parse_key_value_message message trade_mint_message_prefix
  read_mint fields

unfoldable pub read_redeem : Fields → Parsed RedeemIntentFields
unfolding parse_base parse_u64_field parse_optional_u64 parse_redeem_mode
read_redeem fields = do
  head ← parse_base fields
  contracts ← parse_u64_field fields (text "quantity")
  payout ← parse_u64_field fields (text "min_payout")
  premium ← parse_optional_u64 fields (text "min_premium_per_unit")
  parsed (record {
    base = head;
    quantity = contracts;
    min_payout = payout;
    redeem_mode = parse_redeem_mode fields;
    min_premium_per_unit = premium;
  })

unfoldable pub parse_redeem_intent_message : Text → Parsed RedeemIntentFields
unfolding parse_key_value_message read_redeem
parse_redeem_intent_message message = do
  fields ← parse_key_value_message message trade_redeem_message_prefix
  read_redeem fields

unfoldable pub read_settle : Fields → Parsed SettleIntentFields
unfolding parse_base parse_u64_field
read_settle fields = do
  head ← parse_base fields
  contracts ← parse_u64_field fields (text "quantity")
  parsed (record { base = head; quantity = contracts })

unfoldable pub parse_settle_intent_message : Text → Parsed SettleIntentFields
unfolding parse_key_value_message read_settle
parse_settle_intent_message message = do
  fields ← parse_key_value_message message trade_settle_message_prefix
  read_settle fields

unfoldable pub read_recover_manager : Fields → Parsed RecoverManagerIntentFields
unfolding parse_base parse_u64_field
read_recover_manager fields = do
  head ← parse_base fields
  atoms ← parse_u64_field fields (text "manager_quote_atoms")
  parsed (record { base = head; manager_quote_atoms = atoms })

unfoldable pub parse_recover_manager_intent_message : Text → Parsed RecoverManagerIntentFields
unfolding parse_key_value_message read_recover_manager
parse_recover_manager_intent_message message = do
  fields ← parse_key_value_message message trade_recover_manager_message_prefix
  read_recover_manager fields
