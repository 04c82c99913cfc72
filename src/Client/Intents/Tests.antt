-- ===== src/Client/Intents/Tests.antt =====
-- Signed intents at concrete inputs, as the client builds them and the keeper reads them.
use leverx.Prelude.{◌≡◌, refl, true, false, none, some, arith, [], ◌∷◌}
use leverx.Prelude.Texts.{Text, text, trim}
use leverx.Prelude.Decimal.{to_string}
use leverx.Prelude.Texts.Split.{join}
use leverx.Prelude.Numbers.{nearest}
use native.Mathlib.Decide.{dec_lt}
use leverx.Keeper.Ptb.Relay.{market, limit}
use leverx.Keeper.Replay.{assert_trade_intent_expiry, expiry_ok}
use leverx.Keeper.Messages.{
  parsed, refused, finite, is_address, normalised, invalid_field, invalid_message_prefix,
  missing_limit_fields, parse_number_field, parse_address_field, read_lines,
  parse_key_value_message,
}
use leverx.Keeper.Messages.Trade.{
  IntentBase, MintIntentFields, RedeemIntentFields, SettleIntentFields, RecoverManagerIntentFields,
  parse_mint_intent_message, parse_redeem_intent_message, parse_settle_intent_message,
  parse_recover_manager_intent_message,
}
use leverx.Keeper.Messages.Build
use leverx.Keeper.Messages.Build.{MintDraft, message_of}
use leverx.Keeper.Messages.Manager.{
  ManagerCreateIntentFields, parse_manager_create_message, read_manager_create,
  assert_manager_intent_expiry,
}
use leverx.Keeper.Messages.RoundTrip.Base.{IsWellFormed, normalised_base}
use leverx.Client.Intents.{
  build_mint_intent_message, build_redeem_intent_message, build_settle_intent_message,
  build_recover_manager_intent_message, build_manager_create_message, trade_intent_expiry_ms,
  manager_intent_expiry_ms,
}
use leverx.Client.Intents.Agreement.{keeper_reads_mint, keeper_reads_others, expiry_accepted}

abbrev pub owner : Text
owner = text "0x00000000000000000000000000000000000000000000000000000000000000aa"

-- Written with spaces and capitals.
abbrev pub loose_owner : Text
loose_owner = text " 0x00000000000000000000000000000000000000000000000000000000000000AA\t"

abbrev pub base : IntentBase
base = record {
  address = loose_owner;
  account_id = owner;
  predict_manager_id = owner;
  expires_at_ms = 1_700_000_000_000;
  key = record {
    oracle_id = owner;
    expiry_ms = finite 1_700_000_600_000;
    strike = finite 65_000;
    higher_strike = finite 0;
    is_up = true;
    is_range = false;
  };
}

abbrev pub mint : MintIntentFields
mint = record {
  base = base;
  margin_quote_atoms = 5_000_000;
  leverage_bps = 20_000;
  quantity = 18_446_744_073_709_551_615;
  max_mint_cost = 9_000_000;
  market_slippage_bps = 100;
  remint_after_deleverage = true;
  order_kind = limit;
  limit_premium_per_unit = 420_000;
  placement_slippage_bps = 50;
}

pub base-IsWellFormed : IsWellFormed base
unfolding IsWellFormed is_address normalised trim
base-IsWellFormed = (refl, refl, refl, omega arith, refl, omega arith, omega arith, omega arith)

keeper_reads_mint_example :
    parse_mint_intent_message (build_mint_intent_message mint)
    ≡ parsed (record mint { base = normalised_base base })
keeper_reads_mint_example = keeper_reads_mint mint base-IsWellFormed (omega arith) (omega arith)

abbrev pub redeem : RedeemIntentFields
redeem = record {
  base = base;
  quantity = 7;
  min_payout = 0;
  redeem_mode = market;
  min_premium_per_unit = 0;
}

abbrev pub settle : SettleIntentFields
settle = record { base = base; quantity = 7 }

abbrev pub recover : RecoverManagerIntentFields
recover = record { base = base; manager_quote_atoms = 1 }

abbrev create : ManagerCreateIntentFields
create = record { address = loose_owner; expires_at_ms = 1_700_000_000_000 }

keeper_reads_others_example :
    (parse_redeem_intent_message (build_redeem_intent_message redeem)
      ≡ parsed (record redeem { base = normalised_base base }))
    × (parse_settle_intent_message (build_settle_intent_message settle)
        ≡ parsed (record settle { base = normalised_base base }))
    × (parse_recover_manager_intent_message (build_recover_manager_intent_message recover)
        ≡ parsed (record recover { base = normalised_base base }))
    × (parse_manager_create_message (build_manager_create_message create)
        ≡ parsed (record create { address = normalised loose_owner }))
unfolding is_address normalised trim
keeper_reads_others_example =
    keeper_reads_others redeem settle recover create base-IsWellFormed base-IsWellFormed
      base-IsWellFormed refl (omega arith)

expiry_accepted_example :
    (assert_trade_intent_expiry (trade_intent_expiry_ms 1_000_000) 1_020_000 ≡ expiry_ok)
    × (assert_manager_intent_expiry (manager_intent_expiry_ms 1_000_000) 1_020_000 ≡ expiry_ok)
expiry_accepted_example = expiry_accepted 1_000_000 1_020_000 (omega arith) (omega arith)

-- The keeper's own builder leaves the limit fields of a market order out.
abbrev draft : MintDraft
draft = record {
  base = base;
  margin_quote_atoms = 5_000_000;
  leverage_bps = 20_000;
  quantity = 3;
  max_mint_cost = 9_000_000;
  market_slippage_bps = 100;
  remint_after_deleverage = false;
  order_kind = none;
  limit_premium_per_unit = some 420_000;
  placement_slippage_bps = some 50;
}

no_limit_fields :
    Build.build_mint_intent_message
      (record draft { order_kind = some limit; placement_slippage_bps = none })
    ≡ refused missing_limit_fields
unfolding Build.build_mint_intent_message
no_limit_fields = refl

-- The text that a wallet shows.
signed_text :
    build_manager_create_message create
    ≡ text
        "leverx:manager:create:v1\naddress=0x00000000000000000000000000000000000000000000000000000000000000aa\nexpires_ms=1700000000000"
unfolding build_manager_create_message message_of join normalised trim to_string dec_lt
signed_text = refl

wrong_prefix :
    parse_manager_create_message (text "leverx:manager:create:v2\naddress=0x1\nexpires_ms=5")
    ≡ refused invalid_message_prefix
unfolding parse_manager_create_message parse_key_value_message
wrong_prefix = refl

short_address :
    parse_manager_create_message (text "leverx:manager:create:v1\naddress=0x1\nexpires_ms=5")
    ≡ refused (invalid_field (text "address"))
unfolding parse_manager_create_message parse_key_value_message read_manager_create
    parse_address_field
short_address = refl

-- Of two lines with a key the last one counts, and a line without a key is passed over.
last_line_counts :
    parse_number_field
      (read_lines (text "a=1" ∷ text "=2" ∷ text "a" ∷ text "a=1e3" ∷ []) [])
      (text "a")
    ≡ parsed 1_000
unfolding read_lines parse_number_field nearest
last_line_counts = refl
