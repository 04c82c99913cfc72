-- ===== src/Keeper/Messages/Build.antt =====
-- keeper/src/trade/trade-message.ts: the messages that are signed for the four intents.
use leverx.Prelude.{ℕ, Bool, true, false, Option, none, some, List, [], ◌∷◌, ◌++◌, map}
use leverx.Prelude.Texts.{Text, text}
use leverx.Prelude.Texts.Split.{join}
use leverx.Prelude.Decimal.{to_string}
use leverx.Keeper.Ptb.Relay.{OrderKind, market, limit}
use leverx.Keeper.Messages.{
  Parsed, parsed, refused, missing_limit_fields, Number, finite, infinite, normalised, newline,
}
use leverx.Keeper.Messages.Trade.{
  IntentBase, RedeemIntentFields, SettleIntentFields, RecoverManagerIntentFields,
  trade_mint_message_prefix, trade_redeem_message_prefix, trade_settle_message_prefix,
  trade_recover_manager_message_prefix,
}

abbrev pub encode_bool : Bool → Text
encode_bool true = text "true"
encode_bool false = text "false"

-- A number in a template string, exact up to 2^53.
abbrev pub number_text : Number → Text
number_text (finite n) = to_string n
number_text infinite = text "Infinity"

abbrev pub kind_text : OrderKind → Text
kind_text market = text "market"
kind_text limit = text "limit"

-- `${key}=${value}`
abbrev pub line : Text × Text → Text
line (key, value) = key ++ (b'=' ∷ value)

-- `[prefix, ...lines].join('\n')`
unfoldable pub message_of : Text → List (Text × Text) → Text
message_of first fields = join newline (first ∷ map line fields)

-- The lines that the four messages begin with.
abbrev pub base_fields : IntentBase → List (Text × Text)
base_fields base =
    (text "address", normalised base.address)
    ∷ (text "account_id", normalised base.account_id)
    ∷ (text "predict_manager_id", normalised base.predict_manager_id)
    ∷ (text "expires_ms", to_string base.expires_at_ms)
    ∷ (text "oracle_id", normalised base.key.oracle_id)
    ∷ (text "market_expiry_ms", number_text base.key.expiry_ms)
    ∷ (text "strike", number_text base.key.strike)
    ∷ (text "higher_strike", number_text base.key.higher_strike)
    ∷ (text "is_up", encode_bool base.key.is_up)
    ∷ (text "is_range", encode_bool base.key.is_range)
    ∷ []

-- The argument of the builder, which tests three of its fields for a missing value.
pub record MintDraft : Type 0 where
  pub base : IntentBase
  pub margin_quote_atoms : ℕ
  pub leverage_bps : ℕ
  pub quantity : ℕ
  pub max_mint_cost : ℕ
  pub market_slippage_bps : ℕ
  pub remint_after_deleverage : Bool
  pub order_kind : Option OrderKind
  pub limit_premium_per_unit : Option ℕ
  pub placement_slippage_bps : Option ℕ

abbrev pub order_kind_or_market : Option OrderKind → OrderKind
order_kind_or_market none = market
order_kind_or_market (some kind) = kind

abbrev pub mint_fields : MintDraft → OrderKind → List (Text × Text)
mint_fields draft kind =
    base_fields draft.base
    ++ ((text "margin_quote_atoms", to_string draft.margin_quote_atoms)
        ∷ (text "leverage_bps", to_string draft.leverage_bps)
        ∷ (text "quantity", to_string draft.quantity)
        ∷ (text "max_mint_cost", to_string draft.max_mint_cost)
        ∷ (text "market_slippage_bps", to_string draft.market_slippage_bps)
        ∷ (text "remint_after_deleverage", encode_bool draft.remint_after_deleverage)
        ∷ (text "order_kind", kind_text kind)
        ∷ [])

abbrev pub limit_fields : OrderKind → Option ℕ → Option ℕ → Parsed (List (Text × Text))
limit_fields market premium slippage = parsed []
limit_fields limit none slippage = refused missing_limit_fields
limit_fields limit (some premium) none = refused missing_limit_fields
limit_fields limit (some premium) (some slippage) = parsed (
    (text "limit_premium_per_unit", to_string premium)
    ∷ (text "placement_slippage_bps", to_string slippage)
    ∷ [])

abbrev pub mint_message : List (Text × Text) → Parsed (List (Text × Text)) → Parsed Text
mint_message fields (refused e) = refused e
mint_message fields (parsed more) = parsed (message_of trade_mint_message_prefix (fields ++ more))

unfoldable pub build_mint_intent_message : MintDraft → Parsed Text
build_mint_intent_message draft =
    let kind = order_kind_or_market draft.order_kind in
    mint_message (mint_fields draft kind)
      (limit_fields kind draft.limit_premium_per_unit draft.placement_slippage_bps)

abbrev pub redeem_fields : RedeemIntentFields → List (Text × Text)
redeem_fields fields =
    base_fields fields.base
    ++ ((text "quantity", to_string fields.quantity)
        ∷ (text "min_payout", to_string fields.min_payout)
        ∷ (text "redeem_mode", kind_text fields.redeem_mode)
        ∷ (text "min_premium_per_unit", to_string fields.min_premium_per_unit)
        ∷ [])

unfoldable pub build_redeem_intent_message : RedeemIntentFields → Text
build_redeem_intent_message fields = message_of trade_redeem_message_prefix (redeem_fields fields)

abbrev pub settle_fields : SettleIntentFields → List (Text × Text)
settle_fields fields =
    base_fields fields.base ++ ((text "quantity", to_string fields.quantity) ∷ [])

unfoldable pub build_settle_intent_message : SettleIntentFields → Text
build_settle_intent_message fields = message_of trade_settle_message_prefix (settle_fields fields)

abbrev pub recover_manager_fields : RecoverManagerIntentFields → List (Text × Text)
recover_manager_fields fields =
    base_fields fields.base
    ++ ((text "manager_quote_atoms", to_string fields.manager_quote_atoms) ∷ [])

unfoldable pub build_recover_manager_intent_message : RecoverManagerIntentFields → Text
build_recover_manager_intent_message fields =
    message_of trade_recover_manager_message_prefix (recover_manager_fields fields)
