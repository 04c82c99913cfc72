-- ===== src/Client/Intents/Agreement.antt =====
-- What the client signs is what the keeper reads.
use leverx.Prelude.{ℕ, ◌+◌, ◌^◌, ◌≤◌, ◌≡◌, refl, true, some, arith}
use leverx.Keeper.Replay.{assert_trade_intent_expiry, expiry_ok}
use leverx.Keeper.Messages.{parsed, is_address, normalised}
use leverx.Keeper.Messages.Trade.{
  MintIntentFields, RedeemIntentFields, SettleIntentFields, RecoverManagerIntentFields,
  parse_mint_intent_message, parse_redeem_intent_message, parse_settle_intent_message,
  parse_recover_manager_intent_message,
}
use leverx.Keeper.Messages.Build
use leverx.Keeper.Messages.Build.{MintDraft}
use leverx.Keeper.Messages.Manager
use leverx.Keeper.Messages.Manager.{
  ManagerCreateIntentFields, parse_manager_create_message, parse-build_manager_create,
  assert_manager_intent_expiry,
}
use leverx.Keeper.Messages.RoundTrip.{
  parse-build_settle, parse-build_recover_manager, parse-build_redeem,
}
use leverx.Keeper.Messages.RoundTrip.Base.{IsWellFormed, normalised_base}
use leverx.Keeper.Messages.RoundTrip.Mint.{limited_mint}
use leverx.Client.Intents.{
  build_mint_intent_message, build_redeem_intent_message, build_settle_intent_message,
  build_recover_manager_intent_message, build_manager_create_message, trade_intent_expiry_ms,
  manager_intent_expiry_ms,
}

abbrev draft_of : MintIntentFields → MintDraft
draft_of fields = record {
  base = fields.base;
  margin_quote_atoms = fields.margin_quote_atoms;
  leverage_bps = fields.leverage_bps;
  quantity = fields.quantity;
  max_mint_cost = fields.max_mint_cost;
  market_slippage_bps = fields.market_slippage_bps;
  remint_after_deleverage = fields.remint_after_deleverage;
  order_kind = some fields.order_kind;
  limit_premium_per_unit = some fields.limit_premium_per_unit;
  placement_slippage_bps = some fields.placement_slippage_bps;
}

-- The keeper reads a mint that the client built into the fields of the client, those of a limit order
-- included whatever the kind is, with the addresses in normal form; the addresses have to be addresses
-- and the numbers up to 2^53.
pub keeper_reads_mint :
    (fields : MintIntentFields)
    → IsWellFormed fields.base
    → fields.market_slippage_bps ≤ 2 ^ 53
    → fields.placement_slippage_bps ≤ 2 ^ 53
    → parse_mint_intent_message (build_mint_intent_message fields)
      ≡ parsed (record fields { base = normalised_base fields.base })
unfolding build_mint_intent_message
keeper_reads_mint fields h fits within =
    limited_mint (draft_of fields) fields.order_kind h fits fields.limit_premium_per_unit
      fields.placement_slippage_bps within

-- The client and the keeper build the same texts.
builders_agree :
    (redeem : RedeemIntentFields) (settle : SettleIntentFields)
    (recover : RecoverManagerIntentFields) (create : ManagerCreateIntentFields)
    → (build_redeem_intent_message redeem ≡ Build.build_redeem_intent_message redeem)
      × (build_settle_intent_message settle ≡ Build.build_settle_intent_message settle)
      × (build_recover_manager_intent_message recover
          ≡ Build.build_recover_manager_intent_message recover)
      × (build_manager_create_message create ≡ Manager.build_manager_create_message create)
unfolding build_redeem_intent_message build_settle_intent_message
    build_recover_manager_intent_message Build.build_redeem_intent_message
    Build.build_settle_intent_message Build.build_recover_manager_intent_message
    build_manager_create_message Manager.build_manager_create_message
builders_agree redeem settle recover create = (refl, refl, refl, refl)

-- The keeper reads what the client built for a redemption, a settlement, a recovery and a new manager into
-- the fields of the client, with the addresses in normal form; the addresses have to be addresses and
-- the numbers up to 2^53.
pub keeper_reads_others :
    (redeem : RedeemIntentFields) (settle : SettleIntentFields)
    (recover : RecoverManagerIntentFields) (create : ManagerCreateIntentFields)
    → IsWellFormed redeem.base
    → IsWellFormed settle.base
    → IsWellFormed recover.base
    → is_address (normalised create.address) ≡ true
    → create.expires_at_ms ≤ 2 ^ 53
    → (parse_redeem_intent_message (build_redeem_intent_message redeem)
        ≡ parsed (record redeem { base = normalised_base redeem.base }))
      × (parse_settle_intent_message (build_settle_intent_message settle)
          ≡ parsed (record settle { base = normalised_base settle.base }))
      × (parse_recover_manager_intent_message (build_recover_manager_intent_message recover)
          ≡ parsed (record recover { base = normalised_base recover.base }))
      × (parse_manager_create_message (build_manager_create_message create)
          ≡ parsed (record create { address = normalised create.address }))
keeper_reads_others redeem settle recover create h0 h1 h2 h3 fits =
    let (e0, e1, e2, e3) = builders_agree redeem settle recover create in
    (
      rw e0 (parse-build_redeem redeem h0),
      rw e1 (parse-build_settle settle h1),
      rw e2 (parse-build_recover_manager recover h2),
      rw e3 (parse-build_manager_create create h3 fits),
    )

-- The expiry that the client puts into an intent passes both of the keeper's checks while the keeper's
-- clock is at most 30 s behind the client's and at most 330 s ahead of it.
pub expiry_accepted :
    (client_now keeper_now : ℕ)
    → client_now ≤ keeper_now + 30_000
    → keeper_now ≤ client_now + 330_000
    → (assert_trade_intent_expiry (trade_intent_expiry_ms client_now) keeper_now ≡ expiry_ok)
      × (assert_manager_intent_expiry (manager_intent_expiry_ms client_now) keeper_now ≡ expiry_ok)
unfolding assert_trade_intent_expiry assert_manager_intent_expiry trade_intent_expiry_ms
    manager_intent_expiry_ms
expiry_accepted client_now keeper_now ahead behind = (ground arith, ground arith)
