-- ===== src/Keeper/Relay/Trades.antt =====
-- keeper/src/trade/trade.service.ts: the four relays, from the request to the confirmed transaction.
use Prim.Native.String.{String}
use leverx.Prelude.{ℕ, suc, ◌^◌, Bool, false, not, Option, none, some, List, [], ◌∷◌}
use leverx.Prelude.Tests.{ltb, if◌then◌else◌}
use leverx.Prelude.Texts.{Text, text, text_eq, to_lower_case}
use leverx.Keeper.Types.{KeeperConfig, PositionKeyArgs}
use leverx.Keeper.Replay.{assert_trade_intent_expiry}
use leverx.Keeper.Messages.{Number, finite, infinite}
use leverx.Keeper.Messages.Trade.{
  MarketKeyFields, IntentBase, MintIntentFields, RedeemIntentFields, SettleIntentFields,
  RecoverManagerIntentFields, parse_mint_intent_message, parse_redeem_intent_message,
  parse_settle_intent_message, parse_recover_manager_intent_message,
}
use leverx.Keeper.Ptb.{Transaction, built}
use leverx.Keeper.Ptb.Relay.{
  build_leveraged_mint, build_leveraged_redeem, build_settle_expired_permissionless,
  build_recover_manager_surplus,
}
use leverx.Keeper.Effects.{M, return, outside, reading, try_catch, branch}
use leverx.Keeper.Effects
use leverx.Keeper.Sui.{Simulation, sim_ok, sim_failed, transaction, try_dev_inspect, execute}
use leverx.Keeper.Quotes.{fetch_manager_quote_balance, fetch_manager_open_quantity}
use leverx.Keeper.Relay.{
  bad_request, forbidden, service_unavailable, keeper_not_configured, Served, served, rejected,
  AppAuthPayload, IntentKind, nonblank,
}
use leverx.Keeper.Relay.Auth.{Relay, UserProxy, S, ◌>>=◌, answer, refuse, verify_trade_request}

pub record TradeRelayResponse : Type 0 where
  pub digest : Text
  pub auth : Option Text

abbrev pub mint_kind : IntentKind MintIntentFields
mint_kind = record {
  parse_message = parse_mint_intent_message;
  address_of = λ i. i.base.address;
  expires_of = λ i. i.base.expires_at_ms;
  assert_expiry = assert_trade_intent_expiry;
}

abbrev pub redeem_kind : IntentKind RedeemIntentFields
redeem_kind = record {
  parse_message = parse_redeem_intent_message;
  address_of = λ i. i.base.address;
  expires_of = λ i. i.base.expires_at_ms;
  assert_expiry = assert_trade_intent_expiry;
}

abbrev pub settle_kind : IntentKind SettleIntentFields
settle_kind = record {
  parse_message = parse_settle_intent_message;
  address_of = λ i. i.base.address;
  expires_of = λ i. i.base.expires_at_ms;
  assert_expiry = assert_trade_intent_expiry;
}

abbrev pub recover_manager_kind : IntentKind RecoverManagerIntentFields
recover_manager_kind = record {
  parse_message = parse_recover_manager_intent_message;
  address_of = λ i. i.base.address;
  expires_of = λ i. i.base.expires_at_ms;
  assert_expiry = assert_trade_intent_expiry;
}

-- A number as the SDK serialises it. `Infinity` is refused, as is every number of the size that stands for
-- it here.
abbrev pub whole_number : Number → ℕ
whole_number (finite n) = n
whole_number infinite = 2 ^ 1_024

abbrev pub market_key : MarketKeyFields → PositionKeyArgs
market_key key = record {
  oracle_id = key.oracle_id;
  expiry_ms = whole_number key.expiry_ms;
  strike = whole_number key.strike;
  higher_strike = whole_number key.higher_strike;
  is_up = key.is_up;
  is_range = key.is_range;
}

unfoldable pub mint_transaction : KeeperConfig → MintIntentFields → Transaction
mint_transaction cfg intent =
    build_leveraged_mint cfg intent.base.account_id intent.base.predict_manager_id (record {
      key = market_key intent.base.key;
      margin_quote_atoms = intent.margin_quote_atoms;
      leverage_bps = intent.leverage_bps;
      quantity = intent.quantity;
      max_mint_cost = intent.max_mint_cost;
      market_slippage_bps = intent.market_slippage_bps;
      remint_after_deleverage = intent.remint_after_deleverage;
      order_kind = intent.order_kind;
      limit_premium_per_unit = intent.limit_premium_per_unit;
      placement_slippage_bps = intent.placement_slippage_bps;
    })

unfoldable pub redeem_transaction : KeeperConfig → RedeemIntentFields → Transaction
redeem_transaction cfg intent = build_leveraged_redeem cfg (record {
  key = market_key intent.base.key;
  account_id = intent.base.account_id;
  predict_manager_id = intent.base.predict_manager_id;
  quantity = intent.quantity;
  min_payout = intent.min_payout;
  redeem_mode = intent.redeem_mode;
  min_premium_per_unit = intent.min_premium_per_unit;
})

unfoldable pub settle_transaction : KeeperConfig → SettleIntentFields → Transaction
settle_transaction cfg intent = build_settle_expired_permissionless cfg (record {
  key = market_key intent.base.key;
  account_id = intent.base.account_id;
  predict_manager_id = intent.base.predict_manager_id;
  quantity = intent.quantity;
})

unfoldable pub recover_manager_transaction : KeeperConfig → RecoverManagerIntentFields → Transaction
recover_manager_transaction cfg intent = build_recover_manager_surplus cfg (record {
  key = market_key intent.base.key;
  account_id = intent.base.account_id;
  predict_manager_id = intent.base.predict_manager_id;
  manager_quote_atoms = intent.manager_quote_atoms;
})

-- `items.find`: the first row of the account, compared without case.
abbrev pub find_account : Text → List UserProxy → Option UserProxy
find_account account_id [] = none
find_account account_id (row ∷ rows) =
    if text_eq (to_lower_case row.account_id) (to_lower_case account_id)
    then some row
    else find_account account_id rows

abbrev pub is_manager : Text → Option Text → Bool
is_manager predict_manager_id none = false
is_manager predict_manager_id (some id) =
    text_eq (to_lower_case id) (to_lower_case predict_manager_id)

abbrev pub owned_account : IntentBase → Option UserProxy → Served (Unit {0})
owned_account base none = rejected (forbidden (text "account_not_owned"))
owned_account base (some row) =
    if is_manager base.predict_manager_id (nonblank row.predict_manager_id)
    then served tt
    else rejected (forbidden (text "predict_manager_mismatch"))

abbrev pub is_mismatch : Option Text → Option Text → Bool
is_mismatch (some keeper) (some signer) =
    not (text_eq (to_lower_case keeper) (to_lower_case signer))
is_mismatch _ _ = false

abbrev pub recoverable : ℕ → Option ℕ → Option ℕ → Served (Unit {0})
recoverable amount (some (suc open_qty)) balance =
    rejected (bad_request (text "open_contracts_remain"))
recoverable amount open_qty none = rejected (bad_request (text "manager_balance_unavailable"))
recoverable amount open_qty (some balance) =
    if ltb balance amount
    then rejected (bad_request (text "recovery_amount_exceeds_balance"))
    else served tt

module _ {W : Type 0} (relay : Relay W) where
  open relay use {sui, describe}

  unfoldable pub assert_relay_ready : S W (Unit {0})
  assert_relay_ready = reading sui.get_task_readiness λ readiness.
      branch (not readiness.tx_ready) (refuse (keeper_not_configured readiness.missing)) (
        reading relay.signer λ signer. reading relay.keeper_address λ keeper.
          branch (is_mismatch keeper signer)
            (refuse (service_unavailable (text "keeper_signer_mismatch"))) (answer tt))

  unfoldable pub assert_account_ownership : IntentBase → S W (Unit {0})
  assert_account_ownership base =
      Effects.◌>>=◌ (outside (relay.fetch_accounts base.address 10))
        λ items. return (owned_account base (find_account base.account_id items))

  -- Both reads are awaited together; each builds its transaction at once and changes nothing.
  unfoldable pub assert_recover_manager_preconditions : RecoverManagerIntentFields → S W (Unit {0})
  assert_recover_manager_preconditions intent =
      Effects.◌>>=◌
        (fetch_manager_open_quantity sui intent.base.predict_manager_id
          (market_key intent.base.key))
        λ open_qty.
          Effects.◌>>=◌ (fetch_manager_quote_balance sui intent.base.predict_manager_id)
            λ balance. return (recoverable intent.manager_quote_atoms open_qty balance)

  abbrev pub simulation_failure : String → Text
  simulation_failure error = elim (describe error) [
    | none ↦ text "simulation_failed"
    | some hint ↦ text hint
  ]

  unfoldable pub execute_simulated : Transaction → Option Text → Simulation → S W TradeRelayResponse
  execute_simulated tx auth (sim_failed error) = refuse (bad_request (simulation_failure error))
  execute_simulated tx auth sim_ok =
      try_catch
        (Effects.◌>>=◌ (execute sui tx) λ digest. answer (record { digest = digest; auth = auth }))
        λ err. refuse (service_unavailable (text "trade_relay_failed"))

  unfoldable pub simulate_and_execute : Transaction → Option Text → S W TradeRelayResponse
  simulate_and_execute tx auth = Effects.◌>>=◌ (try_dev_inspect sui tx) (execute_simulated tx auth)

  -- The last steps of each relay: the transaction is built for the configuration of that moment.
  unfoldable pub submit : (KeeperConfig → Transaction) → Option Text → S W TradeRelayResponse
  submit build auth =
      reading sui.get_config λ cfg.
        Effects.◌>>=◌ (transaction sui (built (build cfg))) λ tx. simulate_and_execute tx auth

  unfoldable pub relay_mint : AppAuthPayload → Option Text → S W TradeRelayResponse
  relay_mint body bearer = do
    (intent, auth) ← verify_trade_request relay mint_kind body bearer
    ready ← assert_relay_ready
    owned ← assert_account_ownership intent.base
    reading sui.is_trading_paused λ paused.
        branch paused (refuse (service_unavailable (text "trading_paused")))
          (submit (λ cfg. mint_transaction cfg intent) auth)

  unfoldable pub relay_redeem : AppAuthPayload → Option Text → S W TradeRelayResponse
  relay_redeem body bearer = do
    (intent, auth) ← verify_trade_request relay redeem_kind body bearer
    ready ← assert_relay_ready
    owned ← assert_account_ownership intent.base
    submit (λ cfg. redeem_transaction cfg intent) auth

  unfoldable pub relay_settle : AppAuthPayload → Option Text → S W TradeRelayResponse
  relay_settle body bearer = do
    (intent, auth) ← verify_trade_request relay settle_kind body bearer
    ready ← assert_relay_ready
    owned ← assert_account_ownership intent.base
    submit (λ cfg. settle_transaction cfg intent) auth

  abbrev pub nonzero : RecoverManagerIntentFields → Served (Unit {0})
  nonzero intent =
      if ltb 0 intent.manager_quote_atoms
      then served tt
      else rejected (bad_request (text "zero_amount"))

  unfoldable pub relay_recover_manager : AppAuthPayload → Option Text → S W TradeRelayResponse
  relay_recover_manager body bearer = do
    (intent, auth) ← verify_trade_request relay recover_manager_kind body bearer
    positive ← return (nonzero intent)
    ready ← assert_relay_ready
    owned ← assert_account_ownership intent.base
    sound ← assert_recover_manager_preconditions intent
    submit (λ cfg. recover_manager_transaction cfg intent) auth
