-- ===== src/Keeper/Quotes/Reads.antt =====
-- keeper/src/sui/predict-quote.service.ts: a quote submits nothing.
use leverx.Prelude.{ℕ, Option, List}
use leverx.Keeper.Types.{Text, PositionKeyArgs}
use leverx.Keeper.Effects.Rules.{Ensures, bind_rule, outside_rule, return_rule, reading_rule}
use leverx.Keeper.Sui.{Sui}
use leverx.Keeper.Sui.Guard.{Confirms, transaction_rule}
use leverx.Keeper.Quotes.{
  fetch_market_ask_pair, fetch_market_ask_per_unit, fetch_market_bid_per_unit,
  fetch_predict_manager_id,
}

module _ {W : Type 0} (sui : Sui W) (ds : List Text) where
  fetch_market_ask_pair_rule :
      (key : PositionKeyArgs) (q : Option ℕ)
      → Ensures (Confirms ds) (fetch_market_ask_pair sui key q) (λ _. Confirms ds) (Confirms ds)
  unfolding fetch_market_ask_pair
  fetch_market_ask_pair_rule key q = reading_rule _ λ cfg.
      bind_rule (λ _. Confirms ds) (transaction_rule sui ds _)
        λ tx.
          bind_rule (λ _. Confirms ds) (outside_rule _ (λ l p a. p) (λ l p. p))
            λ pair. return_rule _ λ l p. p

  pub fetch_market_ask_per_unit_rule :
      (key : PositionKeyArgs) (q : Option ℕ)
      → Ensures (Confirms ds) (fetch_market_ask_per_unit sui key q) (λ _. Confirms ds) (Confirms ds)
  unfolding fetch_market_ask_per_unit
  fetch_market_ask_per_unit_rule key q =
      bind_rule (λ _. Confirms ds) (fetch_market_ask_pair_rule key q) λ pair. return_rule _ λ l p. p

  pub fetch_market_bid_per_unit_rule :
      (key : PositionKeyArgs) (q : Option ℕ)
      → Ensures (Confirms ds) (fetch_market_bid_per_unit sui key q) (λ _. Confirms ds) (Confirms ds)
  unfolding fetch_market_bid_per_unit
  fetch_market_bid_per_unit_rule key q = reading_rule _ λ cfg.
      bind_rule (λ _. Confirms ds) (transaction_rule sui ds _)
        λ tx.
          bind_rule (λ _. Confirms ds) (outside_rule _ (λ l p a. p) (λ l p. p))
            λ pair. return_rule _ λ l p. p

  pub fetch_predict_manager_id_rule :
      (account : Text)
      → Ensures
          (Confirms ds)
          (fetch_predict_manager_id sui account)
          (λ _. Confirms ds)
          (Confirms ds)
  unfolding fetch_predict_manager_id
  fetch_predict_manager_id_rule account = reading_rule _ λ cfg.
      bind_rule (λ _. Confirms ds) (transaction_rule sui ds _)
        λ tx.
          bind_rule (λ _. Confirms ds) (outside_rule _ (λ l p a. p) (λ l p. p))
            λ id. return_rule _ λ l p. p
