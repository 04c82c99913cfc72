-- ===== src/Keeper/Quotes.antt =====
-- keeper/src/sui/predict-quote.service.ts: live quotes and the sizing of a mint against them.
pub mod Mint
pub mod Reads
use leverx.Prelude.{
  ℕ, zero, suc, ◌*◌, ◌/◌, Bool, true, false, ◌&&◌, ◌||◌, Option, none, some, List, [], ◌∷◌,
}
use leverx.Prelude.Tests.{ltb, leb, ◌==◌, if◌then◌else◌}
use leverx.Keeper.Constants.{predict_quote_reference_quantity}
use leverx.Keeper.Types.{Text, PositionKeyArgs}
use leverx.Keeper.TradeMath.{estimate_quantity, max_mint_budget_atoms}
use leverx.Keeper.Ptb.{built}
use leverx.Keeper.Ptb.Reads.{
  build_market_ask, build_market_bid, build_read_predict_manager_id,
  build_read_manager_quote_balance, build_read_manager_open_quantity,
}
use leverx.Keeper.Effects.{M, return, outside, reading, ◌>>=◌}
use leverx.Keeper.Sui.{Sui, transaction}

abbrev pub quantity_or_reference : Option ℕ → ℕ
quantity_or_reference none = predict_quote_reference_quantity
quantity_or_reference (some q) = if ltb 0 q then q else predict_quote_reference_quantity

-- No pair, or a premium of zero, is no quote.
abbrev pub ask_pair : Option (ℕ × ℕ) → Option (ℕ × ℕ)
ask_pair none = none
ask_pair (some (premium, cost)) = if premium == 0 then none else some (premium, cost)

abbrev pub first_of_pair : Option (ℕ × ℕ) → Option ℕ
first_of_pair none = none
first_of_pair (some (premium, cost)) = some premium

pub record MintQuote : Type 0 where
  pub market_ask_per_unit : ℕ
  pub mint_cost : ℕ
  pub trade_quantity : ℕ

-- `id === '0x0' || /^0x0+$/i.test(id)`: a zero address, and also a missing or an empty one.
abbrev pub all_zeros : Text → Bool
all_zeros [] = true
all_zeros (c ∷ cs) = c == b'0' && all_zeros cs

abbrev pub is_zero_address : Text → Bool
is_zero_address (a ∷ b ∷ c ∷ cs) =
    a == b'0' && ((b == b'x' || b == b'X') && (c == b'0' && all_zeros cs))
is_zero_address _ = false

abbrev pub real_id : Option Text → Option Text
real_id none = none
real_id (some []) = none
real_id (some (c ∷ cs)) = if is_zero_address (c ∷ cs) then none else some (c ∷ cs)

module _ {W : Type 0} (sui : Sui W) where
  unfoldable pub fetch_market_ask_pair : PositionKeyArgs → Option ℕ → M W (Option (ℕ × ℕ))
  fetch_market_ask_pair key quantity = reading sui.get_config λ cfg. do
    tx ← transaction sui (built (build_market_ask cfg key (quantity_or_reference quantity)))
    pair ← outside (sui.inspect_u64_pair tx)
    return (ask_pair pair)

  unfoldable pub fetch_market_ask_per_unit : PositionKeyArgs → Option ℕ → M W (Option ℕ)
  fetch_market_ask_per_unit key quantity = do
    pair ← fetch_market_ask_pair key quantity
    return (first_of_pair pair)

  -- The attempts left, the budget and the quantity to try.
  unfoldable pub size_loop : ℕ → PositionKeyArgs → ℕ → ℕ → M W (Option MintQuote)
  size_loop zero key budget quantity = return none
  size_loop (suc attempts) key budget quantity = do
    at_qty ← fetch_market_ask_pair key (some quantity)
    elim at_qty [
      | none ↦ return none
      | some (ask, cost) ↦
          if ltb 0 cost && leb cost budget
          then return (
              some
                (record { market_ask_per_unit = ask; mint_cost = cost; trade_quantity = quantity }))
          else if cost == 0
          then (if leb quantity 1
              then return none
              else size_loop attempts key budget (quantity / 2))
          else (let scaled = quantity * budget / cost in
              if ltb scaled 1 then return none else size_loop attempts key budget scaled)
    ]

  unfoldable pub resolve_mint_quote : PositionKeyArgs → ℕ → ℕ → M W (Option MintQuote)
  resolve_mint_quote key margin_quote_atoms leverage_bps =
      let budget = max_mint_budget_atoms margin_quote_atoms leverage_bps in
      if budget == 0 then return none else (do
        ref_ask ← fetch_market_ask_per_unit key none
        elim ref_ask [
          | none ↦ return none
          | some ask ↦
              size_loop 12 key budget (estimate_quantity margin_quote_atoms leverage_bps ask)
        ])

  unfoldable pub fetch_market_bid_per_unit : PositionKeyArgs → Option ℕ → M W (Option ℕ)
  fetch_market_bid_per_unit key quantity = reading sui.get_config λ cfg. do
    tx ← transaction sui (built (build_market_bid cfg key (quantity_or_reference quantity)))
    pair ← outside (sui.inspect_u64_pair tx)
    return (first_of_pair (ask_pair pair))

  unfoldable pub fetch_predict_manager_id : Text → M W (Option Text)
  fetch_predict_manager_id account_id = reading sui.get_config λ cfg. do
    tx ← transaction sui (built (build_read_predict_manager_id cfg account_id))
    id ← outside (sui.inspect_id tx)
    return (real_id id)

  unfoldable pub fetch_manager_quote_balance : Text → M W (Option ℕ)
  fetch_manager_quote_balance predict_manager_id = reading sui.get_config λ cfg. do
    tx ← transaction sui (built (build_read_manager_quote_balance cfg predict_manager_id))
    outside (sui.inspect_u64 tx)

  unfoldable pub fetch_manager_open_quantity : Text → PositionKeyArgs → M W (Option ℕ)
  fetch_manager_open_quantity predict_manager_id key = reading sui.get_config λ cfg. do
    tx ← transaction sui (built (build_read_manager_open_quantity cfg predict_manager_id key))
    outside (sui.inspect_u64 tx)
