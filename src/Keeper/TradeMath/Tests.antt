-- ===== src/Keeper/TradeMath/Tests.antt =====
-- keeper/src/config/trade-math.ts at concrete inputs.
use leverx.Prelude.{ℕ, ◌<◌, ◌≤◌, ◌+◌, ◌*◌, ◌≡◌, refl, ◌⊎◌, true, arith}
use leverx.Prelude.Int.{negsuc}
use leverx.Keeper.Constants.{predict_price_scale}
use leverx.Keeper.TradeMath.{
  estimate_quantity, max_mint_budget_atoms, position_quote_atoms, cost_from_premium_per_unit,
  apply_slippage_bps, cap_max_mint_cost, min_payout_after_slippage, max_leverage_for_expiry,
  flash_borrow_amount_for_liquidation, has_liquidation_debt,
}
use leverx.Keeper.TradeMath.Sizing.{estimate_quantity_fits}
use leverx.Keeper.TradeMath.Debt.{IsBuffered, flash_borrow_covers}

estimate_quantity_run : estimate_quantity 1_000_000 20_000 500_000_000 ≡ 3_980_000
unfolding estimate_quantity max_mint_budget_atoms position_quote_atoms
estimate_quantity_run = refl

estimate_quantity_fits_example :
    let q = estimate_quantity 1_000_000 20_000 500_000_000 in
    let budget = max_mint_budget_atoms 1_000_000 20_000 in
    (cost_from_premium_per_unit 500_000_000 q ≤ budget)
    × (budget ≤ position_quote_atoms 1_000_000 20_000)
    × (budget * predict_price_scale < 500_000_000 * (q + 1))
unfolding max_mint_budget_atoms position_quote_atoms
estimate_quantity_fits_example =
    estimate_quantity_fits 1_000_000 20_000 500_000_000 (omega arith) (omega arith)

cap_max_mint_cost_run : cap_max_mint_cost 1_000_000 500 900_000 120_000 ≡ 1_020_000
unfolding cap_max_mint_cost apply_slippage_bps
cap_max_mint_cost_run = refl

min_payout_run : min_payout_after_slippage 1_000_000 10_100 ≡ negsuc 9_999
unfolding min_payout_after_slippage
min_payout_run = refl

max_leverage_run : max_leverage_for_expiry 10_000_000 4_000_000 1_800_000 10 ≡ 3
unfolding max_leverage_for_expiry
max_leverage_run = refl

flash_borrow_run : flash_borrow_amount_for_liquidation 2_000_000 0 500 ≡ 2_100_000
unfolding flash_borrow_amount_for_liquidation
flash_borrow_run = refl

flash_borrow_covers_example :
    let flash = flash_borrow_amount_for_liquidation 0 1_000_003 500 in
    (◌≡◌ {A = ℕ} 0 0 ⊎ IsBuffered 0 500 flash)
    × ((0 < 0) ⊎ (◌≡◌ {A = ℕ} 1_000_003 0) ⊎ IsBuffered 1_000_003 500 flash)
    × ((has_liquidation_debt 0 1_000_003 ≡ true) ⊎ (flash ≡ 1))
flash_borrow_covers_example = flash_borrow_covers 0 1_000_003 500
