-- ===== src/Keeper/Constants.antt =====
-- keeper/src/config/constants.ts: the numbers that the keeper's modules share.
use leverx.Prelude.{ℕ}

abbrev pub min_leverage_bps : ℕ
min_leverage_bps = 10_000

abbrev pub max_leverage_bps : ℕ
max_leverage_bps = 100_000

abbrev pub default_final_window_ms : ℕ
default_final_window_ms = 1_800_000

abbrev pub min_final_window_ms : ℕ
min_final_window_ms = 60_000

abbrev pub max_final_window_ms : ℕ
max_final_window_ms = 14_400_000

abbrev pub default_liquidation_bps : ℕ
default_liquidation_bps = 10_500

abbrev pub max_liquidation_bps : ℕ
max_liquidation_bps = 15_000

abbrev pub flash_borrow_buffer_bps : ℕ
flash_borrow_buffer_bps = 500

abbrev pub default_trigger_slippage_bps : ℕ
default_trigger_slippage_bps = 500

abbrev pub trigger_redeem_slippage_bps : ℕ
trigger_redeem_slippage_bps = default_trigger_slippage_bps

abbrev pub predict_price_scale : ℕ
predict_price_scale = 1_000_000_000

abbrev pub mint_budget_safety_bps : ℕ
mint_budget_safety_bps = 50

abbrev pub predict_quote_reference_quantity : ℕ
predict_quote_reference_quantity = 1_000_000
