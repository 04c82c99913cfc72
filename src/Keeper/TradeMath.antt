-- ===== src/Keeper/TradeMath.antt =====
-- keeper/src/config/trade-math.ts. Amounts (`bigint`) and times in milliseconds are naturals: they
-- come from u64 fields. A difference that may be negative is an integer.
pub mod Sizing
pub mod Window
pub mod Debt
pub mod Tests
use leverx.Prelude.{ℕ, ◌+◌, ◌-◌, ◌*◌, ◌/◌, Bool, true, false, not, ◌&&◌, ◌||◌, min, max}
use leverx.Prelude.Tests.{ltb, leb, ◌==◌, if◌then◌else◌}
use leverx.Prelude.Int.{ℤ, pos, sub_ℕ, mul_ℕ, div_ℕ, leb_ℤ, ltb_ℤ, pos_part}
use leverx.Keeper.Constants.{
  min_leverage_bps, max_leverage_bps, mint_budget_safety_bps, predict_price_scale,
}

abbrev pub leverage_max : ℕ
leverage_max = max_leverage_bps / 10_000

abbrev pub leverage_min : ℕ
leverage_min = min_leverage_bps / 10_000

unfoldable pub apply_slippage_bps : ℕ → ℕ → ℕ
apply_slippage_bps amount slippage_bps = amount * (10_000 + slippage_bps) / 10_000

unfoldable pub position_quote_atoms : ℕ → ℕ → ℕ
position_quote_atoms margin_atoms leverage_bps = margin_atoms * leverage_bps / 10_000

unfoldable pub max_mint_budget_atoms : ℕ → ℕ → ℕ
max_mint_budget_atoms margin_atoms leverage_bps =
    let position = position_quote_atoms margin_atoms leverage_bps in
    position * (10_000 - mint_budget_safety_bps) / 10_000

unfoldable pub estimate_quantity : ℕ → ℕ → ℕ → ℕ
estimate_quantity margin_atoms leverage_bps premium_per_unit =
    if premium_per_unit == 0
    then 1
    else (let budget = max_mint_budget_atoms margin_atoms leverage_bps in
        let qty = budget * predict_price_scale / premium_per_unit in if ltb 0 qty then qty else 1)

unfoldable pub cost_from_premium_per_unit : ℕ → ℕ → ℕ
cost_from_premium_per_unit premium_per_unit quantity =
    if premium_per_unit == 0 || quantity == 0
    then 0
    else premium_per_unit * quantity / predict_price_scale

unfoldable pub cap_max_mint_cost : ℕ → ℕ → ℕ → ℕ → ℕ
unfolding apply_slippage_bps
cap_max_mint_cost mint_cost slippage_bps margin_atoms borrow_quote =
    let slippage_cap = apply_slippage_bps mint_cost slippage_bps in
    let funding_cap = margin_atoms + borrow_quote in
    if ltb slippage_cap funding_cap then slippage_cap else funding_cap

unfoldable pub redeem_payout_from_bid : ℕ → ℕ → ℕ
redeem_payout_from_bid bid_per_unit quantity = bid_per_unit * quantity / predict_price_scale

-- The floor is negative for a slippage above 100%.
unfoldable pub min_payout_after_slippage : ℕ → ℕ → ℤ
min_payout_after_slippage expected_payout slippage_bps =
    let floor = sub_ℕ 10_000 slippage_bps in div_ℕ (mul_ℕ expected_payout floor) 10_000

unfoldable pub is_final_hour_before_expiry : ℕ → ℕ → ℕ → Bool
is_final_hour_before_expiry expiry_ms now window_ms =
    if expiry_ms == 0
    then false
    else ltb now expiry_ms && leb_ℤ (sub_ℕ expiry_ms window_ms) (pos now)

unfoldable pub is_leveraged_mint_allowed : ℕ → ℕ → ℕ → ℕ → Bool
is_leveraged_mint_allowed expiry_ms leverage_bps now window_ms =
    if leb leverage_bps min_leverage_bps
    then true
    else if expiry_ms == 0
    then false
    else ltb_ℤ (pos now) (sub_ℕ expiry_ms window_ms)

unfoldable pub is_leveraged_mint_blocked : ℕ → ℕ → ℕ → Bool
unfolding is_leveraged_mint_allowed
is_leveraged_mint_blocked expiry_ms now window_ms =
    not (is_leveraged_mint_allowed expiry_ms (min_leverage_bps + 1) now window_ms)

unfoldable pub leverage_closes_at_ms : ℕ → ℕ → ℤ
leverage_closes_at_ms expiry_ms window_ms =
    if expiry_ms == 0 then pos 0 else sub_ℕ expiry_ms window_ms

unfoldable pub max_leverage_for_expiry : ℕ → ℕ → ℕ → ℕ → ℕ
max_leverage_for_expiry expiry_ms now window_ms leverage_max =
    if expiry_ms == 0
    then leverage_max
    else if window_ms == 0
    then leverage_max
    else (let remaining_ms = expiry_ms - now in
        if remaining_ms == 0
        then leverage_min
        else (let window_units = remaining_ms / window_ms in
            min leverage_max (max leverage_min window_units)))

-- The two figures in hours are kept as milliseconds over this divisor.
abbrev pub ms_per_hour : ℕ
ms_per_hour = 60 * 60 * 1000

pub record Hours : Type 0 where
  pub ms : ℕ
  pub per : ℕ

pub record FinalWindowContext : Type 0 where
  pub final_window_ms : ℕ
  pub in_final_window : Bool
  pub time_to_expiry_ms : ℕ
  pub time_to_expiry_hours : Hours
  pub hours_until_final_window : Hours
  pub leveraged_mint_blocked : Bool
  pub final_window_periods_remaining : ℕ
  pub max_leverage_for_time : ℕ
  pub leverage_closes_at_ms : ℤ
  pub ms_until_leverage_closes : ℕ

-- `Math.max(0, a - now)` of an integer `a`.
abbrev pub until_ms : ℤ → ℕ → ℕ
until_ms a now = pos_part a - now

unfoldable pub compute_final_window_context : ℕ → ℕ → ℕ → FinalWindowContext
unfolding is_final_hour_before_expiry is_leveraged_mint_blocked leverage_closes_at_ms
    max_leverage_for_expiry
compute_final_window_context expiry_ms now window_ms =
    let time = if ltb now expiry_ms then expiry_ms - now else 0 in
    let inside = is_final_hour_before_expiry expiry_ms now window_ms in
    let start = sub_ℕ expiry_ms window_ms in
    let until = if inside then 0 else until_ms start now in
    let closes = leverage_closes_at_ms expiry_ms window_ms in
    record {
      final_window_ms = window_ms;
      in_final_window = inside;
      time_to_expiry_ms = time;
      time_to_expiry_hours = record { ms = time; per = ms_per_hour };
      hours_until_final_window = record { ms = until; per = ms_per_hour };
      leveraged_mint_blocked = is_leveraged_mint_blocked expiry_ms now window_ms;
      final_window_periods_remaining =
          if ltb 0 time && ltb 0 window_ms then time / window_ms else 0;
      max_leverage_for_time = max_leverage_for_expiry expiry_ms now window_ms leverage_max;
      leverage_closes_at_ms = closes;
      ms_until_leverage_closes = until_ms closes now;
    }

unfoldable pub has_liquidation_debt : ℕ → ℕ → Bool
has_liquidation_debt borrow_quote margin_quote = ltb 0 borrow_quote || ltb 0 margin_quote

unfoldable pub flash_borrow_amount_for_liquidation : ℕ → ℕ → ℕ → ℕ
flash_borrow_amount_for_liquidation borrow_quote margin_quote buffer_bps =
    let principal = if ltb 0 borrow_quote then borrow_quote else margin_quote in
    if principal == 0 then 1 else principal + principal * buffer_bps / 10_000
