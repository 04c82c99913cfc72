-- ===== src/Client/TradeMath/Tests.antt =====
-- The client's trade math at concrete inputs.
use leverx.Prelude.{◌≤◌, ◌≡◌, refl, ◌↔◌, true, not, ◌||◌, some, arith}
use leverx.Prelude.Int.{pos, negsuc}
use leverx.Prelude.Texts.{text, trim}
use leverx.Prelude.Texts.Split.{split}
use leverx.Prelude.Decimal.{to_string}
use leverx.Keeper.Samples.{order}
use leverx.Keeper.Tasks.LimitOrders.{ask_fills}
use leverx.Client.TradeMath.{
  cost_from_premium_per_unit, premium_per_unit_from_mint_cost, is_limit_buy_fillable_now,
  is_placement_price_aligned, parse_usd_input_to_quote_atoms, format_quote_atoms_to_usd_input,
}
use leverx.Client.TradeMath.Orders.{fills_agree, premium_is_least}
use leverx.Client.TradeMath.Dollars.{parse-format_usd}
use native.Mathlib.Decide.{dec_lt}

fills_agree_example :
    (is_limit_buy_fillable_now 5 order.limit_premium_per_unit order.slippage_bps
      ≡ ask_fills order (some 5))
    × ((not (is_placement_price_aligned 5 order.limit_premium_per_unit order.slippage_bps)
          || ask_fills order (some 5))
        ≡ true)
fills_agree_example = fills_agree order 5 (omega arith) (omega arith)

premium_is_least_example :
    (7 ≤ cost_from_premium_per_unit 2_400_000_000 3)
    ↔ (premium_per_unit_from_mint_cost 7 3 ≤ 2_400_000_000)
premium_is_least_example = premium_is_least 7 3 2_400_000_000 (omega arith) (omega arith)

parse-format_usd_example :
    parse_usd_input_to_quote_atoms (format_quote_atoms_to_usd_input 12_000_450 6) ≡ pos 12_000_450
parse-format_usd_example = parse-format_usd 12_000_450

shown : format_quote_atoms_to_usd_input 12_000_450 6 ≡ text "12.000450"
unfolding format_quote_atoms_to_usd_input to_string dec_lt
shown = refl

typed :
    (parse_usd_input_to_quote_atoms (text " 1.5 ") ≡ pos 1_500_000)
    × (parse_usd_input_to_quote_atoms (text "-0.0000019") ≡ negsuc 0)
    × (parse_usd_input_to_quote_atoms (text ".5") ≡ pos 0)
    × (parse_usd_input_to_quote_atoms (text "1.5.9") ≡ pos 1_500_000)
unfolding parse_usd_input_to_quote_atoms trim split
typed = (refl, refl, refl, refl)
