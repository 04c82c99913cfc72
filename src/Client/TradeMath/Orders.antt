-- ===== src/Client/TradeMath/Orders.antt =====
-- app/src/lib/leverx/trade-math.ts: prices and sizes as the client computes them, against one another and
-- against the keeper's.
use leverx.Prelude.{
  ℕ, ◌+◌, ◌-◌, ◌*◌, ◌/◌, ◌≤◌, ◌<◌, ◌≡◌, ◌↔◌, true, inl, inr, not, ◌||◌, some, arith,
}
use leverx.Prelude.Tests.{leb, Bool-cases, leb→le}
use leverx.Keeper.Types.{LimitMintOrder}
use leverx.Keeper.TradeMath.Sizing.{div-mul-le, lt-div-suc-mul}
use leverx.Keeper.Tasks.LimitOrders.{ask_fills, max_premium}
use leverx.Client.TradeMath.{
  predict_price_scale, cost_from_premium_per_unit, premium_per_unit_from_mint_cost,
  premium_slippage_tolerance, max_acceptable_buy_ask, is_limit_buy_fillable_now,
  is_placement_price_aligned,
}

tolerance_lem :
    (premium slippage : ℕ)
    → premium_slippage_tolerance premium slippage ≡ premium * slippage / 10_000
unfolding premium_slippage_tolerance
tolerance_lem premium slippage = ground arith

-- A limit order with a price is fillable for the client at an ask exactly if the keeper fills it at
-- that ask, and a price that is aligned for placing the order fills it at once.
pub fills_agree :
    (order : LimitMintOrder) (ask : ℕ)
    → 0 < order.limit_premium_per_unit
    → 0 < ask
    → (is_limit_buy_fillable_now ask order.limit_premium_per_unit order.slippage_bps
        ≡ ask_fills order (some ask))
      × ((not (is_placement_price_aligned ask order.limit_premium_per_unit order.slippage_bps)
            || ask_fills order (some ask))
          ≡ true)
unfolding is_limit_buy_fillable_now max_acceptable_buy_ask max_premium is_placement_price_aligned
fills_agree order ask priced asked =
    let tolerance = tolerance_lem order.limit_premium_per_unit order.slippage_bps in
    (rw tolerance (ground arith), rw tolerance (ground arith))

mul_mono_left : (a b e : ℕ) → a ≤ b → a * e ≤ b * e
mul_mono_left a b e h = grind arith

ceiling_le : (a b p : ℕ) → 0 < b → ((a + b - 1) / b ≤ p) ↔ (a ≤ p * b)
ceiling_le a b p h =
    let k = (a + b - 1) / b in
    (
      (λ le. omega (arith, lt-div-suc-mul (a + b - 1) b h, mul_mono_left k p b le)),
      (λ le. elim (Bool-cases (leb k p)) [
        | inl e ↦ leb→le k p e
        | inr e ↦
            absurd
              (omega (arith, div-mul-le (a + b - 1) b h, mul_mono_left (p + 1) k b (ground arith)))
      ]),
    )

cost_lem :
    (premium quantity : ℕ)
    → cost_from_premium_per_unit premium quantity ≡ premium * quantity / predict_price_scale
unfolding cost_from_premium_per_unit
cost_lem premium quantity = ground arith

premium_lem :
    (cost quantity : ℕ)
    → 0 < cost
    → 0 < quantity
    → premium_per_unit_from_mint_cost cost quantity
      ≡ (cost * predict_price_scale + quantity - 1) / quantity
unfolding premium_per_unit_from_mint_cost
premium_lem cost quantity c q = ground arith

-- The premium of a cost is the least one at which the quantity costs as much.
pub premium_is_least :
    (cost quantity premium : ℕ)
    → 0 < cost
    → 0 < quantity
    → (cost ≤ cost_from_premium_per_unit premium quantity)
      ↔ (premium_per_unit_from_mint_cost cost quantity ≤ premium)
premium_is_least cost quantity premium c q =
    let (least, covers) = ceiling_le (cost * predict_price_scale) quantity premium q in
    rw (cost_lem premium quantity, premium_lem cost quantity c q)
      ((λ le. covers (omega arith)), (λ le. omega (arith, least le)))
