-- ===== src/Keeper/TradeMath/Sizing.antt =====
-- keeper/src/config/trade-math.ts: the sizing of a mint and the slippage bounds.
use leverx.Prelude.{ℕ, ◌-◌, ◌+◌, ◌*◌, ◌≤◌, ◌<◌, ◌≡◌, refl, arith, ◌/◌, min}
use leverx.Prelude.{inl, inr}
use leverx.Prelude.Tests.{Bool-cases, leb, leb→le}
use leverx.Prelude.Int.{pos, ◌≤ℤ◌, pos_part, neg_part}
use leverx.Keeper.Constants.{predict_price_scale}
use leverx.Keeper.TradeMath.{
  apply_slippage_bps, position_quote_atoms, max_mint_budget_atoms, estimate_quantity,
  cost_from_premium_per_unit, cap_max_mint_cost, min_payout_after_slippage,
}

pub max_mint_budget-le-position :
    (margin leverage : ℕ)
    → max_mint_budget_atoms margin leverage ≤ position_quote_atoms margin leverage
unfolding max_mint_budget_atoms
max_mint_budget-le-position margin leverage = omega arith

pub div-mul-le : (a b : ℕ) → 0 < b → a / b * b ≤ a
div-mul-le a b h = grind arith

pub lt-div-suc-mul : (a b : ℕ) → 0 < b → a < (a / b + 1) * b
lt-div-suc-mul a b h = grind arith

pub one-le-div : (a b : ℕ) → 0 < b → b ≤ a → 1 ≤ a / b
one-le-div a b h k = grind arith

div-le_of_le_mul : (a b c : ℕ) → 0 < c → a ≤ b * c → a / c ≤ b
div-le_of_le_mul a b c h k = grind (arith, div-mul-le)

estimate_quantity-eq-div :
    (margin leverage premium : ℕ)
    → 0 < premium
    → premium ≤ max_mint_budget_atoms margin leverage * predict_price_scale
    → estimate_quantity margin leverage premium
      ≡ max_mint_budget_atoms margin leverage * predict_price_scale / premium
unfolding estimate_quantity
estimate_quantity-eq-div margin leverage premium h fits =
    ground (
      arith,
      one-le-div (max_mint_budget_atoms margin leverage * predict_price_scale) premium h fits,
    )

cost-le :
    (premium q budget : ℕ)
    → premium * q ≤ budget * predict_price_scale
    → cost_from_premium_per_unit premium q ≤ budget
unfolding cost_from_premium_per_unit
cost-le premium q budget h = ground (arith, div-le_of_le_mul (premium * q) budget 1_000_000_000)

-- If the premium is positive and the budget pays for at least one unit, the estimated quantity costs no
-- more than the budget and the budget no more than the leveraged position; the price of one more unit,
-- before it is rounded down to an atom, would exceed the budget.
pub estimate_quantity_fits :
    (margin leverage premium : ℕ)
    → 0 < premium
    → premium ≤ max_mint_budget_atoms margin leverage * predict_price_scale
    → let q = estimate_quantity margin leverage premium in
      let budget = max_mint_budget_atoms margin leverage in
      (cost_from_premium_per_unit premium q ≤ budget)
      × (budget ≤ position_quote_atoms margin leverage)
      × (budget * predict_price_scale < premium * (q + 1))
estimate_quantity_fits margin leverage premium h fits =
    let total = max_mint_budget_atoms margin leverage * predict_price_scale in
    rw (estimate_quantity-eq-div margin leverage premium h fits) (
      cost-le premium (total / premium) _ (omega (arith, div-mul-le total premium h)),
      max_mint_budget-le-position margin leverage,
      omega (arith, lt-div-suc-mul total premium h),
    )

-- The capped mint cost never exceeds margin plus borrow, never exceeds the cost with its slippage, and
-- still covers the quoted cost whenever margin plus borrow does.
pub cap_max_mint_cost_bounds :
    (mint_cost slippage_bps margin borrow : ℕ)
    → let cap = cap_max_mint_cost mint_cost slippage_bps margin borrow in
      (cap ≤ margin + borrow)
      × (cap ≤ apply_slippage_bps mint_cost slippage_bps)
      × (min mint_cost (margin + borrow) ≤ cap)
unfolding cap_max_mint_cost
cap_max_mint_cost_bounds mint_cost slippage_bps margin borrow = ground arith

pub div_mono : (a b c : ℕ) → a ≤ b → a / c ≤ b / c
div_mono a b c h = grind arith

mul_mono : (e a b : ℕ) → a ≤ b → e * a ≤ e * b
mul_mono e a b h = grind arith

-- The two signed parts of the floor; the differences stop at zero.
min_payout_parts :
    (expected slippage : ℕ)
    → (pos_part (min_payout_after_slippage expected slippage)
        ≡ expected * (10_000 - slippage) / 10_000)
      × (neg_part (min_payout_after_slippage expected slippage)
          ≡ expected * (slippage - 10_000) / 10_000)
unfolding min_payout_after_slippage
min_payout_parts expected slippage = elim (Bool-cases (leb slippage 10_000)) [
  | inl e ↦ rw e (refl, ground (arith, leb→le slippage 10_000 e))
  | inr e ↦ rw e (ground arith)
]

-- Up to 100% of slippage the payout floor lies between zero and the expected payout.
pub min_payout_after_slippage_bounds :
    (expected slippage : ℕ)
    → slippage ≤ 10_000
    → (pos 0 ≤ℤ min_payout_after_slippage expected slippage)
      × (min_payout_after_slippage expected slippage ≤ℤ pos expected)
min_payout_after_slippage_bounds expected slippage h =
    let parts = min_payout_parts expected slippage in
    let up = div_mono _ _ 10_000 (mul_mono expected (10_000 - slippage) 10_000 (omega arith)) in
    (
      omega (arith, parts, mul_mono expected (slippage - 10_000) 0 (omega arith)),
      omega (arith, parts, up),
    )

-- Above 100% of slippage the payout floor is negative, once the excess is worth an atom.
pub min_payout_after_slippage_negative :
    (expected slippage : ℕ)
    → 10_000 < slippage
    → 10_000 ≤ expected * (slippage - 10_000)
    → 1 ≤ neg_part (min_payout_after_slippage expected slippage)
min_payout_after_slippage_negative expected slippage h k =
    omega (arith, min_payout_parts expected slippage)

-- A larger slippage never raises the payout floor.
pub min_payout_after_slippage_antitone :
    (expected s t : ℕ)
    → s ≤ t
    → min_payout_after_slippage expected t ≤ℤ min_payout_after_slippage expected s
min_payout_after_slippage_antitone expected s t h = omega (
  arith,
  min_payout_parts expected s,
  min_payout_parts expected t,
  div_mono _ _ 10_000 (mul_mono expected (10_000 - t) (10_000 - s) (omega arith)),
  div_mono _ _ 10_000 (mul_mono expected (s - 10_000) (t - 10_000) (omega arith)),
)
