-- ===== src/Keeper/Quotes/Mint.antt =====
-- keeper/src/sui/predict-quote.service.ts: what a resolved mint quote guarantees.
use leverx.Prelude.{
  ℕ, zero, suc, ◌*◌, ◌/◌, ◌≤◌, ◌<◌, ◌≡◌, true, false, ◌&&◌, Option, none, some, List, arith, inl,
  inr,
}
use leverx.Prelude.Tests.{ltb, leb, ◌==◌, Option-cases}
use leverx.Keeper.Constants.{predict_price_scale}
use leverx.Keeper.Types.{PositionKeyArgs, KeeperConfig}
use leverx.Keeper.Ptb.{Transaction}
use leverx.Keeper.Ptb.Reads.{build_market_ask}
use leverx.Keeper.TradeMath.{
  estimate_quantity, max_mint_budget_atoms, position_quote_atoms, cost_from_premium_per_unit,
}
use leverx.Keeper.TradeMath.Sizing.{max_mint_budget-le-position, estimate_quantity_fits, one-le-div}
use leverx.Keeper.Effects.{
  Event, Session, Reply, returned, thrown, M, return, reading, outside, ◌>>=◌, then_,
}
use leverx.Keeper.Effects.Rules.{Ensures, bind_rule, return_rule, if_rule, Post}
use leverx.Keeper.Sui.{Sui, transaction, serialise}
use leverx.Keeper.Quotes.{
  MintQuote, quantity_or_reference, fetch_market_ask_pair, fetch_market_ask_per_unit, size_loop,
  resolve_mint_quote,
}

-- No quote, or one that costs something and no more than the budget.
abbrev pub Fits : ℕ → Option MintQuote → Type 0
Fits budget none = Unit
Fits budget (some q) = (0 < q.mint_cost) × (q.mint_cost ≤ budget)

abbrev Any : List Event → Type 0
Any l = Unit

Any-Post : {W A : Type 0} (r : Reply A × Session W) → Post (λ _. Any) Any r
Any-Post (returned a, s) = tt
Any-Post (thrown e, s) = tt

budget-ne-zero : (p b : ℕ) → 0 < p → p ≤ b * predict_price_scale → (b == 0) ≡ false
budget-ne-zero p b h k = ground arith

some_units : (p q : ℕ) → predict_price_scale ≤ p * q → ltb 0 q ≡ true
some_units p zero h = absurd (omega arith)
some_units p (suc q) h = ground arith

cost_fits :
    (p q budget : ℕ)
    → 0 < p
    → predict_price_scale ≤ p * q
    → cost_from_premium_per_unit p q ≤ budget
    → (ltb 0 (cost_from_premium_per_unit p q) && leb (cost_from_premium_per_unit p q) budget) ≡ true
unfolding cost_from_premium_per_unit
cost_fits p q budget h k b =
    ground (arith, one-le-div (p * q) 1_000_000_000 (omega arith) k, some_units p q k)

premium-ne-zero : (p : ℕ) → 0 < p → (p == 0) ≡ false
premium-ne-zero p h = ground arith

module _ {W : Type 0} (sui : Sui W) where
  Any-rule : {A : Type 0} (m : M W A) → Ensures Any m (λ _. Any) Any
  Any-rule m = record { holds = λ s p. Any-Post (m s) }

  size_loop-Fits :
      (attempts : ℕ) (key : PositionKeyArgs) (budget quantity : ℕ)
      → Ensures Any (size_loop sui attempts key budget quantity) (λ o l. Fits budget o) Any
  unfolding size_loop
  size_loop-Fits zero key budget quantity = return_rule none λ l p. tt
  size_loop-Fits (suc attempts) key budget quantity =
      bind_rule (λ _. Any) (Any-rule _)
        λ pair. elim (Option-cases pair) [
          | inl e ↦ rw e (return_rule none λ l p. tt)
          | inr ((ask, cost), e) ↦ rw e (
              if_rule (ltb 0 cost && leb cost budget) _ _ (λ ok. return_rule _ λ l p. ground arith)
                λ no_fit.
                  if_rule (cost == 0) _ _
                    (λ free.
                      if_rule (leb quantity 1) _ _ (λ one. return_rule none λ l p. tt)
                        λ many. size_loop-Fits attempts key budget (quantity / 2))
                    λ costly.
                      if_rule (ltb (quantity * budget / cost) 1) _ _
                        (λ one. return_rule none λ l p. tt)
                        λ many. size_loop-Fits attempts key budget (quantity * budget / cost))
        ]

  resolve-Fits :
      (key : PositionKeyArgs) (margin leverage : ℕ)
      → Ensures Any
          (resolve_mint_quote sui key margin leverage)
          (λ o l. Fits (max_mint_budget_atoms margin leverage) o)
          Any
  unfolding resolve_mint_quote
  resolve-Fits key margin leverage =
      if_rule (max_mint_budget_atoms margin leverage == 0) _ _ (λ e. return_rule none λ l p. tt)
        λ e.
          bind_rule (λ _. Any) (Any-rule _)
            λ ask. elim (Option-cases ask) [
              | inl f ↦ rw f (return_rule none λ l p. tt)
              | inr (a, f) ↦ rw f (size_loop-Fits 12 key _ _)
            ]

  -- Whatever the market answers, a resolved quote costs something, and no more than the mint budget,
  -- which is no more than the leveraged position.
  pub resolve_mint_quote_fits :
      (key : PositionKeyArgs) (margin leverage : ℕ) (s t : Session W) (q : MintQuote)
      → resolve_mint_quote sui key margin leverage s ≡ (returned (some q), t)
      → (0 < q.mint_cost)
        × (q.mint_cost ≤ max_mint_budget_atoms margin leverage)
        × (q.mint_cost ≤ position_quote_atoms margin leverage)
  resolve_mint_quote_fits key margin leverage s t q e =
      let fits : Fits (max_mint_budget_atoms margin leverage) (some q) =
        rw e at ((resolve-Fits key margin leverage).holds s tt) in
      (fits.0, fits.1, omega (arith, fits.1, max_mint_budget-le-position margin leverage))

  size_loop_first :
      (attempts : ℕ) (key : PositionKeyArgs) (budget q ask cost : ℕ) (s : Session W)
      → fetch_market_ask_pair sui key (some q) s ≡ (returned (some (ask, cost)), s)
      → (ltb 0 cost && leb cost budget) ≡ true
      → size_loop sui (suc attempts) key budget q s ≡ (
        returned
            (some (record { market_ask_per_unit = ask; mint_cost = cost; trade_quantity = q })),
        s,
      )
  unfolding size_loop ◌>>=◌ return
  size_loop_first attempts key budget q ask cost s e f = rw (e, f, then_)

  module _ (key : PositionKeyArgs) (premium : ℕ)
      (accepts : (tx : Transaction) → sui.refuses tx ≡ none)
      (linear : (cfg : KeeperConfig) (q : ℕ) (w : W)
        → sui.inspect_u64_pair (build_market_ask cfg key q) w
          ≡ (returned (some (premium, cost_from_premium_per_unit premium q)), w)) where
    ask_at :
        (q : Option ℕ) (s : Session W)
        → 0 < premium
        → fetch_market_ask_pair sui key q s ≡ (
          returned (some (premium, cost_from_premium_per_unit premium (quantity_or_reference q))),
          s,
        )
    unfolding fetch_market_ask_pair reading transaction ◌>>=◌ outside return
    ask_at q s h = rw (accepts, linear, premium-ne-zero premium h, serialise)

    -- In a market with one price, sizing needs a single attempt: it resolves to the estimated quantity
    -- at that price, if the budget pays for a unit and the quantity costs at least an atom.
    pub resolve_mint_quote_linear :
        (margin leverage : ℕ) (s : Session W)
        → 0 < premium
        → premium ≤ max_mint_budget_atoms margin leverage * predict_price_scale
        → predict_price_scale ≤ premium * estimate_quantity margin leverage premium
        → let q = estimate_quantity margin leverage premium in
          resolve_mint_quote sui key margin leverage s ≡ (
            returned (
                some (record {
                  market_ask_per_unit = premium;
                  mint_cost = cost_from_premium_per_unit premium q;
                  trade_quantity = q;
                })),
            s,
          )
    unfolding resolve_mint_quote ◌>>=◌ return fetch_market_ask_per_unit
    resolve_mint_quote_linear margin leverage s h fits worth =
        let q = estimate_quantity margin leverage premium in
        let budget = max_mint_budget_atoms margin leverage in
        let bounds = estimate_quantity_fits margin leverage premium h fits in
        rw (
          budget-ne-zero premium budget h fits,
          ask_at none s h,
          size_loop_first 11 key budget q premium (cost_from_premium_per_unit premium q) s
              (rw (some_units premium q worth) at (ask_at (some q) s h))
              (cost_fits premium q budget h worth bounds.0),
        )
