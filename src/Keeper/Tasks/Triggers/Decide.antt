-- ===== src/Keeper/Tasks/Triggers/Decide.antt =====
-- keeper/src/tasks/trigger.service.ts: which trigger a bid fires.
use leverx.Prelude.{ℕ, ◌<◌, ◌≤◌, ◌≡◌, refl, Option, none, some, arith, ◌⊎◌, inl, inr, ◌&&◌}
use leverx.Prelude.Tests.{ltb, leb, ◌==◌, Bool-cases}
use leverx.Keeper.Tasks.Triggers.{
  OnChainTriggers, TriggerAction, TriggerKind, take_profit, stop_loss, action_for_bid,
}

-- A premium of 0 is a trigger that is not set.
abbrev TakesProfit : OnChainTriggers → ℕ → Type 0
TakesProfit t bid = (0 < t.take_profit_premium) × (t.take_profit_premium ≤ bid)

abbrev StopsLoss : OnChainTriggers → ℕ → Type 0
StopsLoss t bid = (0 < t.stop_loss_premium) × (bid ≤ t.stop_loss_premium)

-- What the decision for a bid means.
abbrev pub Decides : OnChainTriggers → ℕ → Option TriggerAction → Type 0
Decides t bid none = (bid ≡ 0) ⊎ (¬ TakesProfit t bid × ¬ StopsLoss t bid)
Decides t bid (some a) = (0 < bid) × (a.bid ≡ bid) × Chosen a.kind
  where
    Chosen : TriggerKind → Type 0
    Chosen take_profit = TakesProfit t bid
    Chosen stop_loss = StopsLoss t bid × ¬ TakesProfit t bid

-- A bid of 0 fires nothing; any other bid takes the profit if that premium is set and reached, else
-- stops the loss if that premium is set and not exceeded, else fires nothing.
pub action_for_bid-Decides :
    (t : OnChainTriggers) (bid : ℕ) → Decides t bid (action_for_bid t (some bid))
unfolding action_for_bid
action_for_bid-Decides t bid = elim (Bool-cases (bid == 0)) [
  | inl e ↦ rw e (inl (ground arith))
  | inr e ↦ elim (Bool-cases (ltb 0 t.take_profit_premium && leb t.take_profit_premium bid)) [
    | inl f ↦ rw (e, f) (ground arith, refl, ground arith)
    | inr f ↦ elim (Bool-cases (ltb 0 t.stop_loss_premium && leb bid t.stop_loss_premium)) [
      | inl g ↦ rw (e, f, g) (ground arith, refl, (ground arith, ground arith))
      | inr g ↦ rw (e, f, g) (inr (ground arith, ground arith))
    ]
  ]
]
