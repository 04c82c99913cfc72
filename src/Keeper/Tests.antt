-- ===== src/Keeper/Tests.antt =====
-- The keeper's tasks at concrete inputs.
use leverx.Prelude.{ℕ, ◌≡◌, refl, ◌≤◌, ◌<◌, true, false, some, List, [], ◌∷◌, arith}
use leverx.Prelude.Lists.{take}
use leverx.Prelude.Texts.{Text}
use leverx.Keeper.Effects.{returned}
use leverx.Keeper.Effects.Rules.{Post}
use leverx.Keeper.Sui.Guard.{Extends, Confirms}
use leverx.Keeper.Indexer.{fetch_all_pages, merge_candidates, seen_before}
use leverx.Keeper.Indexer.Pages.{fetch_all_pages_complete}
use leverx.Keeper.Indexer.Merge.{Distinct, keys, merge_candidates_lem}
use leverx.Keeper.TradeMath.{
  max_mint_budget_atoms, position_quote_atoms, estimate_quantity, cost_from_premium_per_unit,
}
use leverx.Keeper.Quotes.{resolve_mint_quote, MintQuote}
use leverx.Keeper.Quotes.Mint.{resolve_mint_quote_fits, resolve_mint_quote_linear}
use leverx.Keeper.Ptb.Reads.{build_market_ask}
use leverx.Keeper.Ptb.{add_market_key}
use leverx.Keeper.Tasks.Submit.{Accounted}
use leverx.Keeper.Tasks.LimitOrders.{run}
use leverx.Keeper.Tasks.LimitOrders.Safety.{Reported, run-Reported}
use leverx.Keeper.Tasks.Triggers.{run_triggers, OnChainTriggers, action_for_bid}
use leverx.Keeper.Tasks.Triggers.Safety.{run_triggers-Accounted}
use leverx.Keeper.Tasks.Triggers.Decide.{Decides, action_for_bid-Decides}
use leverx.Keeper.Tasks.Liquidations.{run_liquidations}
use leverx.Keeper.Tasks.Liquidations.Safety.{run_liquidations-Accounted}
use leverx.Keeper.Tasks.ForceCloses.{run_force_closes}
use leverx.Keeper.Tasks.ForceCloses.Safety.{run_force_closes-Accounted}
use leverx.Keeper.Orchestrator.{KeeperTaskKind, all, run_kind, is_locked, is_running}
use leverx.Keeper.Orchestrator.Safety.{Honest, most_successes, run_kind-Honest}
use leverx.Keeper.Orchestrator.Locks.{
  Runs, start, Reachable, at_start, next, begin, runs_of, runs_of-le-one, is_locked-idle,
}
use leverx.Keeper.Samples.{position, key, sui, serve, services, orchestrator, session}

run-Reported_example : Post (Reported [] 5) (Extends []) (run services 5 true session)
run-Reported_example = run-Reported services 5 true session tt

run_liquidations-Accounted_example :
    Post (Accounted [] 5) (Confirms []) (run_liquidations services 5 session)
run_liquidations-Accounted_example = run_liquidations-Accounted services 5 session tt

run_force_closes-Accounted_example :
    Post (Accounted [] 5) (Extends []) (run_force_closes services 5 session)
run_force_closes-Accounted_example = run_force_closes-Accounted services 5 session tt

run_triggers-Accounted_example :
    Post (Accounted [] 5) (Confirms []) (run_triggers services 5 session)
run_triggers-Accounted_example = run_triggers-Accounted services 5 session tt

run_kind-Honest_example :
    Post
      (Honest [] (most_successes orchestrator))
      (λ l. ⊥)
      (run_kind orchestrator all start.running_kinds session)
run_kind-Honest_example = run_kind-Honest orchestrator all start.running_kinds session tt

abbrev triggers : OnChainTriggers
triggers = record {
  take_profit_premium = 700_000_000;
  stop_loss_premium = 300_000_000;
  take_profit_slippage_bps = 100;
  stop_loss_slippage_bps = 0;
}

action_for_bid-Decides_example :
    Decides triggers 250_000_000 (action_for_bid triggers (some 250_000_000))
action_for_bid-Decides_example = action_for_bid-Decides triggers 250_000_000

-- A run of all tasks is under way.
abbrev all_under_way : Runs
all_under_way = record {
  running_kinds = record start.running_kinds { all = true };
  under_way = record start.under_way { all = 1 };
}

all_under_way-Reachable : Reachable all_under_way
unfolding is_locked is_running
all_under_way-Reachable = next at_start (begin start all idle)
  where
    idle : is_locked start.running_kinds all ≡ false
    idle = refl

runs_of-le-one_example : runs_of KeeperTaskKind.trigger all_under_way.under_way ≤ 1
runs_of-le-one_example = runs_of-le-one all_under_way KeeperTaskKind.trigger all_under_way-Reachable

is_locked-idle_example : is_locked start.running_kinds all ≡ false
is_locked-idle_example = is_locked-idle start all at_start (omega arith)

merge_candidates_lem_example :
    Distinct (merge_candidates [] (position ∷ position ∷ []))
    × ((k : Text)
        → seen_before k (keys (merge_candidates [] (position ∷ position ∷ [])))
          ≡ seen_before k (keys (position ∷ position ∷ [])))
merge_candidates_lem_example = merge_candidates_lem (position ∷ position ∷ [])

abbrev numbers : List ℕ
numbers = 1 ∷ 2 ∷ 3 ∷ []

fetch_all_pages_complete_example :
    fetch_all_pages (serve numbers) 2 5_000 session ≡ (returned (take 5_000 numbers), session)
fetch_all_pages_complete_example =
    fetch_all_pages_complete (serve numbers) numbers 2 (λ o w. refl) (omega arith) 5_000 session

abbrev quote : MintQuote
quote = record {
  market_ask_per_unit = 500_000_000;
  mint_cost = 1_990_000;
  trade_quantity = 3_980_000;
}

resolve_mint_quote_linear_example :
    let q = estimate_quantity 1_000_000 20_000 500_000_000 in
    resolve_mint_quote sui key 1_000_000 20_000 session ≡ (
      returned (
          some (record {
            market_ask_per_unit = 500_000_000;
            mint_cost = cost_from_premium_per_unit 500_000_000 q;
            trade_quantity = q;
          })),
      session,
    )
unfolding max_mint_budget_atoms position_quote_atoms estimate_quantity build_market_ask
    add_market_key
resolve_mint_quote_linear_example =
    resolve_mint_quote_linear sui key 500_000_000 (λ tx. refl) (λ cfg q w. refl) 1_000_000 20_000
      session (omega arith) (omega arith) (omega arith)

resolved : resolve_mint_quote sui key 1_000_000 20_000 session ≡ (returned (some quote), session)
unfolding max_mint_budget_atoms position_quote_atoms estimate_quantity build_market_ask
    add_market_key cost_from_premium_per_unit
resolved =
    resolve_mint_quote_linear sui key 500_000_000 (λ tx. refl) (λ cfg q w. refl) 1_000_000 20_000
      session (omega arith) (omega arith) (omega arith)

resolve_mint_quote_fits_example :
    (0 < quote.mint_cost)
    × (quote.mint_cost ≤ max_mint_budget_atoms 1_000_000 20_000)
    × (quote.mint_cost ≤ position_quote_atoms 1_000_000 20_000)
resolve_mint_quote_fits_example =
    resolve_mint_quote_fits sui key 1_000_000 20_000 session session quote resolved
