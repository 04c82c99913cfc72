-- ===== src/Keeper/Tasks/Liquidations/Safety.antt =====
-- keeper/src/tasks/liquidation.service.ts: what a run submits and reports.
use leverx.Prelude.{
  ℕ, ◌≡◌, refl, ap, sym, true, false, Bool, Option, none, some, List, [], ◌∷◌, ◌++◌, arith, inl,
  inr,
}
use leverx.Prelude.Tests.{Bool-cases}
use leverx.Keeper.Types.{Text, KeeperConfig, LeveragedPosition, TaskResult}
use leverx.Keeper.Ptb.{Transaction}
use leverx.Keeper.Effects.{Session}
use leverx.Keeper.Effects.Rules.{
  Post, Ensures, bind_rule, catch_rule, outside_rule, return_rule, reading_rule, weaken_rule,
  branch_rule,
}
use leverx.Keeper.Sui.{Simulation, sim_ok, sim_failed, is_sim_ok}
use leverx.Keeper.Sui.Guard.{
  Confirms, Inspected, IsGuarded, confirmations, transaction_rule, try_dev_inspect_rule,
  dev_inspect_rule, execute_rule,
}
use leverx.Keeper.Indexer.{Indexer, fetch_liquidation_candidates}
use leverx.Keeper.Indexer.Pages.{fetch_all_pages_rule}
use leverx.Keeper.Tasks.{Services}
use leverx.Keeper.Tasks.Submit.{no_gain, recount, Accounted, push_rule, none-Accounted}
use leverx.Keeper.Tasks.Results.{gained_digests, push}
use leverx.Keeper.Tasks.Liquidations.{
  write_off_or, resolve_flash_borrow_amount, execute_write_off, try_write_off_flat, is_liquidatable,
  submit_liquidation, liquidate, liquidate_if, try_liquidate, liquidation_loop, run_liquidations,
}

-- Reporting a failure instead of a failed write-off loses no confirmation.
gained_digests-write_off_or :
    (failure : TaskResult) (w : Option TaskResult)
    → failure.success ≡ false
    → gained_digests (some (write_off_or failure w)) ≡ gained_digests w
gained_digests-write_off_or failure none e = rw e refl
gained_digests-write_off_or failure (some r) e = elim (Bool-cases r.success) [
  | inl f ↦ rw f refl
  | inr f ↦ rw (f, e) refl
]

candidates_rule :
    {W : Type 0} (ix : Indexer W) (ds : List Text)
    → Ensures (Confirms ds) (fetch_liquidation_candidates ix) (λ _. Confirms ds) (Confirms ds)
unfolding fetch_liquidation_candidates
candidates_rule ix ds =
    bind_rule (λ _. Confirms ds) (fetch_all_pages_rule _ (Confirms ds) _ _)
      λ with_margin.
        bind_rule (λ _. Confirms ds) (fetch_all_pages_rule _ (Confirms ds) _ _)
          λ with_borrow. return_rule _ λ l p. p

module _ {W : Type 0} (sv : Services W) (ds : List Text) where
  amount_rule :
      (position : LeveragedPosition)
      → Ensures
          (Confirms ds)
          (resolve_flash_borrow_amount sv position)
          (λ _. Confirms ds)
          (Confirms ds)
  unfolding resolve_flash_borrow_amount
  amount_rule position = reading_rule _ λ cfg.
      bind_rule (λ _. Confirms ds) (transaction_rule sv.sui ds _)
        λ tx.
          bind_rule (λ _. Confirms ds) (outside_rule _ (λ l p a. p) (λ l p. p))
            λ quoted. return_rule _ λ l p. p

  pub is_liquidatable_rule :
      (position : LeveragedPosition)
      → Ensures (Confirms ds) (is_liquidatable sv position) (λ _. Confirms ds) (Confirms ds)
  unfolding is_liquidatable
  is_liquidatable_rule position = reading_rule _ λ cfg.
      bind_rule (λ _. Confirms ds) (transaction_rule sv.sui ds _)
        λ tx.
          bind_rule (λ _. Confirms ds) (outside_rule _ (λ l p a. p) (λ l p. p))
            λ r. return_rule _ λ l p. p

  execute_write_off_rule :
      (position : LeveragedPosition) (tx : Transaction)
      → Ensures
          (Inspected ds tx true)
          (execute_write_off sv position tx)
          (λ r. Confirms (ds ++ gained_digests r))
          (Confirms ds)
  unfolding execute_write_off
  execute_write_off_rule position tx =
      catch_rule (Confirms ds)
        (bind_rule (λ d. Confirms (ds ++ (d ∷ []))) (execute_rule sv.sui ds tx)
          λ d. return_rule _ λ l p. p)
        λ e. return_rule _ λ l p. no_gain ds l p

  if_ready :
      (position : LeveragedPosition) (tx : Transaction) (ready : Bool)
      → ready ≡ true
      → Ensures
          (Inspected ds tx ready)
          (execute_write_off sv position tx)
          (λ r. Confirms (ds ++ gained_digests r))
          (Confirms ds)
  if_ready position tx false e = absurd (ground arith)
  if_ready position tx true e = execute_write_off_rule position tx

  write_off_rule :
      (position : LeveragedPosition)
      → Ensures
          (Confirms ds)
          (try_write_off_flat sv position)
          (λ r. Confirms (ds ++ gained_digests r))
          (Confirms ds)
  unfolding try_write_off_flat
  write_off_rule position = reading_rule _ λ now.
      branch_rule _ (λ e. return_rule _ λ l p. no_gain ds l p)
        λ e.
          branch_rule _ (λ f. return_rule _ λ l p. no_gain ds l p)
            λ f. reading_rule _ λ cfg.
              bind_rule (λ _. Confirms ds) (transaction_rule sv.sui ds _)
                λ tx.
                  bind_rule (λ ready. Inspected ds tx ready) (dev_inspect_rule sv.sui ds tx)
                    λ ready.
                      branch_rule _ (λ g. return_rule _ λ l p. no_gain ds l p.counts)
                        λ g. if_ready position tx ready (ground arith)

  submit_rule :
      (position : LeveragedPosition) (tx : Transaction) (sim : Simulation)
      → Ensures
          (Inspected ds tx (is_sim_ok sim))
          (submit_liquidation sv position tx sim)
          (λ r. Confirms (ds ++ gained_digests r))
          (Confirms ds)
  unfolding submit_liquidation
  submit_rule position tx sim_ok =
      bind_rule (λ d. Confirms (ds ++ (d ∷ []))) (execute_rule sv.sui ds tx)
        λ d. return_rule _ λ l p. p
  submit_rule position tx (sim_failed e) =
      weaken_rule (λ l p. p.counts) (λ r l p. p) (λ l p. p)
        (bind_rule (λ w. Confirms (ds ++ gained_digests w)) (write_off_rule position)
          λ w.
            return_rule _
              λ l p. recount l (ap (λ t. ds ++ t) (sym (gained_digests-write_off_or _ w refl))) p)

module _ {W : Type 0} (sv : Services W) (cfg : KeeperConfig) (ds : List Text) where
  liquidate_rule :
      (position : LeveragedPosition)
      → Ensures
          (Confirms ds)
          (liquidate sv cfg position)
          (λ r. Confirms (ds ++ gained_digests r))
          (Confirms ds)
  unfolding liquidate
  liquidate_rule position =
      bind_rule (λ _. Confirms ds) (amount_rule sv ds position)
        λ amount.
          bind_rule (λ _. Confirms ds) (transaction_rule sv.sui ds _)
            λ tx.
              bind_rule _ (try_dev_inspect_rule sv.sui ds tx)
                λ sim. submit_rule sv ds position tx sim

  liquidate_if_rule :
      (position : LeveragedPosition) (liquidatable : Option Bool)
      → Ensures
          (Confirms ds)
          (liquidate_if sv cfg position liquidatable)
          (λ r. Confirms (ds ++ gained_digests r))
          (Confirms ds)
  unfolding liquidate_if
  liquidate_if_rule position none = return_rule _ λ l p. no_gain ds l p
  liquidate_if_rule position (some false) = return_rule _ λ l p. no_gain ds l p
  liquidate_if_rule position (some true) = liquidate_rule position

  -- One attempt never rejects, and gains exactly what it confirms.
  try_liquidate_rule :
      (position : LeveragedPosition)
      → Ensures
          (Confirms ds)
          (try_liquidate sv cfg position)
          (λ r. Confirms (ds ++ gained_digests r))
          (λ l. ⊥)
  unfolding try_liquidate
  try_liquidate_rule position =
      catch_rule (Confirms ds)
        (branch_rule _ (λ e. return_rule _ λ l p. no_gain ds l p)
          λ e.
            branch_rule _ (λ f. write_off_rule sv ds position)
              λ f.
                bind_rule (λ _. Confirms ds) (is_liquidatable_rule sv ds position)
                  λ b. liquidate_if_rule position b)
        λ e. return_rule _ λ l p. no_gain ds l p

module _ {W : Type 0} (sv : Services W) (ds : List Text) (limit : ℕ) where
  loop_rule :
      (cfg : KeeperConfig) (positions : List LeveragedPosition) (results : List TaskResult)
      → Ensures
          (Accounted ds limit results)
          (liquidation_loop sv cfg limit positions results)
          (Accounted ds limit)
          (λ l. ⊥)
  unfolding liquidation_loop
  loop_rule cfg [] results = return_rule _ λ l p. p
  loop_rule cfg (p ∷ ps) results =
      branch_rule _ (λ e. return_rule _ λ l q. q)
        λ e.
          bind_rule (λ r. Accounted ds limit (push results r))
            (push_rule ds limit results e λ k. try_liquidate_rule sv cfg k p)
            λ r. loop_rule cfg ps (push results r)

  pub run_rule :
      Ensures (Confirms ds) (run_liquidations sv limit) (Accounted ds limit) (Confirms ds)
  unfolding run_liquidations
  run_rule = reading_rule _ λ cfg. reading_rule _ λ readiness.
      branch_rule _ (λ e. return_rule _ λ l p. none-Accounted ds limit _ l refl refl p)
        λ e.
          bind_rule (λ _. Confirms ds) (candidates_rule sv.indexer ds)
            λ positions.
              weaken_rule (λ l p. none-Accounted ds limit [] l refl refl p) (λ rs l p. p)
                (λ l p. absurd p) (loop_rule cfg positions [])

module _ {W : Type 0} (sv : Services W) where
  -- A run of the liquidation task from a guarded log keeps it guarded, for liquidations and for the
  -- write-offs they fall back to: each submission follows a successful simulation of the same transaction,
  -- with nothing between the two but unconfirmed attempts to submit it. If the run resolves, the digests
  -- that the node confirmed since its start are exactly those of its successful results, in their order, at
  -- most `limit`; if it rejects, the node confirmed none.
  pub run_liquidations-Accounted :
      (limit : ℕ) (s : Session W)
      → IsGuarded s.log
      → Post
          (Accounted (confirmations s.log) limit)
          (Confirms (confirmations s.log))
          (run_liquidations sv limit s)
  run_liquidations-Accounted limit s guarded =
      (run_rule sv (confirmations s.log) limit).holds s
        (record { guarded = guarded; digests = refl })
