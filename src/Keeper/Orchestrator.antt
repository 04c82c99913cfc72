-- ===== src/Keeper/Orchestrator.antt =====
-- keeper/src/tasks/keeper-orchestrator.service.ts: one run of the keeper's tasks, and the locks that
-- keep runs apart.
pub mod Locks
pub mod Safety
use Prim.Native.String.{String}
use leverx.Prelude.{ℕ, Bool, true, false, not, ◌&&◌, ◌||◌, List, [], ◌∷◌, ◌++◌, Option, none, some}
use leverx.Prelude.Tests.{if◌then◌else◌}
use leverx.Keeper.Types.{Message, code, logged}
use leverx.Keeper.Effects.{
  Reply, returned, thrown, Session, M, return, outside, reading, try_catch, branch, ◌>>=◌, ◌>>◌,
}
use leverx.Keeper.Tasks.{Services}
use leverx.Keeper.Tasks.LimitOrders.{run}
use leverx.Keeper.Tasks.Triggers.{run_triggers}
use leverx.Keeper.Tasks.Liquidations.{run_liquidations}
use leverx.Keeper.Tasks.ForceCloses.{run_force_closes}
use leverx.Keeper.Types.{TaskKind, TaskResult}

pub data KeeperTaskKind : Type 0 where
  limit_order liquidation trigger force_close all : KeeperTaskKind

-- A value for each kind, such as the membership in a set of kinds.
pub record PerKind (A : Type 0) : Type 0 where
  pub limit_order : A
  pub liquidation : A
  pub trigger : A
  pub force_close : A
  pub all : A

module _ {A : Type 0} where
  abbrev pub at : PerKind A → KeeperTaskKind → A
  at m limit_order = m.limit_order
  at m liquidation = m.liquidation
  at m trigger = m.trigger
  at m force_close = m.force_close
  at m all = m.all

  abbrev pub put : KeeperTaskKind → A → PerKind A → PerKind A
  put limit_order a m = record m { limit_order = a }
  put liquidation a m = record m { liquidation = a }
  put trigger a m = record m { trigger = a }
  put force_close a m = record m { force_close = a }
  put all a m = record m { all = a }

-- `runningKinds.size > 0`
unfoldable pub is_running : PerKind Bool → Bool
is_running kinds =
    kinds.limit_order || kinds.liquidation || kinds.trigger || kinds.force_close || kinds.all

unfoldable pub is_locked : PerKind Bool → KeeperTaskKind → Bool
unfolding is_running
is_locked kinds all = if kinds.all then true else is_running kinds
is_locked kinds limit_order = if kinds.all then true else kinds.limit_order
is_locked kinds liquidation = if kinds.all then true else kinds.liquidation
is_locked kinds trigger = if kinds.all then true else kinds.trigger
is_locked kinds force_close = if kinds.all then true else kinds.force_close

abbrev pub result_kind : KeeperTaskKind → TaskKind
result_kind limit_order = TaskKind.limit_order
result_kind liquidation = TaskKind.liquidation
result_kind trigger = TaskKind.trigger
result_kind force_close = TaskKind.force_close
result_kind all = TaskKind.all_tasks

-- `kind === 'all' || kind === task`
abbrev pub includes : KeeperTaskKind → KeeperTaskKind → Bool
includes all task = true
includes limit_order limit_order = true
includes liquidation liquidation = true
includes trigger trigger = true
includes force_close force_close = true
includes _ _ = false

pub record Limits : Type 0 where
  pub limit_fills : ℕ
  pub liquidations : ℕ
  pub force_closes : ℕ
  pub triggers : ℕ

abbrev pub run_failure : KeeperTaskKind → Message → TaskResult
run_failure kind message = record {
  kind = result_kind kind;
  target = b'-' ∷ [];
  success = false;
  digest = none;
  error = some message;
  missing = [];
}

-- Only a run of the triggers alone reports that they are paused.
abbrev pub when_paused : KeeperTaskKind → List TaskResult → List TaskResult
when_paused trigger results = results ++ (run_failure trigger (code "trading_paused") ∷ [])
when_paused _ results = results

module _ {W : Type 0} where
  -- `results.push(...(await task))` inside the `try`: the results so far survive a rejection, which
  -- ends the run.
  abbrev pub collect :
      KeeperTaskKind
      → List TaskResult
      → (List TaskResult → M W (List TaskResult))
      → Reply (List TaskResult) × Session W
      → Reply (List TaskResult) × Session W
  collect kind results go_on (returned rs, s) = go_on (results ++ rs) s
  collect kind results go_on (thrown e, s) =
      return (results ++ (run_failure kind (logged "keeper run failed" [] e) ∷ [])) s

  unfoldable pub phase :
      KeeperTaskKind
      → List TaskResult
      → M W (List TaskResult)
      → (List TaskResult → M W (List TaskResult))
      → M W (List TaskResult)
  phase kind results task go_on s = collect kind results go_on (task s)

  unfoldable pub phase_if :
      Bool
      → KeeperTaskKind
      → List TaskResult
      → M W (List TaskResult)
      → (List TaskResult → M W (List TaskResult))
      → M W (List TaskResult)
  unfolding phase
  phase_if wanted kind results task go_on =
      branch wanted (phase kind results task go_on) (go_on results)

-- The orchestrator's services. `notify` puts the results on the notification queue, and asks for a
-- scan for liquidations after a run that includes them.
pub record Orchestrator (W : Type 0) : Type 0 where
  pub services : Services W
  pub limits : Limits
  pub notifies : Bool
  pub notify : KeeperTaskKind → List TaskResult → W → Reply (Unit {0}) × W

module _ {W : Type 0} (o : Orchestrator W) where
  open o use {services, limits}

  unfoldable pub refresh : M W (List TaskResult)
  refresh = do outside services.sui.refresh_protocol_state; return []

  -- Triggers are gated by the pause; the other maintenance is not.
  unfoldable pub run_trigger_phase : KeeperTaskKind → Bool → List TaskResult → M W (List TaskResult)
  unfolding phase_if
  run_trigger_phase kind true results = return (when_paused kind results)
  run_trigger_phase kind false results =
      phase_if (includes kind trigger) kind results (run_triggers services limits.triggers) return

  unfoldable pub run_tasks : KeeperTaskKind → M W (List TaskResult)
  unfolding phase phase_if run_trigger_phase refresh
  run_tasks kind = phase kind [] refresh λ r₀. reading services.sui.is_trading_paused λ paused.
      phase_if (includes kind limit_order) kind r₀ (run services limits.limit_fills (not paused))
        λ r₁.
          phase_if (includes kind liquidation) kind r₁
            (run_liquidations services limits.liquidations)
            λ r₂.
              phase_if (includes kind force_close) kind r₂
                (run_force_closes services limits.force_closes)
                λ r₃. run_trigger_phase kind paused r₃

  -- A failure to notify is only logged.
  unfoldable pub notify_results : KeeperTaskKind → List TaskResult → M W (Unit {0})
  notify_results kind results =
      branch o.notifies (try_catch (outside (o.notify kind results)) λ err. return tt) (return tt)

  -- A run while the kinds `running` hold their locks.
  unfoldable pub run_kind : KeeperTaskKind → PerKind Bool → M W (List TaskResult)
  unfolding is_locked run_tasks notify_results
  run_kind kind running =
      branch (is_locked running kind) (return (run_failure kind (code "already_running") ∷ []))
        (do results ← run_tasks kind; notify_results kind results; return results)
