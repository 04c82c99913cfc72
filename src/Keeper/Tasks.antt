-- ===== src/Keeper/Tasks.antt =====
-- keeper/src/tasks: what the four maintenance services share.
pub mod Results
pub mod Submit
pub mod LimitOrders
pub mod Triggers
pub mod Liquidations
pub mod ForceCloses
use Prim.Native.String.{String}
use leverx.Prelude.{ℕ, Bool, true, false, Option, none, some, List, [], ◌∷◌}
use leverx.Keeper.Types.{Text, Message, code, TaskKind, TaskResult}
use leverx.Keeper.Ptb.{Transaction}
use leverx.Keeper.Effects.{Reply, M, return, ◌>>=◌}
use leverx.Keeper.Sui.{Sui, TaskReadiness, Simulation, sim_ok, sim_failed, execute}
use leverx.Keeper.Indexer.{Indexer}

-- The services that a task is constructed with. `describe` is the lookup of a Move abort's message
-- (keeper/src/lib/move-abort.ts); `oracle_state` fetches and parses an oracle's state from the Predict
-- server: nothing if the reply is not usable, else whether it reads as settled.
pub record Services (W : Type 0) : Type 0 where
  pub sui : Sui W
  pub indexer : Indexer W
  pub describe : String → Option String
  pub oracle_state : Text → W → Reply (Option Bool) × W

unfoldable pub simulation_failure_message : (String → Option String) → String → Message
simulation_failure_message describe error = elim (describe error) [
  | none ↦ code "simulation_failed"
  | some hint ↦ code hint
]

abbrev pub succeeded : TaskKind → Text → Text → TaskResult
succeeded kind target digest = record {
  kind = kind;
  target = target;
  success = true;
  digest = some digest;
  error = none;
  missing = [];
}

abbrev pub failed : TaskKind → Text → Message → TaskResult
failed kind target error = record {
  kind = kind;
  target = target;
  success = false;
  digest = none;
  error = some error;
  missing = [];
}

-- The single result of a task that is not configured; its target is `-`.
abbrev pub not_configured : TaskKind → List String → List TaskResult
not_configured kind missing =
    record {
      kind = kind;
      target = b'-' ∷ [];
      success = false;
      digest = none;
      error = some (code "keeper_not_configured");
      missing = missing;
    }
    ∷ []

-- What every task does with a simulation: report the failure, or execute and report the digest.
unfoldable pub execute_if_ok :
    {W A : Type 0} → Sui W → Transaction → Simulation → (String → M W A) → (Text → A) → M W A
execute_if_ok sui tx (sim_failed e) on_failure report = on_failure e
execute_if_ok sui tx sim_ok on_failure report = do digest ← execute sui tx; return (report digest)
