-- ===== src/Keeper/Readiness.antt =====
-- keeper/src/sui/sui.service.ts, `getTaskReadiness`: what is missing before the keeper can sign.
pub mod Missing
pub mod Tests
use Prim.Native.String.{String}
use leverx.Prelude.{Bool, true, false, not, ◌&&◌, List, [], ◌∷◌, ◌++◌}
use leverx.Prelude.Tests.{if◌then◌else◌}
use leverx.Prelude.Texts.{Text, trim}
use leverx.Keeper.Types.{KeeperConfig}
use leverx.Keeper.Sui.{TaskReadiness}

abbrev pub is_empty_text : Text → Bool
is_empty_text [] = true
is_empty_text (c ∷ cs) = false

-- A value that is not blank.
unfoldable pub is_set : Text → Bool
is_set value = not (is_empty_text (trim value))

-- A chain `require(a) && require(b) && …`, which stops at the first value that is not set and pushes
-- its label.
unfoldable pub require_all : List (Text × String) → List String → Bool × List String
require_all [] missing = (true, missing)
require_all ((value, label) ∷ rest) missing =
    let all_set = require_all rest missing in
    if is_set value then all_set else (false, missing ++ (label ∷ []))

abbrev pub core_values : KeeperConfig → List (Text × String)
core_values cfg =
    (cfg.package_id, "packageId")
    ∷ (cfg.registry_id, "registryId")
    ∷ (cfg.vault_id, "vaultId")
    ∷ (cfg.fee_collector_id, "feeCollectorId")
    ∷ (cfg.predict_id, "predictId")
    ∷ (cfg.predict_package_id, "predictPackageId")
    ∷ (cfg.quote_type, "quoteType")
    ∷ []

-- `has_keypair` is whether a private key was loaded. The package is asked for twice.
unfoldable pub task_readiness : KeeperConfig → Bool → TaskReadiness
task_readiness cfg has_keypair =
    let missing_key = if has_keypair then [] else "KEEPER_PRIVATE_KEY" ∷ [] in
    let (core, missing_core) = require_all (core_values cfg) missing_key in
    let (package_set, missing) = require_all ((cfg.package_id, "packageId") ∷ []) missing_core in
    record {
      tx_ready = core && has_keypair;
      limit_order = package_set && has_keypair;
      liquidation = core;
      trigger = core;
      force_close = core;
      missing = missing;
    }
