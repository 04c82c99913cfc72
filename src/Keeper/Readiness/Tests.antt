-- ===== src/Keeper/Readiness/Tests.antt =====
-- keeper/src/sui/sui.service.ts, `getTaskReadiness`, at concrete configurations.
use leverx.Prelude.{◌≡◌, refl, true, [], ◌∷◌}
use leverx.Prelude.Texts.{trim}
use leverx.Keeper.Types.{KeeperConfig}
use leverx.Keeper.Readiness.{is_set, require_all, task_readiness}
use leverx.Keeper.Samples.{config}

-- A package of blanks is reported twice.
abbrev blank_package : KeeperConfig
blank_package = record config { package_id = 32 ∷ [] }

missing_run : (task_readiness blank_package true).missing ≡ "packageId" ∷ "packageId" ∷ []
unfolding task_readiness require_all is_set trim
missing_run = refl
