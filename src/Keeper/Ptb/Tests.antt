-- ===== src/Keeper/Ptb/Tests.antt =====
-- keeper/src/sui/ptb-builder.service.ts at concrete inputs.
use leverx.Prelude.{◌≡◌, arith, []}
use leverx.Prelude.Lists.{length}
use leverx.Keeper.Ptb.Maintenance.{build_liquidation}
use leverx.Keeper.Ptb.Request.{build_request, liquidate}
use leverx.Keeper.Ptb.Allowed.{IsAllowed, IsConfigured, Returns, build_request-IsAllowed}
use leverx.Keeper.Ptb.Scope.{IsScoped, uses, build_request-IsScoped, build_liquidation_linear}
use leverx.Keeper.Samples.{config, position}

config-IsConfigured : IsConfigured config
config-IsConfigured = record {
  package_set = λ e. absurd (ground arith);
  predict_package_set = λ e. absurd (ground arith);
}

build_request-IsAllowed_example :
    Returns (IsAllowed config) (build_request config (liquidate position 2_100_000))
build_request-IsAllowed_example =
    build_request-IsAllowed config (liquidate position 2_100_000) config-IsConfigured

build_request-IsScoped_example :
    Returns (IsScoped 0) (build_request config (liquidate position 2_100_000))
build_request-IsScoped_example = build_request-IsScoped config (liquidate position 2_100_000)

build_liquidation_linear_example :
    Returns
      (λ tx. (length tx ≡ 4) × (uses 1 0 tx ≡ 1) × (uses 1 1 tx ≡ 1) × (uses 2 0 tx ≡ 1))
      (build_liquidation [] config position 2_100_000)
build_liquidation_linear_example = build_liquidation_linear config position 2_100_000
