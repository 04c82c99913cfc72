-- ===== src/Keeper/Protocol/Tests.antt =====
-- keeper/src/config/protocol-resolvers.ts at concrete inputs.
use leverx.Prelude.{◌≡◌, refl, none, some, [], ◌∷◌, arith}
use leverx.Keeper.Ptb.Allowed.{IsConfigured}
use leverx.Keeper.Protocol.{ProtocolSettings, resolve_liquidation_bps}
use leverx.Keeper.Samples.{config}

-- A threshold above the maximum, a window of 30 seconds, and a blank package.
abbrev reported : ProtocolSettings
reported = record {
  liquidation_bps = some 11_000;
  effective_liquidation_bps = some 20_000;
  final_window_ms = none;
  effective_final_window_ms = some 30_000;
  package_id = some (32 ∷ []);
  registry_id = none;
  vault_id = none;
  fee_collector_id = none;
  predict_id = none;
  predict_package_id = some (32 ∷ b'p' ∷ []);
}

resolve_liquidation_bps_run : resolve_liquidation_bps (some reported) ≡ 15_000
unfolding resolve_liquidation_bps
resolve_liquidation_bps_run = refl

config_set : IsConfigured config
config_set = record {
  package_set = λ e. absurd (ground arith);
  predict_package_set = λ e. absurd (ground arith);
}
