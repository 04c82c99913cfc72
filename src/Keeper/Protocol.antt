-- ===== src/Keeper/Protocol.antt =====
-- keeper/src/config/protocol-resolvers.ts: the settings that the indexer reports, within their limits.
pub mod Bounds
pub mod Tests
use leverx.Prelude.{ℕ, Bool, true, false, Option, none, some, List, [], ◌∷◌, min, max}
use leverx.Prelude.Tests.{ltb, if◌then◌else◌}
use leverx.Prelude.Texts.{Text, trim}
use leverx.Keeper.Types.{KeeperConfig}
use leverx.Keeper.Constants.{
  default_final_window_ms, default_liquidation_bps, max_final_window_ms, max_liquidation_bps,
  min_final_window_ms,
}

-- The fields that the resolvers read; a `null` and an absent field are both none.
pub record ProtocolSettings : Type 0 where
  pub liquidation_bps : Option ℕ
  pub effective_liquidation_bps : Option ℕ
  pub final_window_ms : Option ℕ
  pub effective_final_window_ms : Option ℕ
  pub package_id : Option Text
  pub registry_id : Option Text
  pub vault_id : Option Text
  pub fee_collector_id : Option Text
  pub predict_id : Option Text
  pub predict_package_id : Option Text

-- `if (typeof value === 'number' && value > 0) return Math.min(value, cap)`, else the rest.
abbrev pub capped_or : ℕ → ℕ → Option ℕ → ℕ
capped_or cap rest none = rest
capped_or cap rest (some value) = if ltb 0 value then min value cap else rest

unfoldable pub resolve_liquidation_bps : Option ProtocolSettings → ℕ
resolve_liquidation_bps none = default_liquidation_bps
resolve_liquidation_bps (some settings) =
    capped_or max_liquidation_bps
      (capped_or max_liquidation_bps default_liquidation_bps settings.liquidation_bps)
      settings.effective_liquidation_bps

unfoldable pub resolve_final_window_ms : Option ProtocolSettings → ℕ
resolve_final_window_ms none = default_final_window_ms
resolve_final_window_ms (some settings) =
    capped_or max_final_window_ms
      (capped_or max_final_window_ms default_final_window_ms settings.final_window_ms)
      settings.effective_final_window_ms

unfoldable pub clamp_final_window_ms : ℕ → ℕ
clamp_final_window_ms ms = min max_final_window_ms (max min_final_window_ms ms)

abbrev pub text_or : Text → Text → Text
text_or current [] = current
text_or current (c ∷ cs) = c ∷ cs

-- `const trimmed = value?.trim(); if (trimmed) overrides[key] = trimmed`
abbrev pub override_with : Text → Option Text → Text
override_with current none = current
override_with current (some value) = text_or current (trim value)

-- The configuration with the overrides spread over it.
unfoldable pub with_protocol_overrides : ProtocolSettings → KeeperConfig → KeeperConfig
unfolding trim
with_protocol_overrides protocol cfg = record cfg {
  package_id = override_with cfg.package_id protocol.package_id;
  registry_id = override_with cfg.registry_id protocol.registry_id;
  vault_id = override_with cfg.vault_id protocol.vault_id;
  fee_collector_id = override_with cfg.fee_collector_id protocol.fee_collector_id;
  predict_id = override_with cfg.predict_id protocol.predict_id;
  predict_package_id = override_with cfg.predict_package_id protocol.predict_package_id;
}
