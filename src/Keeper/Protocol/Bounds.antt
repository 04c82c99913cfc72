-- ===== src/Keeper/Protocol/Bounds.antt =====
-- keeper/src/config/protocol-resolvers.ts: what the resolved settings may be.
use leverx.Prelude.{ℕ, ◌<◌, ◌≤◌, ◌≢◌, Option, none, some, [], ◌∷◌, arith}
use leverx.Prelude.Texts.{Text, trim}
use leverx.Keeper.Types.{KeeperConfig}
use leverx.Keeper.Constants.{
  default_final_window_ms, default_liquidation_bps, max_final_window_ms, max_liquidation_bps,
  min_final_window_ms,
}
use leverx.Keeper.Ptb.Allowed.{IsConfigured}
use leverx.Keeper.Protocol.{
  ProtocolSettings, capped_or, resolve_liquidation_bps, resolve_final_window_ms,
  clamp_final_window_ms, override_with, text_or, with_protocol_overrides,
}

capped_or_bounds :
    (cap rest : ℕ) (o : Option ℕ)
    → 0 < cap
    → 0 < rest
    → rest ≤ cap
    → (0 < capped_or cap rest o) × (capped_or cap rest o ≤ cap)
capped_or_bounds cap rest none h k l = (k, l)
capped_or_bounds cap rest (some value) h k l = ground arith

-- A value, else a value that stands in for it, else the default.
twice_bounds :
    (cap default : ℕ) (o p : Option ℕ)
    → 0 < cap
    → 0 < default
    → default ≤ cap
    → (0 < capped_or cap (capped_or cap default o) p)
      × (capped_or cap (capped_or cap default o) p ≤ cap)
twice_bounds cap default o p h k l =
    let (low, high) = capped_or_bounds cap default o h k l in
    capped_or_bounds cap (capped_or cap default o) p h low high

-- Whatever the indexer reports, the liquidation threshold and the final window are positive and at most
-- their maxima; a clamped window also keeps its minimum.
pub resolved_settings_bounds :
    (settings : Option ProtocolSettings)
    → let bps = resolve_liquidation_bps settings in
      let window = resolve_final_window_ms settings in
      (0 < bps)
      × (bps ≤ max_liquidation_bps)
      × (0 < window)
      × (window ≤ max_final_window_ms)
      × (min_final_window_ms ≤ clamp_final_window_ms window)
      × (clamp_final_window_ms window ≤ max_final_window_ms)
unfolding resolve_liquidation_bps resolve_final_window_ms clamp_final_window_ms
resolved_settings_bounds none = omega arith
resolved_settings_bounds (some s) =
    let (bps_low, bps_high) =
      twice_bounds max_liquidation_bps default_liquidation_bps s.liquidation_bps
        s.effective_liquidation_bps (omega arith) (omega arith) (omega arith) in
    let (low, high) =
      twice_bounds max_final_window_ms default_final_window_ms s.final_window_ms
        s.effective_final_window_ms (omega arith) (omega arith) (omega arith) in
    (bps_low, bps_high, low, high, omega arith, omega arith)

override-ne-nil : (current : Text) (o : Option Text) → current ≢ [] → override_with current o ≢ []
override-ne-nil current none h = h
override-ne-nil current (some value) h = go (trim value)
  where
    go : (t : Text) → text_or current t ≢ []
    go [] = h
    go (c ∷ cs) = λ e. absurd (ground arith)

-- The indexer's overrides never unset a configured package.
pub with_protocol_overrides-IsConfigured :
    (protocol : ProtocolSettings) (cfg : KeeperConfig)
    → IsConfigured cfg
    → IsConfigured (with_protocol_overrides protocol cfg)
unfolding with_protocol_overrides
with_protocol_overrides-IsConfigured protocol cfg c = record {
  package_set = override-ne-nil cfg.package_id protocol.package_id c.package_set;
  predict_package_set =
      override-ne-nil cfg.predict_package_id protocol.predict_package_id c.predict_package_set;
}
