-- ===== src/Keeper/TradeMath/Window.antt =====
-- keeper/src/config/trade-math.ts: the final window before expiry and the leverage tiers.
use leverx.Prelude.{
  ℕ, ◌+◌, ◌-◌, ◌*◌, ◌/◌, ◌≤◌, ◌<◌, ◌≡◌, ◌↔◌, ◌⊎◌, true, false, arith, min, max, inl, inr,
}
use leverx.Keeper.Constants.{min_leverage_bps}
use leverx.Keeper.TradeMath.Sizing.{div-mul-le, lt-div-suc-mul, div_mono}
use leverx.Keeper.TradeMath.{
  is_final_hour_before_expiry, is_leveraged_mint_allowed, is_leveraged_mint_blocked,
  leverage_closes_at_ms, max_leverage_for_expiry, compute_final_window_context,
}

zero-div : (w : ℕ) → 0 < w → 0 / w ≡ 0
zero-div w h = grind arith

-- The gate is exactly the half-open interval [expiry - window, expiry) of a market with an expiry.
pub is_final_hour_iff :
    (expiry now window : ℕ)
    → (is_final_hour_before_expiry expiry now window ≡ true)
      ↔ ((now < expiry) × (expiry ≤ now + window))
unfolding is_final_hour_before_expiry
is_final_hour_iff expiry now window = ground arith

-- Above 1x a mint is allowed exactly before the window opens; up to 1x it always is.
pub is_leveraged_mint_allowed_iff :
    (expiry leverage now window : ℕ)
    → (is_leveraged_mint_allowed expiry leverage now window ≡ true)
      ↔ ((leverage ≤ min_leverage_bps) ⊎ (now + window < expiry))
unfolding is_leveraged_mint_allowed
is_leveraged_mint_allowed_iff expiry leverage now window = ground arith

pub is_leveraged_mint_blocked_iff :
    (expiry now window : ℕ)
    → (is_leveraged_mint_blocked expiry now window ≡ true) ↔ (expiry ≤ now + window)
unfolding is_leveraged_mint_blocked
is_leveraged_mint_blocked_iff expiry now window = ground arith

-- At every moment exactly one holds for a market: leverage is open, the final window runs, or the
-- market has expired. Leverage is blocked in the last two.
pub window_phases :
    (expiry now window : ℕ)
    → ((is_leveraged_mint_blocked expiry now window ≡ false)
        × (is_final_hour_before_expiry expiry now window ≡ false)
        × (now < expiry))
      ⊎ ((is_leveraged_mint_blocked expiry now window ≡ true)
          × (is_final_hour_before_expiry expiry now window ≡ true)
          × (now < expiry))
      ⊎ ((is_leveraged_mint_blocked expiry now window ≡ true)
          × (is_final_hour_before_expiry expiry now window ≡ false)
          × (expiry ≤ now))
unfolding is_leveraged_mint_blocked is_final_hour_before_expiry
window_phases expiry now window = ground arith

tier-eq-min :
    (expiry now window cap : ℕ)
    → 1 ≤ cap
    → 0 < expiry
    → 0 < window
    → max_leverage_for_expiry expiry now window cap ≡ min cap (max 1 ((expiry - now) / window))
unfolding max_leverage_for_expiry
tier-eq-min expiry now window cap h e w = ground (arith, zero-div window w)

le-or-lt : (a b : ℕ) → (a ≤ b) ⊎ (b < a)
le-or-lt a b = ground arith

two-mul-le : (a b : ℕ) → 0 < b → 2 ≤ a / b → 2 * b ≤ a
two-mul-le a b h k = grind (arith, div-mul-le)

-- The recommended leverage lies between 1 and the maximum, never rises as time passes, and is above
-- 1x only while the chain still allows leveraged mints.
pub max_leverage_for_expiry_tiers :
    (expiry now later window cap : ℕ)
    → 1 ≤ cap
    → now ≤ later
    → 0 < expiry
    → 0 < window
    → let tier = max_leverage_for_expiry expiry now window cap in
      (1 ≤ tier)
      × (tier ≤ cap)
      × (max_leverage_for_expiry expiry later window cap ≤ tier)
      × ((tier ≤ 1) ⊎ (is_leveraged_mint_blocked expiry now window ≡ false))
max_leverage_for_expiry_tiers expiry now later window cap h k e w =
    let at = tier-eq-min expiry now window cap h e w in
    let after = tier-eq-min expiry later window cap h e w in
    let shrinks = div_mono (expiry - later) (expiry - now) window (omega arith) in
    (
      omega (arith, at),
      omega (arith, at),
      omega (arith, at, after, shrinks),
      open_above_one (le-or-lt _ 1) at,
    )
  where
    open_above_one :
        (max_leverage_for_expiry expiry now window cap ≤ 1)
          ⊎ (1 < max_leverage_for_expiry expiry now window cap)
        → max_leverage_for_expiry expiry now window cap ≡ min cap (max 1 ((expiry - now) / window))
        → (max_leverage_for_expiry expiry now window cap ≤ 1)
          ⊎ (is_leveraged_mint_blocked expiry now window ≡ false)
    open_above_one (inl low) at = inl low
    open_above_one (inr above) at =
        let room : 2 * window ≤ expiry - now =
          two-mul-le (expiry - now) window w (omega (arith, at)) in
        inr (ground (arith, is_leveraged_mint_blocked_iff expiry now window))

time_to_expiry_lem :
    (expiry now window : ℕ)
    → (compute_final_window_context expiry now window).time_to_expiry_ms ≡ expiry - now
unfolding compute_final_window_context
time_to_expiry_lem expiry now window = ground arith

periods_lem :
    (expiry now window : ℕ)
    → 0 < window
    → (compute_final_window_context expiry now window).final_window_periods_remaining
      ≡ (expiry - now) / window
unfolding compute_final_window_context
periods_lem expiry now window w = ground (arith, zero-div window w)

-- The fields of the context agree with one another: time to expiry counts whole periods and a rest,
-- the countdown to the closing of leverage is zero exactly when leverage is blocked, and inside the
-- final window no time is left until it.
pub compute_final_window_context_agrees :
    (expiry now window : ℕ)
    → 0 < expiry
    → 0 < window
    → let c = compute_final_window_context expiry now window in
      (c.time_to_expiry_ms ≡ expiry - now)
      × (c.final_window_periods_remaining * window ≤ c.time_to_expiry_ms)
      × (c.time_to_expiry_ms < (c.final_window_periods_remaining + 1) * window)
      × ((c.leveraged_mint_blocked ≡ true) ↔ (c.ms_until_leverage_closes ≡ 0))
      × ((c.in_final_window ≡ false) ⊎ (c.hours_until_final_window.ms ≡ 0))
unfolding compute_final_window_context leverage_closes_at_ms is_final_hour_before_expiry
compute_final_window_context_agrees expiry now window e w =
    let low = div-mul-le (expiry - now) window w in
    let high = lt-div-suc-mul (expiry - now) window w in
    (
      time_to_expiry_lem expiry now window,
      rw (periods_lem expiry now window w, time_to_expiry_lem expiry now window) low,
      rw (periods_lem expiry now window w, time_to_expiry_lem expiry now window) high,
      ground (arith, is_leveraged_mint_blocked_iff expiry now window),
      ground arith,
    )
