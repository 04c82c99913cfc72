-- ===== src/Keeper/TradeMath/Debt.antt =====
-- keeper/src/config/trade-math.ts: the debt that a liquidation flash loan has to cover.
use leverx.Prelude.{ℕ, ◌+◌, ◌*◌, ◌≤◌, ◌<◌, ◌≡◌, true, ◌⊎◌, arith}
use leverx.Keeper.TradeMath.{has_liquidation_debt, flash_borrow_amount_for_liquidation}

-- The loan is the debt and the buffer's share of it, rounded down to an atom.
abbrev pub IsBuffered : ℕ → ℕ → ℕ → Type 0
IsBuffered debt buffer flash =
    (debt ≤ flash)
    × (flash * 10_000 ≤ debt * (10_000 + buffer))
    × (debt * (10_000 + buffer) < (flash + 1) * 10_000)

-- The flash loan is the vault debt, or the margin debt where there is no vault debt, with the buffer's
-- share of it, rounded down. Without either debt it is the one atom that the chain demands.
pub flash_borrow_covers :
    (borrow margin buffer : ℕ)
    → let flash = flash_borrow_amount_for_liquidation borrow margin buffer in
      ((borrow ≡ 0) ⊎ IsBuffered borrow buffer flash)
      × ((0 < borrow) ⊎ (margin ≡ 0) ⊎ IsBuffered margin buffer flash)
      × ((has_liquidation_debt borrow margin ≡ true) ⊎ (flash ≡ 1))
unfolding flash_borrow_amount_for_liquidation has_liquidation_debt
flash_borrow_covers borrow margin buffer = ground arith
