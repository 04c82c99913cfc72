-- ===== src/Keeper/Custody/Recovery.antt =====
-- keeper/src/indexer/position-custody.ts: the need for recovery as more is recovered.
use leverx.Prelude.{ℕ, ◌≤◌, ◌≡◌, true, some, arith}
use leverx.Keeper.Types.{LeveragedPosition}
use leverx.Keeper.Custody.{position_needs_custody_recovery, position_shows_manage_from_indexer}

-- The position after so much was recovered.
abbrev pub recovered_to : ℕ → LeveragedPosition → LeveragedPosition
recovered_to quote p = record p { custody_recovered_quote = some quote }

-- If a position needs recovery after some quote was recovered, it needed it with any lesser quote, and
-- it is shown for management in both cases.
pub needs_custody_recovery_antitone :
    (p : LeveragedPosition) (less more : ℕ)
    → less ≤ more
    → position_needs_custody_recovery (recovered_to more p) ≡ true
    → (position_needs_custody_recovery (recovered_to less p) ≡ true)
      × (position_shows_manage_from_indexer (recovered_to less p) ≡ true)
      × (position_shows_manage_from_indexer (recovered_to more p) ≡ true)
unfolding position_needs_custody_recovery position_shows_manage_from_indexer
needs_custody_recovery_antitone p less more h needs = ground arith
