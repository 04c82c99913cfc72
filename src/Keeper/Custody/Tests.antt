-- ===== src/Keeper/Custody/Tests.antt =====
-- keeper/src/indexer/position-custody.ts at a concrete position.
use leverx.Prelude.{some}
use leverx.Keeper.Types.{LeveragedPosition}
use leverx.Keeper.Samples.{position}

-- A position whose contracts were redeemed outside for 900,000.
abbrev redeemed : LeveragedPosition
redeemed = record position { external_redeem_payout_quote = some 900_000 }
