-- ===== src/Keeper/Custody.antt =====
-- keeper/src/indexer/position-custody.ts: which positions still hold something for their owner.
pub mod Recovery
pub mod Tests
use leverx.Prelude.{ℕ, Bool, true, false, ◌&&◌, ◌||◌, Option, none, some, List, [], ◌∷◌}
use leverx.Prelude.Tests.{ltb, if◌then◌else◌}
use leverx.Keeper.Types.{
  LeveragedPosition, PositionActionHints, RecommendedAction, withdraw_trading, CloseSource,
  predict_external, manager_surplus_recovery, other_source, PositionStatus, open_status,
  other_status,
}

-- `a ?? b`
abbrev pub or_else {ℓ} : {A : Type ℓ} → Option A → A → A
or_else none b = b
or_else (some a) b = a

unfoldable pub position_close_source : LeveragedPosition → Option CloseSource
position_close_source p = close_source_of p.close_source p.action_hints
  where
    close_source_of : Option CloseSource → Option PositionActionHints → Option CloseSource
    close_source_of (some source) hints = some source
    close_source_of none none = none
    close_source_of none (some hints) = hints.close_source

abbrev pub hinted_complete : Option PositionActionHints → Bool
hinted_complete none = false
hinted_complete (some hints) = hints.leverx_custody_complete

unfoldable pub position_leverx_custody_complete : LeveragedPosition → Bool
position_leverx_custody_complete p =
    or_else p.leverx_custody_complete (hinted_complete p.action_hints)

abbrev pub hinted_recovery : Option PositionActionHints → Bool
hinted_recovery none = false
hinted_recovery (some hints) = hints.needs_custody_recovery

abbrev pub hinted_payout : Option PositionActionHints → ℕ
hinted_payout none = 0
hinted_payout (some hints) = hints.external_redeem_payout_quote

abbrev pub hinted_recovered : Option PositionActionHints → ℕ
hinted_recovered none = 0
hinted_recovered (some hints) = hints.custody_recovered_quote

abbrev pub is_external : Option CloseSource → Bool
is_external (some predict_external) = true
is_external (some manager_surplus_recovery) = true
is_external _ = false

unfoldable pub position_needs_custody_recovery : LeveragedPosition → Bool
unfolding position_close_source position_leverx_custody_complete
position_needs_custody_recovery p =
    if hinted_recovery p.action_hints
    then true
    else if position_leverx_custody_complete p
    then false
    else (let payout = or_else p.external_redeem_payout_quote (hinted_payout p.action_hints) in
        let recovered = or_else p.custody_recovered_quote (hinted_recovered p.action_hints) in
        if ltb 0 payout && ltb recovered payout
        then true
        else is_external (position_close_source p))

abbrev pub is_open : PositionStatus → Bool
is_open open_status = true
is_open (other_status s) = false

abbrev pub is_withdraw_trading : RecommendedAction → Bool
is_withdraw_trading withdraw_trading = true
is_withdraw_trading _ = false

abbrev pub recommends_withdrawal : List RecommendedAction → Bool
recommends_withdrawal [] = false
recommends_withdrawal (a ∷ actions) = is_withdraw_trading a || recommends_withdrawal actions

abbrev pub hinted_withdrawal : Option PositionActionHints → Bool
hinted_withdrawal none = false
hinted_withdrawal (some hints) = recommends_withdrawal hints.recommended_actions

unfoldable pub position_shows_manage_from_indexer : LeveragedPosition → Bool
unfolding position_needs_custody_recovery position_leverx_custody_complete
position_shows_manage_from_indexer p =
    is_open p.status
    || ltb 0 p.borrow_quote
    || position_needs_custody_recovery p
    || hinted_withdrawal p.action_hints
    || (position_leverx_custody_complete p && ltb 0 p.close_surplus_quote)
