-- ===== src/Keeper/Types.antt =====
-- keeper/src/indexer/indexer.types.ts, keeper/src/keeper/keeper.types.ts and the part of
-- keeper/src/config/keeper.config.ts that the transactions use: the records the keeper passes around.
-- An identifier is a text, the list of its code points; a literal code or message is a `String`.
use Prim.Native.String.{String}
pub use leverx.Prelude.Texts.{Text}
use leverx.Prelude.{ℕ, Bool, Option, List}

pub record KeeperConfig : Type 0 where
  pub package_id : Text
  pub registry_id : Text
  pub vault_id : Text
  pub fee_collector_id : Text
  pub predict_id : Text
  pub predict_package_id : Text
  pub quote_type : Text

pub record PositionKeyArgs : Type 0 where
  pub oracle_id : Text
  pub expiry_ms : ℕ
  pub strike : ℕ
  pub higher_strike : ℕ
  pub is_up : Bool
  pub is_range : Bool

pub data RecommendedAction : Type 0 where
  close_redeem settle repay_debt recover_custody withdraw_trading : RecommendedAction

pub data CloseSource : Type 0 where
  predict_external manager_surplus_recovery : CloseSource
  other_source : Text → CloseSource

pub data PositionStatus : Type 0 where
  open_status : PositionStatus
  other_status : Text → PositionStatus

pub record PositionActionHints : Type 0 where
  pub close_source : Option CloseSource
  pub leverx_custody_complete : Bool
  pub needs_custody_recovery : Bool
  pub external_redeem_payout_quote : ℕ
  pub custody_recovered_quote : ℕ
  pub recommended_actions : List RecommendedAction

-- The fields that the keeper's tasks and the custody helpers read.
pub record LeveragedPosition : Type 0 where
  pub position_key : Text
  pub account_id : Text
  pub predict_manager_id : Option Text
  pub oracle_id : Text
  pub expiry_ms : ℕ
  pub strike : ℕ
  pub higher_strike : ℕ
  pub is_up : Bool
  pub is_range : Bool
  pub open_quantity : ℕ
  pub margin_quote : ℕ
  pub borrow_quote : ℕ
  pub status : PositionStatus
  pub close_surplus_quote : ℕ
  pub close_source : Option CloseSource
  pub leverx_custody_complete : Option Bool
  pub external_redeem_payout_quote : Option ℕ
  pub custody_recovered_quote : Option ℕ
  pub action_hints : Option PositionActionHints

pub record LimitMintOrder : Type 0 where
  pub position_key : Text
  pub account_id : Text
  pub oracle_id : Text
  pub expiry_ms : ℕ
  pub strike : ℕ
  pub higher_strike : ℕ
  pub is_up : Bool
  pub is_range : Bool
  pub quantity : ℕ
  pub leverage_bps : ℕ
  pub limit_premium_per_unit : ℕ
  pub slippage_bps : ℕ

-- An error text: a code or message as it stands, or what `logKeeperError` makes of a context, the target
-- and the caught error.
pub data Message : Type 0 where
  code : String → Message
  logged : String → Text → String → Message

pub data TaskKind : Type 0 where
  limit_order limit_order_expire liquidation trigger force_close all_tasks : TaskKind

pub record TaskResult : Type 0 where
  pub kind : TaskKind
  pub target : Text
  pub success : Bool
  pub digest : Option Text
  pub error : Option Message
  pub missing : List String
