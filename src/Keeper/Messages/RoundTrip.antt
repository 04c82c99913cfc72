-- ===== src/Keeper/Messages/RoundTrip.antt =====
-- The messages of the settlement, of the recovery and of the redemption are read back.
pub mod Base
pub mod Mint
use leverx.Prelude.{ℕ, ◌^◌, ◌≤◌, Bool, true, false, List, some, [], ◌∷◌, ◌++◌, ◌≡◌, refl, arith}
use leverx.Prelude.Texts.{Text, text}
use leverx.Prelude.Texts.Split.{lacks}
use leverx.Prelude.Maps.{get, set}
use leverx.Prelude.Decimal.{to_string}
use leverx.Keeper.Ptb.Relay.{OrderKind, market, limit}
use leverx.Keeper.Messages.{Fields, parsed, newline}
use leverx.Keeper.Messages.Trade.{
  IntentBase, kind_of, SettleIntentFields, RecoverManagerIntentFields, RedeemIntentFields,
  read_settle, parse_settle_intent_message, parse_recover_manager_intent_message,
  parse_redeem_intent_message, parse_redeem_mode, read_redeem, read_recover_manager,
  trade_settle_message_prefix, trade_recover_manager_message_prefix, trade_redeem_message_prefix,
}
use leverx.Keeper.Messages.Build.{
  base_fields, build_settle_intent_message, build_recover_manager_intent_message,
  build_redeem_intent_message, kind_text, settle_fields, recover_manager_fields, redeem_fields,
}
use leverx.Keeper.Messages.Lines.{all_clean, assign_all, parse-message_of}
use leverx.Keeper.Messages.Fields.{parse_u64_field_lem, parse_optional_u64_lem, lacks-to_string}
use leverx.Keeper.Messages.RoundTrip.Base.{
  IsWellFormed, normalised_base, BaseIn, parse_base_lem, base_fields_clean, all_clean-append,
}

settle_fields_clean :
    (fields : SettleIntentFields)
    → IsWellFormed fields.base
    → all_clean (settle_fields fields) ≡ true
settle_fields_clean fields h =
    all_clean-append (base_fields fields.base) ((text "quantity", to_string fields.quantity) ∷ [])
      (base_fields_clean fields.base h) (rw (lacks-to_string fields.quantity) refl)

read_settle_lem :
    (fields : SettleIntentFields)
    → IsWellFormed fields.base
    → read_settle (assign_all (settle_fields fields) [])
      ≡ parsed (record fields { base = normalised_base fields.base })
unfolding read_settle get set
read_settle_lem fields h =
    rw
      (
        parse_base_lem fields.base (assign_all (settle_fields fields) [])
            (refl, refl, refl, refl, refl, refl, refl, refl, refl, refl) h,
        parse_u64_field_lem (assign_all (settle_fields fields) []) (text "quantity") fields.quantity
            refl,
      )
      refl

-- The message of a settlement gives the intent back, with its addresses in normal form.
pub parse-build_settle :
    (fields : SettleIntentFields)
    → IsWellFormed fields.base
    → parse_settle_intent_message (build_settle_intent_message fields)
      ≡ parsed (record fields { base = normalised_base fields.base })
unfolding parse_settle_intent_message build_settle_intent_message
parse-build_settle fields h =
    rw
      (parse-message_of trade_settle_message_prefix (settle_fields fields) refl
        (settle_fields_clean fields h))
      (read_settle_lem fields h)

recover_manager_fields_clean :
    (fields : RecoverManagerIntentFields)
    → IsWellFormed fields.base
    → all_clean (recover_manager_fields fields) ≡ true
recover_manager_fields_clean fields h =
    all_clean-append (base_fields fields.base)
      ((text "manager_quote_atoms", to_string fields.manager_quote_atoms) ∷ [])
      (base_fields_clean fields.base h) (rw (lacks-to_string fields.manager_quote_atoms) refl)

read_recover_manager_lem :
    (fields : RecoverManagerIntentFields)
    → IsWellFormed fields.base
    → read_recover_manager (assign_all (recover_manager_fields fields) [])
      ≡ parsed (record fields { base = normalised_base fields.base })
unfolding read_recover_manager get set
read_recover_manager_lem fields h =
    rw
      (
        parse_base_lem fields.base (assign_all (recover_manager_fields fields) [])
            (refl, refl, refl, refl, refl, refl, refl, refl, refl, refl) h,
        parse_u64_field_lem (assign_all (recover_manager_fields fields) [])
            (text "manager_quote_atoms") fields.manager_quote_atoms refl,
      )
      refl

-- The message of a recovery gives the intent back, with its addresses in normal form.
pub parse-build_recover_manager :
    (fields : RecoverManagerIntentFields)
    → IsWellFormed fields.base
    → parse_recover_manager_intent_message (build_recover_manager_intent_message fields)
      ≡ parsed (record fields { base = normalised_base fields.base })
unfolding parse_recover_manager_intent_message build_recover_manager_intent_message
parse-build_recover_manager fields h =
    rw
      (parse-message_of trade_recover_manager_message_prefix (recover_manager_fields fields) refl
        (recover_manager_fields_clean fields h))
      (read_recover_manager_lem fields h)

pub lacks-kind_text : (kind : OrderKind) → lacks newline (kind_text kind) ≡ true
lacks-kind_text market = refl
lacks-kind_text limit = refl

pub kind_text_lem : (kind : OrderKind) → kind_of (some (kind_text kind)) ≡ kind
kind_text_lem market = refl
kind_text_lem limit = refl

redeem_fields_clean :
    (fields : RedeemIntentFields)
    → IsWellFormed fields.base
    → all_clean (redeem_fields fields) ≡ true
redeem_fields_clean fields h =
    all_clean-append (base_fields fields.base)
      ((text "quantity", to_string fields.quantity)
        ∷ (text "min_payout", to_string fields.min_payout)
        ∷ (text "redeem_mode", kind_text fields.redeem_mode)
        ∷ (text "min_premium_per_unit", to_string fields.min_premium_per_unit)
        ∷ [])
      (base_fields_clean fields.base h)
      (rw
        (
          lacks-to_string fields.quantity,
          lacks-to_string fields.min_payout,
          lacks-kind_text fields.redeem_mode,
          lacks-to_string fields.min_premium_per_unit,
        )
        refl)

read_redeem_lem :
    (fields : RedeemIntentFields)
    → IsWellFormed fields.base
    → read_redeem (assign_all (redeem_fields fields) [])
      ≡ parsed (record fields { base = normalised_base fields.base })
unfolding read_redeem parse_redeem_mode get set
read_redeem_lem fields h =
    let all = assign_all (redeem_fields fields) [] in
    rw
      (
        parse_base_lem fields.base all (refl, refl, refl, refl, refl, refl, refl, refl, refl, refl)
            h,
        parse_u64_field_lem all (text "quantity") fields.quantity refl,
        parse_u64_field_lem all (text "min_payout") fields.min_payout refl,
        parse_optional_u64_lem all (text "min_premium_per_unit") fields.min_premium_per_unit refl,
        kind_text_lem fields.redeem_mode,
      )
      refl

-- The message of a redemption gives the intent back, with its addresses in normal form.
pub parse-build_redeem :
    (fields : RedeemIntentFields)
    → IsWellFormed fields.base
    → parse_redeem_intent_message (build_redeem_intent_message fields)
      ≡ parsed (record fields { base = normalised_base fields.base })
unfolding parse_redeem_intent_message build_redeem_intent_message
parse-build_redeem fields h =
    rw
      (parse-message_of trade_redeem_message_prefix (redeem_fields fields) refl
        (redeem_fields_clean fields h))
      (read_redeem_lem fields h)
