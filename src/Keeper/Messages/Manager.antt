-- ===== src/Keeper/Messages/Manager.antt =====
-- keeper/src/manager/manager-message.ts: the signed request for a manager, built, read, and checked for
-- its expiry.
use leverx.Prelude.{ℕ, ◌+◌, ◌^◌, ◌≤◌, true, List, [], ◌∷◌, ◌≡◌, refl}
use leverx.Prelude.Tests.{ltb, if◌then◌else◌}
use leverx.Prelude.Int.{sub_ℕ, ltb_ℤ, pos}
use leverx.Prelude.Texts.{Text, text}
use leverx.Prelude.Maps.{get, set}
use leverx.Prelude.Decimal.{to_string}
use leverx.Keeper.Replay.{ExpiryCheck, expiry_ok, message_expired, message_expiry_too_far}
use leverx.Keeper.Messages.{
  Fields, Parsed, parsed, ◌>>=◌, is_address, normalised, parse_key_value_message,
  parse_address_field, parse_number_field,
}
use leverx.Keeper.Messages.Build.{message_of}
use leverx.Keeper.Messages.Lines.{all_clean, assign_all, parse-message_of}
use leverx.Keeper.Messages.Fields.{
  parse_address_field_lem, parse_number_field_lem, lacks-address, lacks-to_string,
}

abbrev pub manager_create_message_prefix : Text
manager_create_message_prefix = text "leverx:manager:create:v1"

abbrev pub manager_max_ttl_ms : ℕ
manager_max_ttl_ms = 300_000

abbrev pub manager_clock_skew_ms : ℕ
manager_clock_skew_ms = 30_000

pub record ManagerCreateIntentFields : Type 0 where
  pub address : Text
  pub expires_at_ms : ℕ

abbrev pub manager_create_fields : ManagerCreateIntentFields → List (Text × Text)
manager_create_fields fields =
    (text "address", normalised fields.address)
    ∷ (text "expires_ms", to_string fields.expires_at_ms)
    ∷ []

unfoldable pub build_manager_create_message : ManagerCreateIntentFields → Text
build_manager_create_message fields =
    message_of manager_create_message_prefix (manager_create_fields fields)

unfoldable pub read_manager_create : Fields → Parsed ManagerCreateIntentFields
read_manager_create fields = do
  owner ← parse_address_field fields (text "address")
  expires ← parse_number_field fields (text "expires_ms")
  parsed (record { address = owner; expires_at_ms = expires })

unfoldable pub parse_manager_create_message : Text → Parsed ManagerCreateIntentFields
parse_manager_create_message message = do
  fields ← parse_key_value_message message manager_create_message_prefix
  read_manager_create fields

unfoldable pub assert_manager_intent_expiry : ℕ → ℕ → ExpiryCheck
assert_manager_intent_expiry expires_at now =
    if ltb_ℤ (pos expires_at) (sub_ℕ now manager_clock_skew_ms)
    then message_expired
    else if ltb (now + manager_max_ttl_ms + manager_clock_skew_ms) expires_at
    then message_expiry_too_far
    else expiry_ok

manager_create_fields_clean :
    (fields : ManagerCreateIntentFields)
    → is_address (normalised fields.address) ≡ true
    → all_clean (manager_create_fields fields) ≡ true
manager_create_fields_clean fields h =
    rw (lacks-address (normalised fields.address) h, lacks-to_string fields.expires_at_ms) refl

read_manager_create_lem :
    (fields : ManagerCreateIntentFields)
    → is_address (normalised fields.address) ≡ true
    → fields.expires_at_ms ≤ 2 ^ 53
    → read_manager_create (assign_all (manager_create_fields fields) [])
      ≡ parsed (record fields { address = normalised fields.address })
unfolding read_manager_create get set
read_manager_create_lem fields h fits =
    let all = assign_all (manager_create_fields fields) [] in
    rw
      (
        parse_address_field_lem all (text "address") fields.address refl h,
        parse_number_field_lem all (text "expires_ms") fields.expires_at_ms refl fits,
      )
      refl

-- The signed request for a manager gives its owner, in normal form, and its expiry back.
pub parse-build_manager_create :
    (fields : ManagerCreateIntentFields)
    → is_address (normalised fields.address) ≡ true
    → fields.expires_at_ms ≤ 2 ^ 53
    → parse_manager_create_message (build_manager_create_message fields)
      ≡ parsed (record fields { address = normalised fields.address })
unfolding parse_manager_create_message build_manager_create_message
parse-build_manager_create fields h fits =
    rw
      (parse-message_of manager_create_message_prefix (manager_create_fields fields) refl
        (manager_create_fields_clean fields h))
      (read_manager_create_lem fields h fits)
