-- ===== src/Keeper/Relay.antt =====
-- keeper/src/auth/app-intent-auth.ts and keeper/src/trade/trade-auth.ts: who may have an intent relayed.
pub mod Auth
pub mod Trades
pub mod Safety
pub mod Outcomes
pub mod Replays
pub mod Tests
use Prim.Native.String.{String}
use leverx.Prelude.{ℕ, Bool, true, false, not, ◌&&◌, ◌||◌, Option, none, some, List, [], ◌∷◌, ◌++◌}
use leverx.Prelude.Tests.{◌==◌, if◌then◌else◌}
use leverx.Prelude.Int.{ℤ, pos, negsuc}
use leverx.Prelude.Texts.{Text, text, text_eq, trim}
use leverx.Keeper.Types.{KeeperConfig}
use leverx.Keeper.Replay.{ExpiryCheck, expiry_ok, message_expired, message_expiry_too_far}
use leverx.Keeper.Messages.{
  ParseError, invalid_message_prefix, missing_limit_fields, invalid_field, Parsed, parsed, refused,
  is_address, normalised,
}
use leverx.Keeper.Jwt.{
  JsonNumber, whole, between, not_finite, Crypto, Verified, accepted, unauthorized, type_error,
  verify_address, verify,
}
use leverx.Keeper.Effects.{Reply}

-- The exceptions of the HTTP layer, by their status, and an `Error` of another class.
pub data Refusal : Type 0 where
  unauthorised bad_request forbidden service_unavailable error : Text → Refusal
  keeper_not_configured : List String → Refusal

pub data Served (A : Type 0) : Type 0 where
  served : A → Served A
  rejected : Refusal → Served A

infixl 5 ◌>>=◌
abbrev pub ◌>>=◌ : {A B : Type 0} → Served A → (A → Served B) → Served B
served a >>= f = f a
rejected r >>= f = rejected r

-- The body of a request; a field that is absent is none. Fields of another JSON type are left out.
pub record AppAuthPayload : Type 0 where
  pub address : Option Text
  pub expires_at_ms : Option JsonNumber
  pub message_bytes : Option Text
  pub signature : Option Text
  pub token : Option Text

pub data AuthMethod : Type 0 where
  signed by_token : AuthMethod

-- Code outside the repository: base64 and text decoding, hashing, and the wallet signatures of the SDK,
-- which may ask the network.
pub record Host (W : Type 0) : Type 0 where
  pub crypto : Crypto
  pub secret : Text
  pub sha256_hex : Text → Text
  pub from_base64 : Text → Option (List ℕ)
  pub text_decoder : List ℕ → Text
  pub verify_personal_message_signature : List ℕ → Text → Text → Text → W → Reply (Unit {0}) × W

-- An intent's parser, the two fields that are compared, and its expiry check.
pub record IntentKind (T : Type 0) : Type 0 where
  pub parse_message : Text → Parsed T
  pub address_of : T → Text
  pub expires_of : T → ℕ
  pub assert_expiry : ℕ → ℕ → ExpiryCheck

abbrev pub parse_error_text : ParseError → Text
parse_error_text invalid_message_prefix = text "invalid_message_prefix"
parse_error_text missing_limit_fields = text "missing_limit_fields"
parse_error_text (invalid_field key) = text "invalid_" ++ key

-- `value?.trim()` when that is not empty.
abbrev pub nonempty : Text → Option Text
nonempty [] = none
nonempty (c ∷ cs) = some (c ∷ cs)

unfoldable pub nonblank : Option Text → Option Text
nonblank none = none
nonblank (some t) = nonempty (trim t)

abbrev pub trim_of_undefined : Refusal
trim_of_undefined = error (text "Cannot read properties of undefined (reading 'trim')")

abbrev pub defined : Option Text → Served Text
defined none = rejected trim_of_undefined
defined (some t) = served t

abbrev pub token_key : {W : Type 0} → Host W → Option Text → Option Text → Served Text
token_key host address message_bytes = do
  owner ← defined address
  message ← defined message_bytes
  served (text "token:" ++ host.sha256_hex (normalised owner ++ (10 ∷ trim message)))

abbrev pub key_or : Served Text → Option Text → Served Text
key_or other none = other
key_or other (some signature) = served signature

unfoldable pub intent_replay_key : {W : Type 0} → Host W → AppAuthPayload → Served Text
intent_replay_key host payload =
    key_or (token_key host payload.address payload.message_bytes) (nonblank payload.signature)

abbrev pub claimed_or_error : Option Text → Served Text
claimed_or_error none = rejected (error (text "invalid_address"))
claimed_or_error (some raw) =
    if is_address (normalised raw)
    then served (normalised raw)
    else rejected (error (text "invalid_address"))

-- `payload.address?.trim().toLowerCase()`, when it is an address.
unfoldable pub claimed_address : AppAuthPayload → Served Text
claimed_address payload = claimed_or_error payload.address

abbrev pub integer_or_error : Option JsonNumber → Served ℤ
integer_or_error none = rejected (error (text "invalid_expires_at_ms"))
integer_or_error (some (whole n)) = served n
integer_or_error (some (between n)) = rejected (error (text "invalid_expires_at_ms"))
integer_or_error (some not_finite) = rejected (error (text "invalid_expires_at_ms"))

unfoldable pub claimed_expiry : AppAuthPayload → Served ℤ
claimed_expiry payload = integer_or_error payload.expires_at_ms

abbrev pub decoded_or_error : Option (List ℕ) → Served (List ℕ)
decoded_or_error none = rejected (error (text "invalid_message_bytes"))
decoded_or_error (some bytes) = served bytes

abbrev pub parsed_or_error : {T : Type 0} → Parsed T → Served T
parsed_or_error (parsed intent) = served intent
parsed_or_error (refused e) = rejected (error (parse_error_text e))

abbrev pub require : Bool → Text → Served (Unit {0})
require true code = served tt
require false code = rejected (error code)

abbrev pub expiry_or_error : ExpiryCheck → Served (Unit {0})
expiry_or_error expiry_ok = served tt
expiry_or_error message_expired = rejected (error (text "message_expired"))
expiry_or_error message_expiry_too_far = rejected (error (text "message_expiry_too_far"))

abbrev pub is_same_time : ℕ → ℤ → Bool
is_same_time n (pos m) = n == m
is_same_time n (negsuc m) = false

abbrev pub is_some : Option Text → Bool
is_some none = false
is_some (some t) = true

module _ {W T : Type 0} (host : Host W) (kind : IntentKind T) where
  open kind use {parse_message, address_of, expires_of, assert_expiry}

  -- What both ways of authorisation do with the bytes of the message.
  unfoldable pub match_intent : Text → ℤ → ℕ → List ℕ → Served T
  match_intent claimed expires now bytes = do
    intent ← parsed_or_error (parse_message (host.text_decoder bytes))
    same_address ← require (text_eq (address_of intent) claimed) (text "address_mismatch")
    same_expiry ← require (is_same_time (expires_of intent) expires) (text "expiry_mismatch")
    live ← expiry_or_error (assert_expiry (expires_of intent) now)
    served intent

  abbrev pub bytes_or_error : Text → Bool → Option Text → Served (List ℕ)
  bytes_or_error missing all_there none = rejected (error missing)
  bytes_or_error missing all_there (some encoded) =
      if all_there then decoded_or_error (host.from_base64 encoded) else rejected (error missing)

  unfoldable pub parse_intent_message : AppAuthPayload → ℕ → Served T
  parse_intent_message payload now = do
    claimed ← claimed_address payload
    expires ← claimed_expiry payload
    bytes ←
        bytes_or_error (text "missing_message_bytes") (is_some (nonblank payload.message_bytes))
          payload.message_bytes
    match_intent claimed expires now bytes

  -- A wallet's signature, on the address that was claimed and the bytes that were read.
  unfoldable pub read_signed : AppAuthPayload → ℕ → Served (Text × List ℕ × T)
  read_signed payload now = do
    claimed ← claimed_address payload
    expires ← claimed_expiry payload
    bytes ←
        bytes_or_error (text "missing_signature")
          (is_some (nonblank payload.message_bytes) && is_some (nonblank payload.signature))
          payload.message_bytes
    intent ← match_intent claimed expires now bytes
    served (claimed, bytes, intent)
