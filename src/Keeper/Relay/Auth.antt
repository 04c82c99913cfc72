-- ===== src/Keeper/Relay/Auth.antt =====
-- keeper/src/auth/app-intent-auth.ts, keeper/src/trade/trade-auth.ts and `verifyTradeRequest` of
-- keeper/src/trade/trade.service.ts: the steps that await, over the state of the services.
pub mod Sound
use Prim.Native.String.{String}
use leverx.Prelude.{ℕ, Bool, true, false, Option, none, some, List, [], ◌∷◌, ◌++◌}
use leverx.Prelude.Tests.{if◌then◌else◌}
use leverx.Prelude.Texts.{Text, text, trim}
use leverx.Keeper.Types.{KeeperConfig}
use leverx.Keeper.Replay.{Store, is_replayed, mark_used}
use leverx.Keeper.Jwt.{
  Crypto, Verified, accepted, unauthorized, type_error, verify, verify_address, issue,
}
use leverx.Keeper.Effects.{Reply, returned, M, return, outside, reading, try_catch, branch}
use leverx.Keeper.Effects
use leverx.Keeper.Sui.{Sui}
use leverx.Keeper.Relay.{
  Refusal, unauthorised, bad_request, forbidden, service_unavailable, error, keeper_not_configured,
  Served, served, rejected, AppAuthPayload, AuthMethod, signed, by_token, Host, IntentKind,
  trim_of_undefined, nonblank, is_some, intent_replay_key, parse_intent_message, read_signed,
}

-- A row of the indexer's accounts.
pub record UserProxy : Type 0 where
  pub account_id : Text
  pub predict_manager_id : Option Text

-- The services that the relay calls, and the fields of theirs that it reads.
pub record Relay (W : Type 0) : Type 0 where
  pub sui : Sui W
  pub host : Host W
  pub describe : String → Option String
  pub network : W → Text
  pub signer : W → Option Text
  pub keeper_address : W → Option Text
  pub fetch_accounts : Text → ℕ → W → Reply (List UserProxy) × W
  pub used : W → Store
  pub put_used : Store → W → W

-- Code that answers or rejects, beside the errors of what it awaits.
abbrev pub S : Type 0 → Type 0 → Type 0
S W A = M W (Served A)

module _ {W : Type 0} where
  abbrev pub serve_next : {A B : Type 0} → (A → S W B) → Served A → S W B
  serve_next f (served a) = f a
  serve_next f (rejected r) = return (rejected r)

  infixl 5 ◌>>=◌
  unfoldable pub ◌>>=◌ : {A B : Type 0} → S W A → (A → S W B) → S W B
  m >>= f = Effects.◌>>=◌ m (serve_next f)

  abbrev pub answer : {A : Type 0} → A → S W A
  answer a = return (served a)

  abbrev pub refuse : {A : Type 0} → Refusal → S W A
  refuse r = return (rejected r)

-- `err.message` of each exception; an object's message is that of its class.
abbrev pub to_bad_request : Refusal → Refusal
to_bad_request (unauthorised code) = unauthorised code
to_bad_request (bad_request code) = bad_request code
to_bad_request (forbidden code) = bad_request code
to_bad_request (service_unavailable code) = bad_request code
to_bad_request (error code) = bad_request code
to_bad_request (keeper_not_configured missing) = bad_request (text "Service Unavailable Exception")

-- `catch (err)`: an `UnauthorizedException` goes on as it is.
abbrev pub as_bad_request : {A : Type 0} → Served A → Served A
as_bad_request (served a) = served a
as_bad_request (rejected r) = rejected (to_bad_request r)

abbrev pub first_of : Option Text → Option Text → Option Text
first_of none other = other
first_of (some t) other = some t

abbrev pub verdict : Verified (Unit {0}) → Served (Unit {0})
verdict (accepted u) = served tt
verdict (unauthorized code) = rejected (unauthorised code)
verdict type_error = rejected (error (text "Cannot read properties of null (reading 'sub')"))

abbrev pub subject_or_error : Verified Text → Served (Unit {0})
subject_or_error (accepted sub) = rejected trim_of_undefined
subject_or_error (unauthorized code) = rejected (unauthorised code)
subject_or_error type_error =
    rejected (error (text "Cannot read properties of null (reading 'sub')"))

module _ {W : Type 0} (relay : Relay W) where
  open relay use {sui, host}

  -- `jwt.verifyAddress(token, payload.address)`
  abbrev pub check_token : Text → Option Text → ℕ → Served (Unit {0})
  check_token token none now = subject_or_error (verify host.crypto host.secret token now)
  check_token token (some address) now =
      verdict (verify_address host.crypto host.secret token address now)

  abbrev pub signature_of : AppAuthPayload → Text
  signature_of payload = elim payload.signature [ none ↦ [] | some t ↦ t ]

  unfoldable pub verify_signed_intent : {T : Type 0} → IntentKind T → AppAuthPayload → S W T
  verify_signed_intent kind payload = reading sui.now λ now.
      serve_next
        (λ (claimed, bytes, intent). reading relay.network λ network.
          try_catch
            (Effects.◌>>=◌
              (outside (
                host.verify_personal_message_signature bytes (signature_of payload) claimed
                  network))
              λ u. answer intent)
            λ err. refuse (unauthorised (text "invalid_signature")))
        (read_signed host kind payload now)

  unfoldable pub resolve_with :
      {T : Type 0} → IntentKind T → AppAuthPayload → Option Text → S W (T × AuthMethod)
  resolve_with kind payload (some token) = reading sui.now λ now.
      serve_next
        (λ u.
          serve_next (λ intent. answer (intent, by_token))
            (as_bad_request (parse_intent_message host kind payload now)))
        (check_token token payload.address now)
  resolve_with kind payload none =
      branch (is_some (nonblank payload.signature))
        (Effects.◌>>=◌ (verify_signed_intent kind payload)
          λ intent. serve_next (λ i. answer (i, signed)) (as_bad_request intent))
        (refuse (bad_request (text "missing_auth")))

  -- A token in the body comes before one in the header.
  unfoldable pub resolve_intent_auth :
      {T : Type 0} → IntentKind T → AppAuthPayload → Option Text → S W (T × AuthMethod)
  resolve_intent_auth kind payload bearer =
      resolve_with kind payload (first_of (nonblank payload.token) (nonblank bearer))

  -- A synchronous step of the replay store.
  abbrev pub on_store : {A : Type 0} → (Store → A × Store) → W → Reply A × W
  on_store f w = let (a, store) = f (relay.used w) in (returned a, relay.put_used store w)

  unfoldable pub assert_intent_not_replayed : AppAuthPayload → S W (Unit {0})
  assert_intent_not_replayed payload =
      serve_next
        (λ key. reading sui.now λ now.
          Effects.◌>>=◌ (outside (on_store (is_replayed key now)))
            λ replayed. branch replayed (refuse (bad_request (text "intent_replayed"))) (answer tt))
        (intent_replay_key host payload)

  unfoldable pub mark_intent_used : AppAuthPayload → ℕ → S W (Unit {0})
  mark_intent_used payload expires_at =
      serve_next
        (λ key.
          Effects.◌>>=◌ (outside (on_store (λ store. (tt {0}, mark_used key expires_at store))))
            λ u. answer tt)
        (intent_replay_key host payload)

  abbrev pub token_for : AuthMethod → Text → ℕ → Option Text
  token_for signed address now = some (issue host.crypto host.secret address now)
  token_for by_token address now = none

  unfoldable pub verify_checked :
      {T : Type 0} → IntentKind T → AppAuthPayload → Option Text → S W (T × Option Text)
  verify_checked kind payload bearer = do
    unused ← assert_intent_not_replayed payload
    (intent, method) ← resolve_intent_auth kind payload bearer
    marked ← mark_intent_used payload (kind.expires_of intent)
    reading sui.now λ now. answer (intent, token_for method (kind.address_of intent) now)

  unfoldable pub verify_trade_request :
      {T : Type 0} → IntentKind T → AppAuthPayload → Option Text → S W (T × Option Text)
  verify_trade_request kind payload bearer =
      Effects.◌>>=◌ (verify_checked kind payload bearer) λ r. return (as_bad_request r)
