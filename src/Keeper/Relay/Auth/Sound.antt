-- ===== src/Keeper/Relay/Auth/Sound.antt =====
-- What is known of an intent that passed the verification.
use leverx.Prelude.{
  ℕ, ◌≡◌, refl, subst, Bool, true, ◌⊎◌, inl, inr, Option, none, some, List, ◌&&◌, arith,
}
use leverx.Prelude.Int.{ℤ, pos, negsuc}
use leverx.Prelude.Texts.{Text, text, text_eq_sound}
use leverx.Keeper.Replay.{expiry_ok}
use leverx.Keeper.Messages.{parsed}
use leverx.Keeper.Jwt.{JsonNumber, whole}
use leverx.Keeper.Relay.{
  Refusal, Served, served, rejected, AppAuthPayload, Host, IntentKind, claimed_address,
  claimed_expiry, integer_or_error, is_same_time, match_intent, bytes_or_error,
  parse_intent_message, read_signed, nonblank, is_some,
}
use leverx.Keeper.Effects.{returned}
use leverx.Keeper.Relay.Auth.{Relay, first_of, check_token, signature_of}

-- The payload carries the intent: its bytes decode to a message that is parsed into the intent, for the
-- address and the expiry that the payload claims, and the expiry check passes at that time.
pub record Carries {W T : Type 0} (host : Host W) (kind : IntentKind T) (payload : AppAuthPayload)
    (bytes : List ℕ) (intent : T) (now : ℕ) : Type 0 where
  pub encoded : Text
  pub sent : payload.message_bytes ≡ some encoded
  pub decoded : host.from_base64 encoded ≡ some bytes
  pub meant : kind.parse_message (host.text_decoder bytes) ≡ parsed intent
  pub address : claimed_address payload ≡ served (kind.address_of intent)
  pub expiry : payload.expires_at_ms ≡ some (whole (pos (kind.expires_of intent)))
  pub live : kind.assert_expiry (kind.expires_of intent) now ≡ expiry_ok

-- The payload carries the intent, and at that time a session token for the claimed address vouches for it,
-- the one of the payload or else of the header, or a signature of the intent's address on its bytes.
pub record IsAuthorised {W T : Type 0} (relay : Relay W) (kind : IntentKind T)
    (payload : AppAuthPayload) (bearer : Option Text) (now : ℕ) (intent : T) : Type 0 where
  pub bytes : List ℕ
  pub carried : Carries relay.host kind payload bytes intent now
  pub vouched :
      ((token : Text) × (first_of (nonblank payload.token) (nonblank bearer) ≡ some token)
        × (check_token relay token payload.address now ≡ served tt))
      ⊎ ((at : W) × (w : W) × ((relay.host.verify_personal_message_signature bytes
              (signature_of relay payload)
              (kind.address_of intent)
              (relay.network at)
              w).0
            ≡ returned tt))

same_time_sound : (n : ℕ) (z : ℤ) → is_same_time n z ≡ true → z ≡ pos n
same_time_sound n (pos m) h = ground arith
same_time_sound n (negsuc m) h = cc

served_injective : {A : Type 0} (a b : A) → served a ≡ served b → a ≡ b
served_injective a b h = cc

pub Served-cases :
    {A : Type 0} (m : Served A) → ((r : Refusal) × (m ≡ rejected r)) ⊎ ((a : A) × (m ≡ served a))
Served-cases (served a) = inr (a, refl)
Served-cases (rejected r) = inl (r, refl)

module _ {W T : Type 0} (host : Host W) (kind : IntentKind T) where
  match_intent_sound :
      (claimed : Text) (expires : ℤ) (now : ℕ) (bytes : List ℕ) (intent : T)
      → match_intent host kind claimed expires now bytes ≡ served intent
      → (kind.parse_message (host.text_decoder bytes) ≡ parsed intent)
        × (kind.address_of intent ≡ claimed)
        × (expires ≡ pos (kind.expires_of intent))
        × (kind.assert_expiry (kind.expires_of intent) now ≡ expiry_ok)
  unfolding match_intent
  match_intent_sound claimed expires now bytes intent h = ground (
    arith,
    text_eq_sound (kind.address_of intent) claimed,
    same_time_sound (kind.expires_of intent) expires,
  )

  -- The three steps that both ways of authorisation share.
  read_with_sound :
      (payload : AppAuthPayload) (missing : Text) (all_there : Bool) (now : ℕ) (claimed : Text)
      (expires : ℤ) (bytes : List ℕ) (intent : T)
      → claimed_address payload ≡ served claimed
      → claimed_expiry payload ≡ served expires
      → bytes_or_error host kind missing all_there payload.message_bytes ≡ served bytes
      → match_intent host kind claimed expires now bytes ≡ served intent
      → Carries host kind payload bytes intent now
  unfolding claimed_expiry
  read_with_sound payload missing all_there now claimed expires bytes intent a e b m =
      let (meant, same, time, live) = match_intent_sound claimed expires now bytes intent m in
      let (encoded, sent, decoded) = sent_bytes payload.message_bytes b in
      record {
        encoded = encoded;
        sent = sent;
        decoded = decoded;
        meant = meant;
        address = rw same a;
        expiry = rw (← time) (integer_sound payload.expires_at_ms expires e);
        live = live;
      }
    where
      sent_bytes :
          (o : Option Text)
          → bytes_or_error host kind missing all_there o ≡ served bytes
          → (encoded : Text) × (o ≡ some encoded) × (host.from_base64 encoded ≡ some bytes)
      sent_bytes none h = cc
      sent_bytes (some encoded) h = (encoded, refl, ground arith)

      integer_sound :
          (o : Option JsonNumber) (z : ℤ) → integer_or_error o ≡ served z → o ≡ some (whole z)
      integer_sound o z h = ground arith

  pub parse_intent_message_sound :
      (payload : AppAuthPayload) (now : ℕ) (intent : T)
      → parse_intent_message host kind payload now ≡ served intent
      → (bytes : List ℕ) × Carries host kind payload bytes intent now
  unfolding parse_intent_message
  parse_intent_message_sound payload now intent h =
      let there = is_some (nonblank payload.message_bytes) in
      let missing = text "missing_message_bytes" in
      elim (Served-cases (claimed_address payload)) [
        | inl (r, a) ↦ cc
        | inr (claimed, a) ↦ elim (Served-cases (claimed_expiry payload)) [
          | inl (r, e) ↦ cc
          | inr (expires, e) ↦
              elim (Served-cases (bytes_or_error host kind missing there payload.message_bytes)) [
                | inl (r, b) ↦ cc
                | inr (bytes, b) ↦ (
                  bytes,
                  read_with_sound payload missing there now claimed expires bytes intent a e b
                      (rw (a, e, b) at h),
                )
              ]
        ]
      ]

  -- The bytes and the intent that were read are the payload's, for the claimed address.
  abbrev pub IsRead : AppAuthPayload → ℕ → Text × List ℕ × T → Type 0
  IsRead payload now (claimed, bytes, intent) =
      Carries host kind payload bytes intent now × (kind.address_of intent ≡ claimed)

  pub read_signed_sound :
      (payload : AppAuthPayload) (now : ℕ) (read : Text × List ℕ × T)
      → read_signed host kind payload now ≡ served read
      → IsRead payload now read
  unfolding read_signed
  read_signed_sound payload now read h =
      let there =
        is_some (nonblank payload.message_bytes) && is_some (nonblank payload.signature) in
      let missing = text "missing_signature" in
      elim (Served-cases (claimed_address payload)) [
        | inl (r, a) ↦ cc
        | inr (owner, a) ↦ elim (Served-cases (claimed_expiry payload)) [
          | inl (r, e) ↦ cc
          | inr (expires, e) ↦
              elim (Served-cases (bytes_or_error host kind missing there payload.message_bytes)) [
                | inl (r, b) ↦ cc
                | inr (sent, b) ↦
                    elim (Served-cases (match_intent host kind owner expires now sent)) [
                      | inl (r, m) ↦ cc
                      | inr (meant, m) ↦
                          subst (IsRead payload now) (served_injective _ _ (rw (a, e, b, m) at h)) (
                            read_with_sound payload missing there now owner expires sent meant a e b
                                m,
                            (match_intent_sound owner expires now sent meant m).1,
                          )
                    ]
              ]
        ]
      ]
