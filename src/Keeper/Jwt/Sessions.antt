-- ===== src/Keeper/Jwt/Sessions.antt =====
-- keeper/src/auth/app-jwt.service.ts: how long a session lasts, and what an accepted token says.
pub mod Tests
use leverx.Prelude.{
  ℕ, ◌+◌, ◌/◌, ◌<◌, ◌≡◌, refl, sym, ap, ◌∙◌, Bool, true, false, not, ◌&&◌, ◌||◌, Option, none, some,
  List, [], ◌∷◌, ◌++◌, inl, inr, arith,
}
use mathlib.Core.List.{append_assoc}
use leverx.Prelude.Tests.{leb, ◌==◌, if◌then◌else◌, Bool-cases}
use leverx.Prelude.Int.{pos, leb_ℤ}
use leverx.Prelude.Texts.{Text, text, text_eq, text_eq_refl, text_eq_sound, trim, is_whitespace}
use leverx.Prelude.Texts.Split.{split, join, lacks, split-join}
use leverx.Prelude.Texts.Trim.{no_blank, trim-no_blank, no_blank-append}
use leverx.Keeper.Messages.{is_address, normalised}
use leverx.Keeper.Jwt.{
  JsonNumber, whole, not_json, null_json, JwtClaims, ParsedClaims, claims_of, Crypto, Verified,
  accepted, unauthorized, type_error, app_jwt_ttl_sec, dot, is_expired, check_claims, sign, issue,
  verify, verify_parts, verify_trimmed, check_subject, verify_address,
}

-- A unit of base64url.
abbrev pub is_base64url : ℕ → Bool
is_base64url c =
    (leb b'a' c && leb c b'z')
    || (leb b'A' c && leb c b'Z')
    || (leb b'0' c && leb c b'9')
    || c == b'-'
    || c == b'_'

abbrev pub all_base64url : Text → Bool
all_base64url [] = true
all_base64url (c ∷ cs) = is_base64url c && all_base64url cs

-- What node promises: the encodings are base64url, and decoding and parsing invert them.
pub record IsCodec (crypto : Crypto) : Type 0 where
  pub encode_base64url : (t : Text) → all_base64url (crypto.encode t) ≡ true
  pub hmac_base64url : (key t : Text) → all_base64url (crypto.hmac key t) ≡ true
  pub decode-encode : (t : Text) → crypto.decode (crypto.encode t) ≡ t
  pub parse-stringify :
      (c : JwtClaims)
      → crypto.parse (crypto.stringify c) ≡ claims_of (some c.sub) (some (whole (pos c.exp)))

lacks-base64url : (t : Text) → all_base64url t ≡ true → lacks dot t ≡ true
lacks-base64url [] h = refl
lacks-base64url (c ∷ cs) h = ground (arith, lacks-base64url cs)

base64url_no_blank : (t : Text) → all_base64url t ≡ true → no_blank t ≡ true
base64url_no_blank [] h = refl
base64url_no_blank (c ∷ cs) h = ground (arith, base64url_unit c, base64url_no_blank cs)
  where
    base64url_unit : (c : ℕ) → is_base64url c ≡ true → is_whitespace c ≡ false
    base64url_unit c h = ground arith

verify_trimmed_lem :
    (crypto : Crypto) (secret : Text) (now_sec : ℕ) (token : Text)
    → verify_trimmed crypto secret now_sec token
      ≡ verify_parts crypto secret now_sec (split dot token)
unfolding split
verify_trimmed_lem crypto secret now_sec [] = refl
verify_trimmed_lem crypto secret now_sec (c ∷ cs) = refl

three_parts :
    (a b c : Text)
    → all_base64url a ≡ true
    → all_base64url b ≡ true
    → all_base64url c ≡ true
    → (trim ((a ++ (dot ∷ b)) ++ (dot ∷ c)) ≡ (a ++ (dot ∷ b)) ++ (dot ∷ c))
      × (split dot ((a ++ (dot ∷ b)) ++ (dot ∷ c)) ≡ a ∷ b ∷ c ∷ [])
unfolding join
three_parts a b c ha hb hc = (
  trim-no_blank _ (
      no_blank-append (a ++ (dot ∷ b)) (dot ∷ c)
        (no_blank-append a (dot ∷ b) (base64url_no_blank a ha) (base64url_no_blank b hb))
        (base64url_no_blank c hc)),
  rw (append_assoc a (dot ∷ b) (dot ∷ c)) (
      split-join dot a (b ∷ c ∷ [])
        (rw (lacks-base64url a ha, lacks-base64url b hb, lacks-base64url c hc) refl)),
)

-- A token that the keeper signed is read up to its claims.
verify-sign :
    (crypto : Crypto) (secret : Text) (claims : JwtClaims) (now_ms : ℕ)
    → IsCodec crypto
    → verify crypto secret (sign crypto secret claims) now_ms
      ≡ check_claims (now_ms / 1_000) (claims_of (some claims.sub) (some (whole (pos claims.exp))))
unfolding verify sign
verify-sign crypto secret claims now_ms codec =
    let header = crypto.encode crypto.stringify_header in
    let payload = crypto.encode (crypto.stringify claims) in
    let signature = crypto.hmac secret (header ++ (dot ∷ payload)) in
    let (trims, splits) =
      three_parts header payload signature (codec.encode_base64url _) (codec.encode_base64url _)
        (codec.hmac_base64url secret _) in
    rw
      (
        trims,
        verify_trimmed_lem crypto secret (now_ms / 1_000)
            ((header ++ (dot ∷ payload)) ++ (dot ∷ signature)),
        splits,
        text_eq_refl (crypto.decode_bytes signature),
        codec.decode-encode (crypto.stringify claims),
        codec.parse-stringify claims,
      )
      refl

-- The answer for a token that was issued to one address and is shown for another at a later time.
abbrev pub session_answer : Text → Text → ℕ → ℕ → Verified (Unit {0})
session_answer owner address issued_ms now_ms =
    if leb (issued_ms / 1_000 + app_jwt_ttl_sec) (now_ms / 1_000)
    then unauthorized (text "token_expired")
    else if text_eq (normalised owner) (normalised address)
    then accepted tt
    else unauthorized (text "address_mismatch")

-- A token that was issued to an address is accepted for that address, however it is spaced and
-- capitalised, for three days and not longer, and is refused for every other address.
pub verify_address-issue :
    (crypto : Crypto) (secret owner address : Text) (issued_ms now_ms : ℕ)
    → IsCodec crypto
    → is_address (normalised owner) ≡ true
    → verify_address crypto secret (issue crypto secret owner issued_ms) address now_ms
      ≡ session_answer owner address issued_ms now_ms
unfolding verify_address issue
verify_address-issue crypto secret owner address issued_ms now_ms codec h =
    let exp = issued_ms / 1_000 + app_jwt_ttl_sec in
    rw
      (
        verify-sign crypto secret
            (record { sub = normalised owner; iat = issued_ms / 1_000; exp = exp }) now_ms codec,
        h,
        leb_pos exp (now_ms / 1_000),
      )
      (elim (Bool-cases (leb exp (now_ms / 1_000))) [ inl e ↦ rw e refl | inr e ↦ rw e refl ])
  where
    leb_pos : (a b : ℕ) → leb_ℤ (pos a) (pos b) ≡ leb a b
    leb_pos a b = ground arith

-- What an accepted token says of its three parts.
pub record IsSession (crypto : Crypto) (secret token sub : Text) (now_ms : ℕ) : Type 0 where
  pub header : Text
  pub payload : Text
  pub signature : Text
  pub exp : Option JsonNumber
  pub parts : split dot (trim token) ≡ header ∷ payload ∷ signature ∷ []
  pub signed :
      crypto.decode_bytes signature
      ≡ crypto.decode_bytes (crypto.hmac secret (header ++ (dot ∷ payload)))
  pub claims : crypto.parse (crypto.decode payload) ≡ claims_of (some sub) exp
  pub address : is_address sub ≡ true
  pub unexpired : is_expired (now_ms / 1_000) exp ≡ false

check_claims_sound :
    (now_sec : ℕ) (c : ParsedClaims) (sub : Text)
    → check_claims now_sec c ≡ accepted sub
    → (exp : Option JsonNumber) × (c ≡ claims_of (some sub) exp)
      × (is_address sub ≡ true)
      × (is_expired now_sec exp ≡ false)
check_claims_sound now_sec not_json sub h = cc
check_claims_sound now_sec null_json sub h = cc
check_claims_sound now_sec (claims_of none exp) sub h = cc
check_claims_sound now_sec (claims_of (some t) exp) sub h = elim (Bool-cases (is_address t)) [
  | inl a ↦ elim (Bool-cases (is_expired now_sec exp)) [
    | inl e ↦ absurd (ground arith)
    | inr e ↦ (exp, ground arith, ground arith, e)
  ]
  | inr a ↦ absurd (ground arith)
]

verify_parts_sound :
    (crypto : Crypto) (secret token sub : Text) (now_ms : ℕ) (parts : List Text)
    → split dot (trim token) ≡ parts
    → verify_parts crypto secret (now_ms / 1_000) parts ≡ accepted sub
    → IsSession crypto secret token sub now_ms
verify_parts_sound crypto secret token sub now_ms [] e h = cc
verify_parts_sound crypto secret token sub now_ms (a ∷ []) e h = cc
verify_parts_sound crypto secret token sub now_ms (a ∷ b ∷ []) e h = cc
verify_parts_sound crypto secret token sub now_ms (a ∷ b ∷ c ∷ d ∷ ds) e h = cc
verify_parts_sound crypto secret token sub now_ms (a ∷ b ∷ c ∷ []) e h =
    elim (Bool-cases (
      text_eq (crypto.decode_bytes c)
        (crypto.decode_bytes (crypto.hmac secret (a ++ (dot ∷ b)))))) [
          | inl s ↦
              let (exp, claims_are, addressed, fresh) =
                check_claims_sound (now_ms / 1_000) (crypto.parse (crypto.decode b)) sub
                  (rw s at h) in
              record {
                header = a;
                payload = b;
                signature = c;
                exp = exp;
                parts = e;
                signed = text_eq_sound _ _ s;
                claims = claims_are;
                address = addressed;
                unexpired = fresh;
              }
          | inr s ↦ absurd (ground arith)
        ]

check_subject_sound :
    (crypto : Crypto) (secret expected : Text) (v : Verified Text)
    → check_subject crypto secret expected v ≡ accepted tt
    → v ≡ accepted expected
check_subject_sound crypto secret expected (accepted sub) h =
    elim (Bool-cases (text_eq sub expected)) [
      | inl e ↦ ap accepted (text_eq_sound sub expected e)
      | inr e ↦ absurd (ground arith)
    ]
check_subject_sound crypto secret expected (unauthorized code) h = cc
check_subject_sound crypto secret expected type_error h = cc

-- A token that is accepted for an address has exactly three parts, carries the HMAC of the first two
-- under the secret, and claims that address, in normal form, and an expiry that is still to come.
pub verify_address_sound :
    (crypto : Crypto) (secret token address : Text) (now_ms : ℕ)
    → verify_address crypto secret token address now_ms ≡ accepted tt
    → IsSession crypto secret token (normalised address) now_ms
unfolding verify_address verify
verify_address_sound crypto secret token address now_ms h =
    let parts_accept =
      sym (verify_trimmed_lem crypto secret (now_ms / 1_000) (trim token))
      ∙ check_subject_sound crypto secret (normalised address)
          (verify_trimmed crypto secret (now_ms / 1_000) (trim token)) h in
    verify_parts_sound crypto secret token (normalised address) now_ms (split dot (trim token)) refl
      parts_accept
