-- ===== src/Keeper/Jwt.antt =====
-- keeper/src/auth/app-jwt.service.ts: the session tokens that the keeper issues and accepts, and
-- keeper/src/auth/parse-bearer-token.ts.
pub mod Sessions
use leverx.Prelude.{
  ℕ, ◌+◌, ◌/◌, Bool, true, false, not, ◌&&◌, ◌||◌, Option, none, some, List, [], ◌∷◌, ◌++◌,
}
use leverx.Prelude.Tests.{ltb, leb, ◌==◌, if◌then◌else◌}
use leverx.Prelude.Int.{ℤ, leb_ℤ, ltb_ℤ, pos}
use leverx.Prelude.Texts.{Text, text, text_eq, trim, is_whitespace, lower_unit}
use leverx.Prelude.Texts.Split.{split}
use leverx.Keeper.Messages.{is_address, normalised}

-- A number of a JSON text: an integer, a number strictly between an integer and the next one, or one too
-- large for a double.
pub data JsonNumber : Type 0 where
  whole between : ℤ → JsonNumber
  not_finite : JsonNumber

pub record JwtClaims : Type 0 where
  pub sub : Text
  pub iat : ℕ
  pub exp : ℕ

-- What `JSON.parse` makes of the payload: an error, `null`, or a value with the fields that are read (none
-- for a field that is missing or of another type).
pub data ParsedClaims : Type 0 where
  not_json null_json : ParsedClaims
  claims_of : Option Text → Option JsonNumber → ParsedClaims

-- node:crypto, `Buffer` and `JSON`.
pub record Crypto : Type 0 where
  -- the HMAC with SHA-256 of a text under a key, in base64url
  pub hmac : Text → Text → Text
  pub encode : Text → Text
  pub decode : Text → Text
  pub decode_bytes : Text → List ℕ
  pub stringify_header : Text
  pub stringify : JwtClaims → Text
  pub parse : Text → ParsedClaims

pub data Verified (A : Type 0) : Type 0 where
  accepted : A → Verified A
  unauthorized : Text → Verified A
  -- an error that is no `UnauthorizedException`
  type_error : Verified A

abbrev pub app_jwt_ttl_sec : ℕ
app_jwt_ttl_sec = 259_200

abbrev pub present : Option Text → Text
present none = []
present (some t) = trim t

abbrev pub key_fallback : Text → Text
key_fallback [] = []
key_fallback (c ∷ cs) = text "leverx-app-jwt:" ++ (c ∷ cs)

abbrev pub secret_or : Text → Text → Option Text
secret_or [] [] = none
secret_or [] (c ∷ cs) = some (c ∷ cs)
secret_or (c ∷ cs) fallback = some (c ∷ cs)

-- The secret of the constructor, which throws on none.
unfoldable pub jwt_secret : Option Text → Option Text → Option Text
jwt_secret configured private_key =
    secret_or (present configured) (key_fallback (present private_key))

abbrev pub dot : ℕ
dot = b'.'

abbrev pub is_expired : ℕ → Option JsonNumber → Bool
is_expired now_sec none = true
is_expired now_sec (some (whole exp)) = leb_ℤ exp (pos now_sec)
is_expired now_sec (some (between exp)) = ltb_ℤ exp (pos now_sec)
is_expired now_sec (some not_finite) = true

abbrev pub check_claims : ℕ → ParsedClaims → Verified Text
check_claims now_sec not_json = unauthorized (text "invalid_token")
check_claims now_sec null_json = type_error
check_claims now_sec (claims_of none exp) = unauthorized (text "invalid_token")
check_claims now_sec (claims_of (some sub) exp) =
    if is_address sub
    then (if is_expired now_sec exp then unauthorized (text "token_expired") else accepted sub)
    else unauthorized (text "invalid_token")

module _ (crypto : Crypto) (secret : Text) where
  unfoldable pub sign : JwtClaims → Text
  sign claims =
      let signing_input =
        crypto.encode crypto.stringify_header ++ (dot ∷ crypto.encode (crypto.stringify claims)) in
      signing_input ++ (dot ∷ crypto.hmac secret signing_input)

  unfoldable pub issue : Text → ℕ → Text
  issue address now_ms =
      let now_sec = now_ms / 1_000 in
      sign (record { sub = normalised address; iat = now_sec; exp = now_sec + app_jwt_ttl_sec })

  abbrev pub verify_parts : ℕ → List Text → Verified Text
  verify_parts now_sec (header ∷ payload ∷ signature ∷ []) =
      let expected = crypto.hmac secret (header ++ (dot ∷ payload)) in
      if text_eq (crypto.decode_bytes signature) (crypto.decode_bytes expected)
      then check_claims now_sec (crypto.parse (crypto.decode payload))
      else unauthorized (text "invalid_token")
  verify_parts now_sec _ = unauthorized (text "invalid_token")

  abbrev pub verify_trimmed : ℕ → Text → Verified Text
  verify_trimmed now_sec [] = unauthorized (text "invalid_token")
  verify_trimmed now_sec (c ∷ cs) = verify_parts now_sec (split dot (c ∷ cs))

  -- The subject of an accepted token.
  unfoldable pub verify : Text → ℕ → Verified Text
  verify token now_ms = verify_trimmed (now_ms / 1_000) (trim token)

  abbrev pub check_subject : Text → Verified Text → Verified (Unit {0})
  check_subject expected (accepted sub) =
      if text_eq sub expected then accepted tt else unauthorized (text "address_mismatch")
  check_subject expected (unauthorized code) = unauthorized code
  check_subject expected type_error = type_error

  unfoldable pub verify_address : Text → Text → ℕ → Verified (Unit {0})
  verify_address token address now_ms = check_subject (normalised address) (verify token now_ms)

-- What is left behind a word in either case.
abbrev pub after_word : Text → Text → Option Text
after_word [] t = some t
after_word (p ∷ ps) [] = none
after_word (p ∷ ps) (c ∷ cs) = if lower_unit c == p then after_word ps cs else none

-- `.` matches no line terminator.
abbrev pub on_one_line : Text → Bool
on_one_line [] = true
on_one_line (c ∷ cs) = not (c == 10 || c == 13 || c == 8_232 || c == 8_233) && on_one_line cs

abbrev pub nonempty_line : Text → Option Text
nonempty_line [] = none
nonempty_line (c ∷ cs) = if on_one_line (c ∷ cs) then some (c ∷ cs) else none

-- `\s+(.+)` and the `trim` of the group.
abbrev pub after_space : Option Text → Option Text
after_space none = none
after_space (some []) = none
after_space (some (c ∷ cs)) = if is_whitespace c then nonempty_line (trim (c ∷ cs)) else none

unfoldable pub parse_bearer_token : Option Text → Option Text
parse_bearer_token none = none
parse_bearer_token (some authorization) =
    after_space (after_word (text "bearer") (trim authorization))
