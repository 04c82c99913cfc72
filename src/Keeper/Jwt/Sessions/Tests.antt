-- ===== src/Keeper/Jwt/Sessions/Tests.antt =====
-- Session tokens with a codec that spells each code unit in ones.
use leverx.Prelude.{arith, ◌∙◌, ℕ, zero, suc, ◌+◌, ◌≡◌, refl, ap, true, some, [], ◌∷◌, ◌++◌, none}
use leverx.Prelude.Tests.{if◌then◌else◌, ◌==◌}
use leverx.Prelude.Int.{pos}
use leverx.Prelude.Lists.{length}
use leverx.Prelude.Texts.{Text, text, trim}
use leverx.Keeper.Messages.{is_address, normalised}
use leverx.Keeper.Jwt.{
  ParsedClaims, claims_of, not_json, whole, Crypto, accepted, verify_address, issue, jwt_secret,
  parse_bearer_token,
}
use leverx.Keeper.Jwt.Sessions.{
  IsCodec, all_base64url, session_answer, verify_address-issue, IsSession, verify_address_sound,
}

abbrev pub ones : ℕ → Text → Text
ones zero rest = b'0' ∷ rest
ones (suc n) rest = b'1' ∷ ones n rest

abbrev pub spell : Text → Text
spell [] = []
spell (c ∷ cs) = ones c (spell cs)

abbrev pub count : Text → ℕ → Text
count [] n = []
count (c ∷ cs) n = if c == b'0' then n ∷ count cs 0 else count cs (suc n)

abbrev pub read_claims : Text → ParsedClaims
read_claims (iat ∷ exp ∷ sub) = claims_of (some sub) (some (whole (pos exp)))
read_claims _ = not_json

abbrev pub crypto : Crypto
crypto = record {
  hmac = λ key t. spell (length (key ++ t) ∷ []);
  encode = spell;
  decode = λ t. count t 0;
  decode_bytes = λ t. t;
  stringify_header = [];
  stringify = λ c. c.iat ∷ c.exp ∷ c.sub;
  parse = read_claims;
}

ones_base64url : (n : ℕ) (t : Text) → all_base64url t ≡ true → all_base64url (ones n t) ≡ true
ones_base64url zero t h = h
ones_base64url (suc n) t h = ones_base64url n t h

spell_base64url : (t : Text) → all_base64url (spell t) ≡ true
spell_base64url [] = refl
spell_base64url (c ∷ cs) = ones_base64url c (spell cs) (spell_base64url cs)

count-ones : (n k : ℕ) (t : Text) → count (ones n t) k ≡ (k + n) ∷ count t 0
count-ones zero k t = ground arith
count-ones (suc n) k t = count-ones n (suc k) t ∙ ap (λ m. m ∷ count t 0) (omega arith)

count-spell : (t : Text) → count (spell t) 0 ≡ t
count-spell [] = refl
count-spell (c ∷ cs) = ground (arith, count-ones c 0 (spell cs), count-spell cs)

codec : IsCodec crypto
codec = record {
  encode_base64url = spell_base64url;
  hmac_base64url = λ key t. spell_base64url (length (key ++ t) ∷ []);
  decode-encode = count-spell;
  parse-stringify = λ c. refl;
}

abbrev owner : Text
owner = text "0x00000000000000000000000000000000000000000000000000000000000000aa"

verify_address-issue_example :
    verify_address crypto [] (issue crypto [] owner 5_000) owner 20_000
    ≡ session_answer owner owner 5_000 20_000
unfolding is_address normalised trim
verify_address-issue_example = verify_address-issue crypto [] owner owner 5_000 20_000 codec refl

fresh : session_answer owner owner 5_000 20_000 ≡ accepted tt
unfolding normalised trim
fresh = refl

verify_address_sound_example :
    IsSession crypto [] (issue crypto [] owner 5_000) (normalised owner) 20_000
verify_address_sound_example =
    verify_address_sound crypto [] (issue crypto [] owner 5_000) owner 20_000
      (verify_address-issue_example ∙ fresh)

secret_of_key : jwt_secret (some (text "  ")) (some (text " k")) ≡ some (text "leverx-app-jwt:k")
unfolding jwt_secret trim
secret_of_key = refl

bearer :
    (parse_bearer_token (some (text "  bearer \t a.b.c ")) ≡ some (text "a.b.c"))
    × (parse_bearer_token (some (text "Bearer")) ≡ none)
    × (parse_bearer_token (some (text "Bearer a\nb")) ≡ none)
    × (parse_bearer_token (some (text "Bearera")) ≡ none)
unfolding parse_bearer_token trim
bearer = (refl, refl, refl, refl)
