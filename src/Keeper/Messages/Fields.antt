-- ===== src/Keeper/Messages/Fields.antt =====
-- The fields of a message: what the builders write of an address, a number and a flag is read back.
use leverx.Prelude.{
  ℕ, zero, suc, ◌^◌, ◌≤◌, Bool, true, false, ◌&&◌, ◌||◌, some, [], ◌∷◌, ◌≡◌, refl, arith,
}
use leverx.Prelude.Tests.{◌==◌}
use leverx.Prelude.Texts.{Text, to_lower_case, lower_unit, is_whitespace}
use leverx.Prelude.Texts.Trim.{no_blank, trim-no_blank}
use leverx.Prelude.Texts.Split.{lacks}
use leverx.Prelude.Maps.{get}
use leverx.Prelude.Decimal.{
  is_digits, spelled, to_string, spelled-to_string, all_digits-to_string, is_digits-to_string,
}
use leverx.Prelude.Numbers.Digits.{lacks-all_digits, natural_number-to_string, nearest_integer}
use leverx.Keeper.Messages.{
  Fields, parsed, newline, is_hex, hex_run, is_address, normalised, parse_address_field,
  parse_u64_field, parse_number_field, parse_optional_u64, parse_optional_number, parse_bool,
  optional_u64, optional_number, Number, finite, infinite, number_of_bigint, number_or_error,
}
use leverx.Keeper.Messages.Build.{encode_bool, number_text}

hex_facts :
    (c : ℕ)
    → is_hex c ≡ true
    → (is_whitespace c ≡ false) × (lower_unit c ≡ c) × ((c == newline) ≡ false)
hex_facts c h = ground arith

abbrev is_plain : Text → Bool
is_plain [] = true
is_plain (c ∷ cs) = (is_hex c || c == b'x') && is_plain cs

plain_facts :
    (c : ℕ)
    → (is_hex c || c == b'x') ≡ true
    → (is_whitespace c ≡ false) × (lower_unit c ≡ c) × ((c == newline) ≡ false)
plain_facts c h = ground arith

no_blank_plain : (t : Text) → is_plain t ≡ true → no_blank t ≡ true
no_blank_plain [] h = refl
no_blank_plain (c ∷ cs) h = ground (arith, plain_facts c, no_blank_plain cs)

lower_plain : (t : Text) → is_plain t ≡ true → to_lower_case t ≡ t
lower_plain [] h = refl
lower_plain (c ∷ cs) h = ground (arith, plain_facts c, lower_plain cs)

normalised_plain : (t : Text) → is_plain t ≡ true → normalised t ≡ t
unfolding normalised
normalised_plain t h = rw (trim-no_blank t (no_blank_plain t h), lower_plain t h) refl

lacks_plain : (t : Text) → is_plain t ≡ true → lacks newline t ≡ true
lacks_plain [] h = refl
lacks_plain (c ∷ cs) h = ground (arith, plain_facts c, lacks_plain cs)

hex_run_plain : (n : ℕ) (t : Text) → hex_run n t ≡ true → is_plain t ≡ true
hex_run_plain zero [] h = refl
hex_run_plain zero (c ∷ cs) h = cc
hex_run_plain (suc n) [] h = refl
hex_run_plain (suc n) (c ∷ cs) h = ground (arith, hex_run_plain n cs)

address_parts :
    (n c d : ℕ) (cs : Text)
    → (c == b'0' && d == b'x' && hex_run n cs) ≡ true
    → is_plain (c ∷ d ∷ cs) ≡ true
address_parts n c d cs h = ground (arith, hex_run_plain n cs)

address_plain : (t : Text) → is_address t ≡ true → is_plain t ≡ true
unfolding is_address
address_plain [] h = refl
address_plain (c ∷ []) h = cc
address_plain (c ∷ d ∷ cs) h = address_parts 64 c d cs h

-- An address is its own normal form.
pub normalised-address : (t : Text) → is_address t ≡ true → normalised t ≡ t
normalised-address t h = normalised_plain t (address_plain t h)

pub lacks-address : (t : Text) → is_address t ≡ true → lacks newline t ≡ true
lacks-address t h = lacks_plain t (address_plain t h)

pub lacks-to_string : (n : ℕ) → lacks newline (to_string n) ≡ true
lacks-to_string n = lacks-all_digits newline (to_string n) refl (all_digits-to_string n)

pub lacks-number_text : (n : Number) → lacks newline (number_text n) ≡ true
lacks-number_text (finite n) = lacks-to_string n
lacks-number_text infinite = refl

pub lacks-encode_bool : (b : Bool) → lacks newline (encode_bool b) ≡ true
lacks-encode_bool true = refl
lacks-encode_bool false = refl

pub parse_bool-encode_bool : (b : Bool) → parse_bool (some (encode_bool b)) ≡ b
parse_bool-encode_bool true = refl
parse_bool-encode_bool false = refl

module _ (fields : Fields) (key : Text) where
  pub parse_address_field_lem :
      (t : Text)
      → get key fields ≡ some (normalised t)
      → is_address (normalised t) ≡ true
      → parse_address_field fields key ≡ parsed (normalised t)
  unfolding parse_address_field
  parse_address_field_lem t e h = rw (e, normalised-address (normalised t) h, h) refl

  pub parse_u64_field_lem :
      (n : ℕ) → get key fields ≡ some (to_string n) → parse_u64_field fields key ≡ parsed n
  unfolding parse_u64_field
  parse_u64_field_lem n e = rw (e, is_digits-to_string n, spelled-to_string n) refl

  pub parse_number_field_lem :
      (n : ℕ)
      → get key fields ≡ some (to_string n)
      → n ≤ 2 ^ 53
      → parse_number_field fields key ≡ parsed n
  unfolding parse_number_field
  parse_number_field_lem n e h = rw (e, natural_number-to_string n h) refl

  pub parse_optional_u64_lem :
      (n : ℕ) → get key fields ≡ some (to_string n) → parse_optional_u64 fields key ≡ parsed n
  unfolding parse_optional_u64
  parse_optional_u64_lem n e =
      rw (e, optional_digits (to_string n) (is_digits-to_string n), spelled-to_string n) refl
    where
      optional_digits :
          (t : Text) → is_digits t ≡ true → optional_u64 key (some t) ≡ parsed (spelled 0 t)
      optional_digits [] h = cc
      optional_digits (c ∷ cs) h = rw h refl

  pub parse_optional_number_lem :
      (n : ℕ)
      → get key fields ≡ some (to_string n)
      → n ≤ 2 ^ 53
      → parse_optional_number fields key ≡ parsed n
  unfolding parse_optional_number
  parse_optional_number_lem n e h =
      rw (e, optional_digits (to_string n) (is_digits-to_string n), natural_number-to_string n h)
        refl
    where
      optional_digits :
          (t : Text)
          → is_digits t ≡ true
          → optional_number key (some t) ≡ number_or_error key (some t)
      optional_digits [] h = cc
      optional_digits (c ∷ cs) h = refl

-- The numbers up to 2^53, which doubles hold exactly.
abbrev pub IsExact : Number → Type 0
IsExact (finite n) = n ≤ 2 ^ 53
IsExact infinite = ⊥

pub number_of_bigint_lem : (n : ℕ) → n ≤ 2 ^ 53 → number_of_bigint n ≡ finite n
unfolding number_of_bigint
number_of_bigint_lem n h = rw (nearest_integer n h) refl
