-- ===== src/Keeper/Messages/RoundTrip/Base.antt =====
-- The lines that the four messages share are read back.
use leverx.Prelude.{ℕ, ◌^◌, ◌≤◌, List, true, some, [], ◌∷◌, ◌++◌, ◌≡◌, refl, arith}
use leverx.Prelude.Texts.{Text, text}
use leverx.Prelude.Maps.{get}
use leverx.Prelude.Decimal.{to_string}
use leverx.Keeper.Messages.{
  Fields, parsed, is_address, normalised, Number, finite, infinite, number_of_bigint,
  parse_u64_field,
}
use leverx.Keeper.Messages.Trade.{MarketKeyFields, IntentBase, parse_market_key_fields, parse_base}
use leverx.Keeper.Messages.Build.{encode_bool, number_text, base_fields}
use leverx.Keeper.Messages.Lines.{all_clean}
use leverx.Keeper.Messages.Fields.{
  IsExact, parse_address_field_lem, parse_u64_field_lem, parse_number_field_lem,
  parse_bool-encode_bool, number_of_bigint_lem, lacks-address, lacks-to_string, lacks-number_text,
  lacks-encode_bool,
}

-- The addresses are addresses once trimmed and in lower case, and the numbers are exact.
unfoldable pub IsWellFormed : IntentBase → Type 0
IsWellFormed base =
    (is_address (normalised base.address) ≡ true)
    × (is_address (normalised base.account_id) ≡ true)
    × (is_address (normalised base.predict_manager_id) ≡ true)
    × (base.expires_at_ms ≤ 2 ^ 53)
    × (is_address (normalised base.key.oracle_id) ≡ true)
    × IsExact base.key.expiry_ms
    × IsExact base.key.strike
    × IsExact base.key.higher_strike

abbrev pub normalised_key : MarketKeyFields → MarketKeyFields
normalised_key key = record key { oracle_id = normalised key.oracle_id }

-- The intent with its addresses trimmed and in lower case.
unfoldable pub normalised_base : IntentBase → IntentBase
unfolding normalised
normalised_base base = record base {
  address = normalised base.address;
  account_id = normalised base.account_id;
  predict_manager_id = normalised base.predict_manager_id;
  key = normalised_key base.key;
}

-- The fields have the values of the lines that the messages share.
abbrev pub BaseIn : IntentBase → Fields → Type 0
BaseIn base fields =
    (get (text "address") fields ≡ some (normalised base.address))
    × (get (text "account_id") fields ≡ some (normalised base.account_id))
    × (get (text "predict_manager_id") fields ≡ some (normalised base.predict_manager_id))
    × (get (text "expires_ms") fields ≡ some (to_string base.expires_at_ms))
    × (get (text "oracle_id") fields ≡ some (normalised base.key.oracle_id))
    × (get (text "market_expiry_ms") fields ≡ some (number_text base.key.expiry_ms))
    × (get (text "strike") fields ≡ some (number_text base.key.strike))
    × (get (text "higher_strike") fields ≡ some (number_text base.key.higher_strike))
    × (get (text "is_up") fields ≡ some (encode_bool base.key.is_up))
    × (get (text "is_range") fields ≡ some (encode_bool base.key.is_range))

parse_exact :
    (fields : Fields) (key : Text) (n : Number)
    → get key fields ≡ some (number_text n)
    → IsExact n
    → (m : ℕ) × (parse_u64_field fields key ≡ parsed m) × (number_of_bigint m ≡ n)
parse_exact fields key (finite m) e h =
    (m, parse_u64_field_lem fields key m e, number_of_bigint_lem m h)
parse_exact fields key infinite e h = absurd h

parse_market_key_fields_lem :
    (base : IntentBase) (fields : Fields)
    → BaseIn base fields
    → IsWellFormed base
    → parse_market_key_fields fields ≡ parsed (normalised_key base.key)
unfolding parse_market_key_fields IsWellFormed
parse_market_key_fields_lem base fields
      (_, _, _, _, at_oracle, at_expiry, at_low, at_high, at_up, at_range)
      (_, _, _, _, oracle, expiry, low, high) =
    let (m0, expiry_read, expiry_is) =
      parse_exact fields (text "market_expiry_ms") _ at_expiry expiry in
    let (m1, low_read, low_is) = parse_exact fields (text "strike") _ at_low low in
    let (m2, high_read, high_is) = parse_exact fields (text "higher_strike") _ at_high high in
    rw
      (
        parse_address_field_lem fields (text "oracle_id") base.key.oracle_id at_oracle oracle,
        expiry_read,
        low_read,
        high_read,
        expiry_is,
        low_is,
        high_is,
        at_up,
        at_range,
        parse_bool-encode_bool base.key.is_up,
        parse_bool-encode_bool base.key.is_range,
      )
      refl

-- The shared lines are read into the normal form of what they were written from.
pub parse_base_lem :
    (base : IntentBase) (fields : Fields)
    → BaseIn base fields
    → IsWellFormed base
    → parse_base fields ≡ parsed (normalised_base base)
unfolding parse_base IsWellFormed normalised_base
parse_base_lem base fields at h =
    rw
      (
        parse_number_field_lem fields (text "expires_ms") base.expires_at_ms (at.3) (h.3),
        parse_market_key_fields_lem base fields at h,
        parse_address_field_lem fields (text "address") base.address (at.0) (h.0),
        parse_address_field_lem fields (text "account_id") base.account_id (at.1) (h.1),
        parse_address_field_lem fields (text "predict_manager_id") base.predict_manager_id (at.2)
            (h.2),
      )
      refl

-- No value of the shared lines has a line feed.
pub base_fields_clean :
    (base : IntentBase) → IsWellFormed base → all_clean (base_fields base) ≡ true
unfolding IsWellFormed
base_fields_clean base (owner, account, manager, _, oracle, _, _, _) =
    rw
      (
        lacks-address _ owner,
        lacks-address _ account,
        lacks-address _ manager,
        lacks-address _ oracle,
        lacks-to_string base.expires_at_ms,
        lacks-number_text base.key.expiry_ms,
        lacks-number_text base.key.strike,
        lacks-number_text base.key.higher_strike,
        lacks-encode_bool base.key.is_up,
        lacks-encode_bool base.key.is_range,
      )
      refl

pub all_clean-append :
    (fields more : List (Text × Text))
    → all_clean fields ≡ true
    → all_clean more ≡ true
    → all_clean (fields ++ more) ≡ true
all_clean-append [] more h k = k
all_clean-append (field ∷ fields) more h k = ground (arith, all_clean-append fields more)
