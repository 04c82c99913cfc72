-- ===== src/Keeper/Messages.antt =====
-- keeper/src/trade/trade-message.ts: the reading of the `key=value` lines of a signed message. A message
-- is the text that its bytes decode to; it is ASCII when the builders wrote it.
pub mod Trade
pub mod Build
pub mod Lines
pub mod Fields
pub mod RoundTrip
pub mod Manager
use leverx.Prelude.{
  ℕ, ◌*◌, Bool, true, false, ◌&&◌, ◌||◌, Option, none, some, List, [], ◌∷◌, zero, suc,
}
use leverx.Prelude.Tests.{◌==◌, leb, if◌then◌else◌}
use leverx.Prelude.Texts.{Text, text, text_eq, trim, to_lower_case}
use leverx.Prelude.Texts.Split.{split, cut}
use leverx.Prelude.Maps.{Map, get, set}
use leverx.Prelude.Decimal.{is_digits, spelled, is_digit}
use leverx.Prelude.Numbers.{natural_number, nearest}

-- The messages of the errors; `invalid_field` carries the key of `invalid_${key}`.
pub data ParseError : Type 0 where
  invalid_message_prefix missing_limit_fields : ParseError
  invalid_field : Text → ParseError

pub data Parsed (A : Type 0) : Type 0 where
  parsed : A → Parsed A
  refused : ParseError → Parsed A

infixl 5 ◌>>=◌
abbrev pub ◌>>=◌ : {A B : Type 0} → Parsed A → (A → Parsed B) → Parsed B
parsed a >>= f = f a
refused e >>= f = refused e

-- The object that a message is read into.
abbrev pub Fields : Type 0
Fields = Map Text

abbrev pub newline : ℕ
newline = 10

abbrev pub keep_pair : Option (Text × Text) → Fields → Fields
keep_pair none fields = fields
keep_pair (some ([], value)) fields = fields
keep_pair (some (c ∷ key, value)) fields = set (c ∷ key) value fields

-- A line without `=`, or with nothing in front of it, is passed over.
unfoldable pub read_line : Text → Fields → Fields
unfolding cut set
read_line line fields = keep_pair (cut b'=' line) fields

unfoldable pub read_lines : List Text → Fields → Fields
unfolding read_line
read_lines [] fields = fields
read_lines (line ∷ lines) fields = read_lines lines (read_line line fields)

abbrev pub read_after_prefix : Text → List Text → Parsed Fields
read_after_prefix expected_prefix [] = refused invalid_message_prefix
read_after_prefix expected_prefix (first ∷ lines) =
    if text_eq first expected_prefix
    then parsed (read_lines lines [])
    else refused invalid_message_prefix

unfoldable pub parse_key_value_message : Text → Text → Parsed Fields
unfolding split read_lines
parse_key_value_message message expected_prefix =
    read_after_prefix expected_prefix (split newline message)

abbrev pub is_hex : ℕ → Bool
is_hex c = (leb b'a' c && leb c b'f') || is_digit c

abbrev pub hex_run : ℕ → Text → Bool
hex_run zero [] = true
hex_run zero (c ∷ cs) = false
hex_run (suc n) [] = false
hex_run (suc n) (c ∷ cs) = is_hex c && hex_run n cs

-- `/^0x[a-f0-9]{64}$/`
unfoldable pub is_address : Text → Bool
is_address [] = false
is_address (zero_digit ∷ []) = false
is_address (zero_digit ∷ x ∷ cs) = zero_digit == b'0' && x == b'x' && hex_run 64 cs

-- `.trim().toLowerCase()`
unfoldable pub normalised : Text → Text
unfolding trim
normalised t = to_lower_case (trim t)

abbrev pub address_or_error : Text → Option Text → Parsed Text
address_or_error key none = refused (invalid_field key)
address_or_error key (some raw) =
    if is_address (normalised raw) then parsed (normalised raw) else refused (invalid_field key)

unfoldable pub parse_address_field : Fields → Text → Parsed Text
unfolding get is_address normalised
parse_address_field fields key = address_or_error key (get key fields)

abbrev pub u64_or_error : Text → Option Text → Parsed ℕ
u64_or_error key none = refused (invalid_field key)
u64_or_error key (some raw) =
    if is_digits raw then parsed (spelled 0 raw) else refused (invalid_field key)

unfoldable pub parse_u64_field : Fields → Text → Parsed ℕ
unfolding get
parse_u64_field fields key = u64_or_error key (get key fields)

abbrev pub natural_or_error : Text → Option ℕ → Parsed ℕ
natural_or_error key none = refused (invalid_field key)
natural_or_error key (some value) = parsed value

abbrev pub number_or_error : Text → Option Text → Parsed ℕ
number_or_error key none = refused (invalid_field key)
number_or_error key (some raw) = natural_or_error key (natural_number raw)

-- `Number` of the field, when it is finite, not negative and integral.
unfoldable pub parse_number_field : Fields → Text → Parsed ℕ
unfolding get natural_number
parse_number_field fields key = number_or_error key (get key fields)

abbrev pub optional_u64 : Text → Option Text → Parsed ℕ
optional_u64 key none = parsed 0
optional_u64 key (some []) = parsed 0
optional_u64 key (some (c ∷ cs)) = u64_or_error key (some (c ∷ cs))

-- 0 for a field that is absent or empty.
unfoldable pub parse_optional_u64 : Fields → Text → Parsed ℕ
unfolding get
parse_optional_u64 fields key = optional_u64 key (get key fields)

abbrev pub optional_number : Text → Option Text → Parsed ℕ
optional_number key none = parsed 0
optional_number key (some []) = parsed 0
optional_number key (some (c ∷ cs)) = number_or_error key (some (c ∷ cs))

unfoldable pub parse_optional_number : Fields → Text → Parsed ℕ
unfolding get natural_number
parse_optional_number fields key = optional_number key (get key fields)

abbrev pub is_text : Text → Option Text → Bool
is_text expected none = false
is_text expected (some value) = text_eq value expected

-- `value === 'true'`
abbrev pub parse_bool : Option Text → Bool
parse_bool value = is_text (text "true") value

-- A number of JavaScript that `Number` made of a bigint: one above the largest double is `Infinity`.
pub data Number : Type 0 where
  finite : ℕ → Number
  infinite : Number

abbrev pub number_or_infinite : Option ℕ → Number
number_or_infinite none = infinite
number_or_infinite (some n) = finite n

unfoldable pub number_of_bigint : ℕ → Number
unfolding nearest
number_of_bigint n = number_or_infinite (nearest n 1)
