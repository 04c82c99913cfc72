-- ===== src/Keeper/Inspections.antt =====
-- keeper/src/sui/sui.service.ts: the values that an inspection of a transaction returns, decoded from the
-- bytes of its last command.
pub mod Values
pub mod Addresses
pub mod Tests
use Prim.Native.String.{String}
use leverx.Prelude.{
  ℕ, zero, suc, ◌+◌, ◌*◌, ◌/◌, ◌%◌, Bool, true, false, Option, none, some, List, [], ◌∷◌, ◌++◌,
}
use leverx.Prelude.Tests.{ltb, ◌==◌, if◌then◌else◌}
use leverx.Prelude.Lists.{length}
use leverx.Prelude.Texts.{Text}
use leverx.Keeper.Sui.{BoolRead, bool_ok, bool_failed}

-- The answer to `devInspectTransactionBlock`: whether its status is a success, the text of its error, and
-- for each command the bytes of each returned value. Missing results or values are empty lists.
pub record Inspection : Type 0 where
  pub is_success : Bool
  pub failure : String
  pub results : List (List (List ℕ))

-- `results.at(-1)`
abbrev pub last_values : List (List (List ℕ)) → List (List ℕ)
last_values [] = []
last_values (values ∷ []) = values
last_values (values ∷ next ∷ rest) = last_values (next ∷ rest)

-- `returnValues[index]`
abbrev pub entry_at : ℕ → List (List ℕ) → Option (List ℕ)
entry_at index [] = none
entry_at zero (bytes ∷ values) = some bytes
entry_at (suc index) (bytes ∷ values) = entry_at index values

abbrev pub little_endian : ℕ → List ℕ → ℕ
little_endian zero bytes = 0
little_endian (suc width) [] = 0
little_endian (suc width) (b ∷ bytes) = b + 256 * little_endian width bytes

-- `readBigUInt64LE(0)`, after the test of the length.
unfoldable pub read_u64 : Option (List ℕ) → Option ℕ
read_u64 none = none
read_u64 (some bytes) = if ltb (length bytes) 8 then none else some (little_endian 8 bytes)

abbrev pub hex_digit : ℕ → ℕ
hex_digit d = if ltb d 10 then b'0' + d else 87 + d

abbrev pub hex_of : List ℕ → Text
hex_of [] = []
hex_of (b ∷ bytes) = hex_digit (b / 16) ∷ hex_digit (b % 16) ∷ hex_of bytes

abbrev pub address_text : Option (List ℕ) → Option Text
address_text none = none
address_text (some bytes) =
    if ltb (length bytes) 32 then none else some (b'0' ∷ b'x' ∷ hex_of bytes)

unfoldable pub dev_inspect_address : Inspection → Option Text
dev_inspect_address result =
    if result.is_success then address_text (entry_at 0 (last_values result.results)) else none

-- `readUInt8(0) === 1`, where reading no bytes throws a RangeError (none).
abbrev pub bool_value : Option (List ℕ) → Option BoolRead
bool_value none = some (bool_failed "missing_bool_return")
bool_value (some []) = none
bool_value (some (b ∷ bytes)) = some (bool_ok (b == 1))

unfoldable pub try_dev_inspect_bool : Inspection → Option BoolRead
try_dev_inspect_bool result =
    if result.is_success
    then bool_value (entry_at 0 (last_values result.results))
    else some (bool_failed result.failure)

unfoldable pub dev_inspect_u64 : Inspection → Option ℕ
dev_inspect_u64 result =
    if result.is_success then read_u64 (entry_at 0 (last_values result.results)) else none

abbrev pub both : Option ℕ → Option ℕ → Option (ℕ × ℕ)
both (some a) (some b) = some (a, b)
both _ _ = none

unfoldable pub dev_inspect_u64_pair : Inspection → Option (ℕ × ℕ)
dev_inspect_u64_pair result =
    let values = last_values result.results in
    if result.is_success
    then (if ltb (length values) 2
        then none
        else both (read_u64 (entry_at 0 values)) (read_u64 (entry_at 1 values)))
    else none

abbrev pub all_four : Option (ℕ × ℕ) → Option (ℕ × ℕ) → Option (ℕ × ℕ × ℕ × ℕ)
all_four (some (a, b)) (some (c, d)) = some (a, b, c, d)
all_four _ _ = none

unfoldable pub dev_inspect_u64_quad : Inspection → Option (ℕ × ℕ × ℕ × ℕ)
dev_inspect_u64_quad result =
    let values = last_values result.results in
    if result.is_success
    then (if ltb (length values) 4
        then none
        else all_four (both (read_u64 (entry_at 0 values)) (read_u64 (entry_at 1 values)))
            (both (read_u64 (entry_at 2 values)) (read_u64 (entry_at 3 values))))
    else none
