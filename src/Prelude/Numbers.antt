-- ===== src/Prelude/Numbers.antt =====
-- `Number(text)` and `Number(bigint)` of JavaScript, as far as a number that is integral and not negative.
pub mod Digits
pub mod Tests
use Prim.Native.Nat.{zero, suc, ◌*◌, ◌/◌, ◌%◌, ◌^◌}
use leverx.Prelude.Tests.{◌==◌, ltb, leb, if◌then◌else◌}
use leverx.Prelude.Texts.{Text, trim, is_whitespace, trim_start, trim_end, lower_unit}
use leverx.Prelude.Decimal.{
  is_digit, all_digits, is_digits, spelled, to_string, spelled-to_string, is_digits-to_string,
}
use Prim.Native.Nat.{ℕ, ◌+◌, ◌-◌, ◌≤◌, ◌<◌}
use mathlib.Core.Path.{◌≡◌, refl}
use mathlib.Core.Bool.{Bool, true, false, not, ◌&&◌, ◌||◌}
use mathlib.Core.List.{List, [], ◌∷◌}
use mathlib.Core.Option.{Option, none, some}
use native.Mathlib.Omega.{arith}

-- The integer nearest to p / q, the even one of two that are as near.
abbrev pub round_even : ℕ → ℕ → ℕ
round_even p q =
    let below = p / q in
    let twice = 2 * (p % q) in
    if ltb twice q then below else if ltb q twice then below + 1 else below + below % 2

-- The least shift, up to a limit, that passes a test.
abbrev pub least_shift : (ℕ → Bool) → ℕ → ℕ → ℕ
least_shift test zero k = k
least_shift test (suc fuel) k =
    let further = least_shift test fuel (k + 1) in if test k then k else further

abbrev pub integral : ℕ → ℕ → Option ℕ
integral m k = if m % 2 ^ k == 0 then some (m / 2 ^ k) else none

abbrev pub finite_only : ℕ → Option ℕ
finite_only n = if ltb n (2 ^ 1_024) then some n else none

-- A double has 53 significant bits, and its last place is worth 2^-1074 at least.
unfoldable pub rounded : ℕ → ℕ → Option ℕ
rounded p q =
    if ltb p (q * 2 ^ 53)
    then (let k = least_shift (λ k. leb (q * 2 ^ 52) (p * 2 ^ k)) 1_074 0 in
        integral (round_even (p * 2 ^ k) q) k)
    else (let e = least_shift (λ e. ltb p (q * 2 ^ (53 + e))) 972 0 in
        finite_only (round_even p (q * 2 ^ e) * 2 ^ e))

-- The double nearest to p / q: none if it is not integral or not finite. An integer up to 2^53 is a
-- double as it stands.
unfoldable pub nearest : ℕ → ℕ → Option ℕ
nearest p q = if p % q == 0 && leb (p / q) (2 ^ 53) then some (p / q) else rounded p q

-- The digits at the start: the number they spell behind `acc`, how many they are, and the rest.
abbrev pub scan_digits : Text → ℕ → ℕ → ℕ × ℕ × Text
scan_digits [] acc count = (acc, count, [])
scan_digits (c ∷ cs) acc count =
    if is_digit c then scan_digits cs (acc * 10 + (c - 48)) (count + 1) else (acc, count, c ∷ cs)

abbrev pub exponent_end : Bool → ℕ × ℕ × Text → Option (Bool × ℕ)
exponent_end negative (e, zero, rest) = none
exponent_end negative (e, suc count, []) = some (negative, e)
exponent_end negative (e, suc count, c ∷ cs) = none

abbrev pub signed_exponent : Text → Option (Bool × ℕ)
signed_exponent [] = none
signed_exponent (c ∷ cs) =
    if c == b'-'
    then exponent_end true (scan_digits cs 0 0)
    else if c == b'+'
    then exponent_end false (scan_digits cs 0 0)
    else exponent_end false (scan_digits (c ∷ cs) 0 0)

abbrev pub exponent : Text → Option (Bool × ℕ)
exponent [] = some (false, 0)
exponent (c ∷ cs) = if lower_unit c == b'e' then signed_exponent cs else none

abbrev pub scaled : ℕ → ℕ → Option (Bool × ℕ) → Option (ℕ × ℕ)
scaled v places none = none
scaled v places (some (true, e)) = some (v, 10 ^ (places + e))
scaled v places (some (false, e)) = some (v * 10 ^ e, 10 ^ places)

abbrev pub with_exponent : ℕ → ℕ → ℕ → Text → Option (ℕ × ℕ)
with_exponent v count places rest = if count == 0 then none else scaled v places (exponent rest)

abbrev pub after_point : ℕ → ℕ × ℕ × Text → Option (ℕ × ℕ)
after_point count (v, places, rest) = with_exponent v (count + places) places rest

abbrev pub after_integer : ℕ × ℕ × Text → Option (ℕ × ℕ)
after_integer (v, count, []) = with_exponent v count 0 []
after_integer (v, count, c ∷ cs) =
    if c == b'.' then after_point count (scan_digits cs v 0) else with_exponent v count 0 (c ∷ cs)

-- A decimal literal without a sign, as a fraction. `Infinity` is none, as it is not finite.
abbrev pub decimal : Text → Option (ℕ × ℕ)
decimal t = after_integer (scan_digits t 0 0)

abbrev pub digit_value : ℕ → ℕ
digit_value c = if leb 97 c then c - 87 else c - 48

-- The digits after `0x`, `0o` and `0b`; a letter counts in either case.
abbrev pub radix_digits : ℕ → Text → ℕ → Option ℕ
radix_digits radix [] acc = some acc
radix_digits radix (c ∷ cs) acc =
    let d = lower_unit c in
    if (is_digit d || (leb b'a' d && leb d b'f')) && ltb (digit_value d) radix
    then radix_digits radix cs (acc * radix + digit_value d)
    else none

abbrev pub radix_number : ℕ → Text → Option (ℕ × ℕ)
radix_number radix [] = none
radix_number radix (c ∷ cs) = elim (radix_digits radix (c ∷ cs) 0) [
  | none ↦ none
  | some v ↦ some (v, 1)
]

abbrev pub nearest_of : Option (ℕ × ℕ) → Option ℕ
nearest_of none = none
nearest_of (some (p, q)) = nearest p q

-- A negative number is below zero unless it rounds to -0.
abbrev pub zero_only : Option ℕ → Option ℕ
zero_only none = none
zero_only (some n) = if n == 0 then some 0 else none

abbrev pub trimmed_number : Text → Option ℕ
trimmed_number [] = some 0
trimmed_number (c ∷ []) = nearest_of (decimal (c ∷ []))
trimmed_number (c ∷ d ∷ cs) =
    if c == b'0' && lower_unit d == b'x'
    then nearest_of (radix_number 16 cs)
    else if c == b'0' && lower_unit d == b'o'
    then nearest_of (radix_number 8 cs)
    else if c == b'0' && lower_unit d == b'b'
    then nearest_of (radix_number 2 cs)
    else if c == b'-'
    then zero_only (nearest_of (decimal (d ∷ cs)))
    else if c == b'+'
    then nearest_of (decimal (d ∷ cs))
    else nearest_of (decimal (c ∷ d ∷ cs))

-- `Number(raw)` when it is finite, not negative and integral; none when it is not (-0 counts as 0).
unfoldable pub natural_number : Text → Option ℕ
unfolding trim
natural_number raw = trimmed_number (trim raw)
