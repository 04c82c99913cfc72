-- ===== src/Prelude/Numbers/Digits.antt =====
-- `Number` and `trim` of a text of digits.
use Prim.Native.Nat.{◌*◌, ◌-◌, ◌^◌}
use leverx.Prelude.Tests.{◌==◌}
use leverx.Prelude.Lists.{length}
use leverx.Prelude.Texts.{Text, is_whitespace, lower_unit}
use leverx.Prelude.Texts.Split.{lacks}
use leverx.Prelude.Texts.Trim.{no_blank, trim-no_blank}
use leverx.Prelude.Decimal.{
  is_digit, all_digits, is_digits, spelled, to_string, spelled-to_string, is_digits-to_string,
}
use leverx.Prelude.Numbers.{
  nearest, scan_digits, decimal, trimmed_number, nearest_of, natural_number, after_integer,
}
use Prim.Native.Nat.{ℕ, ◌+◌, ◌≤◌, ◌<◌}
use mathlib.Core.Path.{◌≡◌, refl, ap}
use mathlib.Core.Bool.{true, false}
use mathlib.Core.List.{[], ◌∷◌}
use mathlib.Core.Option.{some}
use native.Mathlib.Omega.{arith}

digit_not_blank : (c : ℕ) → is_digit c ≡ true → is_whitespace c ≡ false
digit_not_blank c h = ground arith

pub no_blank_digits : (t : Text) → all_digits t ≡ true → no_blank t ≡ true
no_blank_digits [] h = refl
no_blank_digits (c ∷ cs) h = ground (arith, digit_not_blank c, no_blank_digits cs)

-- A text of digits has no other code unit.
pub lacks-all_digits :
    (sep : ℕ) (t : Text) → is_digit sep ≡ false → all_digits t ≡ true → lacks sep t ≡ true
lacks-all_digits sep [] other h = refl
lacks-all_digits sep (c ∷ cs) other h = ground (arith, no_digit sep c, lacks-all_digits sep cs)
  where
    no_digit : (sep c : ℕ) → is_digit sep ≡ false → is_digit c ≡ true → (c == sep) ≡ false
    no_digit sep c other h = ground arith

scan_digits_all :
    (t : Text) (acc count : ℕ)
    → all_digits t ≡ true
    → scan_digits t acc count ≡ (spelled acc t, count + length t, [])
scan_digits_all [] acc count h = ground arith
scan_digits_all (c ∷ cs) acc count h =
    ground (arith, scan_digits_all cs (acc * 10 + (c - 48)) (count + 1))

pub nearest_integer : (n : ℕ) → n ≤ 2 ^ 53 → nearest n 1 ≡ some n
unfolding nearest
nearest_integer n h = ground arith

after_integer_digits :
    (v count : ℕ) → 0 < count → v ≤ 2 ^ 53 → nearest_of (after_integer (v, count, [])) ≡ some v
after_integer_digits v count some_digits fits = ground (arith, nearest_integer v fits)

decimal_digits :
    (c : ℕ) (cs : Text)
    → all_digits (c ∷ cs) ≡ true
    → spelled 0 (c ∷ cs) ≤ 2 ^ 53
    → nearest_of (decimal (c ∷ cs)) ≡ some (spelled 0 (c ∷ cs))
decimal_digits c cs h fits =
    rw (scan_digits_all (c ∷ cs) 0 0 h) (after_integer_digits _ _ (omega arith) fits)

digit_is_no_sign :
    (c : ℕ)
    → is_digit c ≡ true
    → (lower_unit c ≡ c)
      × ((c == b'-') ≡ false)
      × ((c == b'+') ≡ false)
      × ((c == b'x') ≡ false)
      × ((c == b'o') ≡ false)
      × ((c == b'b') ≡ false)
digit_is_no_sign c h = ground arith

trimmed_number_digits :
    (t : Text) → is_digits t ≡ true → spelled 0 t ≤ 2 ^ 53 → trimmed_number t ≡ some (spelled 0 t)
trimmed_number_digits [] h fits = cc
trimmed_number_digits (c ∷ []) h fits = decimal_digits c [] h fits
trimmed_number_digits (c ∷ d ∷ cs) h fits =
    ground (arith, digit_is_no_sign c, digit_is_no_sign d, decimal_digits c (d ∷ cs) h fits)

-- A text of digits is the number that it spells, up to 2^53.
pub natural_number_digits :
    (t : Text) → is_digits t ≡ true → spelled 0 t ≤ 2 ^ 53 → natural_number t ≡ some (spelled 0 t)
unfolding natural_number
natural_number_digits [] h fits = cc
natural_number_digits (c ∷ cs) h fits =
    rw (trim-no_blank (c ∷ cs) (no_blank_digits (c ∷ cs) h)) (trimmed_number_digits (c ∷ cs) h fits)

-- A number up to 2^53 is read back from its digits.
pub natural_number-to_string : (n : ℕ) → n ≤ 2 ^ 53 → natural_number (to_string n) ≡ some n
natural_number-to_string n h =
    rw (natural_number_digits (to_string n) (is_digits-to_string n) (rw (spelled-to_string n) h))
      (ap some (spelled-to_string n))
