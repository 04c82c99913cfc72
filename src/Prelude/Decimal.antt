-- ===== src/Prelude/Decimal.antt =====
-- Numbers in base ten: their digits, and the value that digits spell.
use Prim.Native.Nat.{zero, suc, ◌-◌, ◌*◌, ◌/◌, ◌%◌}
use leverx.Prelude.Tests.{leb}
use leverx.Prelude.Lists.{length}
use leverx.Prelude.Texts.{Text}
use Prim.Native.Nat.{ℕ, ◌+◌, ◌≤◌, ◌<◌}
use mathlib.Core.Path.{◌≡◌}
use mathlib.Core.Bool.{Bool, true, false, ◌&&◌}
use mathlib.Core.List.{[], ◌∷◌}
use mathlib.Core.Logic.{dite}
use mathlib.Core.WellFounded.{Acc, WellFounded}
use native.Mathlib.Decide.{dec_lt}
use native.Mathlib.Omega.{arith}

abbrev pub is_digit : ℕ → Bool
is_digit c = leb 48 c && leb c 57

abbrev pub all_digits : Text → Bool
all_digits [] = true
all_digits (c ∷ cs) = is_digit c && all_digits cs

-- `/^\d+$/`
abbrev pub is_digits : Text → Bool
is_digits [] = false
is_digits (c ∷ cs) = all_digits (c ∷ cs)

-- The number that digits spell behind `acc`, with no bound.
abbrev pub spelled : ℕ → Text → ℕ
spelled acc [] = acc
spelled acc (c ∷ cs) = spelled (acc * 10 + (c - 48)) cs

acc_under : (bound n : ℕ) → n < bound → Acc ◌<◌ n
acc_under zero n h = absurd (omega arith)
acc_under (suc bound) n h = Acc.intro n λ m lt. acc_under bound m (omega arith)

below_wf : WellFounded ◌<◌
unfolding acc_under
below_wf = record { apply = λ n. acc_under (suc n) n (omega arith) }

tenth_below : {n : ℕ} → 9 < n → n / 10 < n
tenth_below h = omega arith

-- The digits of a number in front of a text.
spell : (n : ℕ) → Acc ◌<◌ n → Text → Text
spell n (Acc.intro _ below) out =
    dite (dec_lt 9 n) (λ h. spell (n / 10) (below (n / 10) (tenth_below h)) ((48 + n % 10) ∷ out))
      (λ _. (48 + n) ∷ out)

-- `toString` of a bigint that is not negative, and of an integral number up to 2^53.
unfoldable pub to_string : ℕ → Text
unfolding below_wf spell tenth_below
to_string n = spell n (below_wf.apply n) []

-- What the digits in front of a text say of the whole.
Reads : ℕ → Text → Text → Type 0
Reads n out all =
    (spelled 0 all ≡ spelled n out)
    × (all_digits all ≡ all_digits out)
    × (is_digits all ≡ all_digits out)

Reads-shift : (n : ℕ) (out all : Text) → Reads (n / 10) ((48 + n % 10) ∷ out) all → Reads n out all
unfolding Reads
Reads-shift n out all (v, d, i) = ground arith

Reads-digit : (n : ℕ) (out : Text) → ¬ 9 < n → Reads n out ((48 + n) ∷ out)
unfolding Reads
Reads-digit n out h = ground arith

spell-Reads : (n : ℕ) (w : Acc ◌<◌ n) (out : Text) → Reads n out (spell n w out)
unfolding spell
spell-Reads n (Acc.intro _ below) out =
    elim (dec_lt 9 n)
      as (λ d. Reads n out (
        dite d (λ h. spell (n / 10) (below (n / 10) (tenth_below h)) ((48 + n % 10) ∷ out))
          (λ _. (48 + n) ∷ out))) [
            | yes h ↦
                Reads-shift n out _
                  (spell-Reads (n / 10) (below (n / 10) (tenth_below h)) ((48 + n % 10) ∷ out))
            | no h ↦ Reads-digit n out h
          ]

to_string-Reads : (n : ℕ) → Reads n [] (to_string n)
unfolding to_string
to_string-Reads n = spell-Reads n (below_wf.apply n) []

-- The digits of a number spell it.
pub spelled-to_string : (n : ℕ) → spelled 0 (to_string n) ≡ n
unfolding Reads
spelled-to_string n = (to_string-Reads n).0

pub all_digits-to_string : (n : ℕ) → all_digits (to_string n) ≡ true
unfolding Reads
all_digits-to_string n = (to_string-Reads n).1

pub is_digits-to_string : (n : ℕ) → is_digits (to_string n) ≡ true
unfolding Reads
is_digits-to_string n = (to_string-Reads n).2

-- Ten times ten, and so on.
abbrev pub tens : ℕ → ℕ
tens zero = 1
tens (suc k) = 10 * tens k

length-spell :
    (k n : ℕ) (w : Acc ◌<◌ n) (out : Text)
    → n < tens (suc k)
    → length (spell n w out) ≤ suc k + length out
unfolding spell
length-spell zero n (Acc.intro _ below) out h =
    elim (dec_lt 9 n)
      as (λ d.
        length (
          dite d (λ h. spell (n / 10) (below (n / 10) (tenth_below h)) ((48 + n % 10) ∷ out))
            (λ _. (48 + n) ∷ out))
        ≤ 1 + length out) [ yes large ↦ absurd (omega arith) | no small ↦ omega arith ]
length-spell (suc k) n (Acc.intro _ below) out h =
    elim (dec_lt 9 n)
      as (λ d.
        length (
          dite d (λ h. spell (n / 10) (below (n / 10) (tenth_below h)) ((48 + n % 10) ∷ out))
            (λ _. (48 + n) ∷ out))
        ≤ suc (suc k) + length out) [
          | yes large ↦ omega (
            arith,
            length-spell k (n / 10) (below (n / 10) (tenth_below large)) ((48 + n % 10) ∷ out)
                (omega arith),
          )
          | no small ↦ omega arith
        ]

-- A number below 10^k has at most k digits.
pub length-to_string : (k n : ℕ) → n < tens (suc k) → length (to_string n) ≤ suc k
unfolding to_string
length-to_string k n h = omega (arith, length-spell k n (below_wf.apply n) [] h)
