-- ===== src/Prelude/Numbers/Tests.antt =====
-- `Number` of some texts.
use leverx.Prelude.Texts.{text}
use leverx.Prelude.Decimal.{to_string}
use leverx.Prelude.Numbers.{natural_number, nearest, rounded}
use native.Mathlib.Decide.{dec_lt}
use mathlib.Core.Path.{◌≡◌, refl}
use mathlib.Core.Option.{none, some}

exponents :
    (natural_number (text " 1.5e3\t") ≡ some 1_500)
    × (natural_number (text "15e-1") ≡ none)
    × (natural_number (text "1E+2") ≡ some 100)
    × (natural_number (text ".") ≡ none)
    × (natural_number (text "5.") ≡ some 5)
unfolding natural_number nearest rounded
exponents = (refl, refl, refl, refl, refl)

radixes :
    (natural_number (text "0xFf") ≡ some 255)
    × (natural_number (text "0b101") ≡ some 5)
    × (natural_number (text "0o8") ≡ none)
    × (natural_number (text "-0x1") ≡ none)
unfolding natural_number nearest rounded
radixes = (refl, refl, refl, refl)

signs :
    (natural_number (text "-0") ≡ some 0)
    × (natural_number (text "-3") ≡ none)
    × (natural_number (text "+3") ≡ some 3)
    × (natural_number (text "") ≡ some 0)
    × (natural_number (text "Infinity") ≡ none)
unfolding natural_number nearest rounded
signs = (refl, refl, refl, refl, refl)

rounding :
    (natural_number (text "9007199254740993") ≡ some 9_007_199_254_740_992)
    × (natural_number (text "9007199254740995") ≡ some 9_007_199_254_740_996)
    × (natural_number (text "0.99999999999999999") ≡ some 1)
    × (natural_number (text "0.9999999999999999") ≡ none)
    × (natural_number (text "1e400") ≡ none)
    × (natural_number (text "1e-400") ≡ some 0)
unfolding natural_number nearest rounded
rounding = (refl, refl, refl, refl, refl, refl)

printed : to_string 9_007_199_254_740_992 ≡ text "9007199254740992"
unfolding to_string dec_lt
printed = refl
