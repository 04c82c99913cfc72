-- ===== src/Client/TradeMath/Dollars.antt =====
-- app/src/lib/leverx/trade-math.ts: an amount that is shown in dollars is read back.
use leverx.Prelude.{
  ℕ, zero, suc, ◌+◌, ◌-◌, ◌*◌, ◌/◌, ◌%◌, ◌≤◌, ◌≡◌, refl, inl, inr, ◌∙◌, ap, true, false, [], ◌∷◌,
  ◌++◌, arith,
}
use leverx.Prelude.Tests.{◌==◌, Bool-cases}
use leverx.Prelude.Int.{pos}
use leverx.Prelude.Lists.{length, length-append, take}
use leverx.Prelude.Texts.{Text, trim}
use leverx.Prelude.Texts.Split.{join, split-join}
use leverx.Prelude.Texts.Trim.{no_blank-append, trim-no_blank}
use leverx.Prelude.Decimal.{
  all_digits, is_digits, spelled, to_string, spelled-to_string, all_digits-to_string,
  is_digits-to_string, length-to_string,
}
use leverx.Prelude.Numbers.Digits.{lacks-all_digits, no_blank_digits}
use leverx.Client.TradeMath.{
  quote_unit, quote_input_decimals, zeros, pad_start, parse_usd_input_to_quote_atoms,
  format_quote_atoms_to_usd_input,
}

length-zeros : (n : ℕ) → length (zeros n) ≡ n
length-zeros zero = refl
length-zeros (suc n) = omega (arith, length-zeros n)

all_digits-zeros : (n : ℕ) (t : Text) → all_digits t ≡ true → all_digits (zeros n ++ t) ≡ true
all_digits-zeros zero t h = h
all_digits-zeros (suc n) t h = all_digits-zeros n t h

spelled-zeros : (n : ℕ) (t : Text) → spelled 0 (zeros n ++ t) ≡ spelled 0 t
spelled-zeros zero t = refl
spelled-zeros (suc n) t = spelled-zeros n t

length-pad_start : (width : ℕ) (t : Text) → length t ≤ width → length (pad_start width t) ≡ width
length-pad_start width t h =
    omega (arith, length-append (zeros (width - length t)) t, length-zeros (width - length t))

take_exact : (t rest : Text) (n : ℕ) → length t ≡ n → take n (t ++ rest) ≡ t
take_exact [] rest zero h = refl
take_exact [] rest (suc n) h = absurd (omega arith)
take_exact (c ∷ cs) rest zero h = absurd (omega arith)
take_exact (c ∷ cs) rest (suc n) h = rw (take_exact cs rest n (omega arith)) refl

-- A text of digits, a point and six digits is read as their amount.
reads_amount :
    (int_part frac_part : Text)
    → is_digits int_part ≡ true
    → all_digits frac_part ≡ true
    → length frac_part ≡ 6
    → parse_usd_input_to_quote_atoms (int_part ++ (b'.' ∷ frac_part))
      ≡ pos (spelled 0 int_part * quote_unit + spelled 0 frac_part)
unfolding parse_usd_input_to_quote_atoms join
reads_amount [] frac_part i f l = cc
reads_amount (c ∷ cs) [] i f l = absurd (omega arith)
reads_amount (c ∷ cs) (d ∷ ds) i f l =
    rw
      (
        trim-no_blank (c ∷ (cs ++ (b'.' ∷ d ∷ ds))) (
            no_blank-append (c ∷ cs) (b'.' ∷ d ∷ ds) (no_blank_digits (c ∷ cs) i)
              (no_blank_digits (d ∷ ds) f)),
        not_minus c cs i,
        split-join b'.' (c ∷ cs) ((d ∷ ds) ∷ []) (
            rw (lacks-all_digits b'.' (c ∷ cs) refl i, lacks-all_digits b'.' (d ∷ ds) refl f) refl),
        i,
        f,
      )
      (ap (λ t. pos (spelled 0 (c ∷ cs) * quote_unit + spelled 0 t))
        (take_exact (d ∷ ds) (zeros (6 - length (d ∷ ds))) 6 l))
  where
    not_minus : (c : ℕ) (cs : Text) → all_digits (c ∷ cs) ≡ true → (c == b'-') ≡ false
    not_minus c cs h = ground arith

nothing :
    (atoms : ℕ)
    → (atoms == 0) ≡ true
    → parse_usd_input_to_quote_atoms (format_quote_atoms_to_usd_input atoms quote_input_decimals)
      ≡ pos atoms
unfolding format_quote_atoms_to_usd_input parse_usd_input_to_quote_atoms trim
nothing zero h = refl
nothing (suc n) h = absurd (ground arith)

whole_lem : (atoms : ℕ) → atoms * 1_000_000 / quote_unit ≡ atoms
whole_lem atoms = omega arith

-- The text of an amount that is not zero.
format_lem :
    (atoms : ℕ)
    → (atoms == 0) ≡ false
    → format_quote_atoms_to_usd_input atoms quote_input_decimals
      ≡ to_string (atoms / quote_unit) ++ (b'.' ∷ pad_start 6 (to_string (atoms % quote_unit)))
unfolding format_quote_atoms_to_usd_input
format_lem atoms some_left = rw (some_left, whole_lem atoms) refl

amount_lem :
    (atoms : ℕ)
    → pos (
        spelled 0 (to_string (atoms / quote_unit)) * quote_unit
        + spelled 0 (pad_start 6 (to_string (atoms % quote_unit))))
      ≡ pos atoms
amount_lem atoms =
    rw
      (
        spelled-to_string (atoms / quote_unit),
        spelled-zeros (6 - length (to_string (atoms % quote_unit)))
            (to_string (atoms % quote_unit)),
        spelled-to_string (atoms % quote_unit),
      )
      (ap pos (omega arith))

-- An amount that is shown with all six decimals is read back exactly.
pub parse-format_usd :
    (atoms : ℕ)
    → parse_usd_input_to_quote_atoms (format_quote_atoms_to_usd_input atoms quote_input_decimals)
      ≡ pos atoms
parse-format_usd atoms = elim (Bool-cases (atoms == 0)) [
  | inl none_left ↦ nothing atoms none_left
  | inr some_left ↦
      let small = to_string (atoms % quote_unit) in
      rw (format_lem atoms some_left) (
        reads_amount (to_string (atoms / quote_unit)) (pad_start 6 small)
          (is_digits-to_string (atoms / quote_unit))
          (all_digits-zeros (6 - length small) small (all_digits-to_string (atoms % quote_unit)))
          (length-pad_start 6 small (length-to_string 5 (atoms % quote_unit) (omega arith)))
        ∙ amount_lem atoms)
]
