-- ===== src/Client/TradeMath.antt =====
-- app/src/lib/leverx/trade-math.ts, over naturals: the functions on `bigint`, of which a client passes none
-- below zero, and the texts of an amount in dollars. The functions on fractions of a dollar or a cent are
-- left out.
pub mod Orders
pub mod Dollars
pub mod Tests
use leverx.Prelude.{
  ℕ, zero, suc, ◌+◌, ◌-◌, ◌*◌, ◌/◌, ◌%◌, ◌^◌, Bool, true, false, not, ◌&&◌, ◌||◌, min, max, List,
  [], ◌∷◌, ◌++◌,
}
use leverx.Prelude.Tests.{ltb, leb, ◌==◌, if◌then◌else◌}
use leverx.Prelude.Int.{ℤ, pos, neg_ℕ, leb_ℤ, ltb_ℤ}
use leverx.Prelude.Lists.{length, take}
use leverx.Prelude.Texts.{Text, text, trim}
use leverx.Prelude.Texts.Split.{split}
use leverx.Prelude.Decimal.{is_digits, spelled, to_string}

abbrev pub predict_price_scale : ℕ
predict_price_scale = 1_000_000_000

abbrev pub mint_budget_safety_bps : ℕ
mint_budget_safety_bps = 50

abbrev pub quote_unit : ℕ
quote_unit = 1_000_000

abbrev pub predict_min_ask_premium : ℕ
predict_min_ask_premium = 10_000_000

abbrev pub predict_max_ask_premium : ℕ
predict_max_ask_premium = 990_000_000

unfoldable pub is_premium_within_predict_bounds : ℕ → Bool
is_premium_within_predict_bounds premium =
    leb predict_min_ask_premium premium && leb premium predict_max_ask_premium

unfoldable pub is_premium_displayable : ℕ → Bool
is_premium_displayable premium = ltb 0 premium && ltb premium predict_price_scale

unfoldable pub cost_from_premium_per_unit : ℕ → ℕ → ℕ
cost_from_premium_per_unit premium_per_unit quantity =
    if premium_per_unit == 0 || quantity == 0
    then 0
    else premium_per_unit * quantity / predict_price_scale

unfoldable pub premium_per_unit_from_mint_cost : ℕ → ℕ → ℕ
premium_per_unit_from_mint_cost mint_cost quantity =
    if mint_cost == 0 || quantity == 0
    then 0
    else (mint_cost * predict_price_scale + quantity - 1) / quantity

pub data PremiumClass : Type 0 where
  ok_premium zero_premium expired_premium out_of_bounds : PremiumClass

unfoldable pub classify_predict_premium : ℕ → PremiumClass
classify_predict_premium premium =
    if premium == 0
    then zero_premium
    else if leb predict_price_scale premium
    then expired_premium
    else if is_premium_within_predict_bounds premium
    then ok_premium
    else out_of_bounds

unfoldable pub position_quote_atoms : ℕ → ℕ → ℕ
position_quote_atoms margin_atoms leverage_bps = margin_atoms * leverage_bps / 10_000

unfoldable pub borrow_quote_atoms : ℕ → ℕ → ℕ
borrow_quote_atoms margin_atoms leverage_bps =
    let position = position_quote_atoms margin_atoms leverage_bps in
    if ltb margin_atoms position then position - margin_atoms else 0

unfoldable pub max_mint_budget_atoms : ℕ → ℕ → ℕ
max_mint_budget_atoms margin_atoms leverage_bps =
    let position = position_quote_atoms margin_atoms leverage_bps in
    position * (10_000 - mint_budget_safety_bps) / 10_000

unfoldable pub estimate_quantity : ℕ → ℕ → ℕ → ℕ
estimate_quantity margin_atoms leverage_bps premium_per_unit =
    if premium_per_unit == 0
    then 1
    else (let budget = max_mint_budget_atoms margin_atoms leverage_bps in
        let qty = budget * predict_price_scale / premium_per_unit in if ltb 0 qty then qty else 1)

unfoldable pub apply_slippage_bps : ℕ → ℕ → ℕ
apply_slippage_bps amount slippage_bps = amount * (10_000 + slippage_bps) / 10_000

unfoldable pub apply_slippage_floor : ℕ → ℕ → ℕ
apply_slippage_floor amount slippage_bps =
    if amount == 0 || slippage_bps == 0
    then amount
    else amount * (10_000 - min (max slippage_bps 0) 9_999) / 10_000

unfoldable pub premium_slippage_tolerance : ℕ → ℕ → ℕ
premium_slippage_tolerance premium_per_unit slippage_bps =
    if premium_per_unit == 0 || slippage_bps == 0
    then 0
    else premium_per_unit * slippage_bps / 10_000

unfoldable pub max_acceptable_buy_ask : ℕ → ℕ → ℕ
max_acceptable_buy_ask limit_premium_per_unit slippage_bps =
    limit_premium_per_unit + premium_slippage_tolerance limit_premium_per_unit slippage_bps

unfoldable pub is_limit_buy_fillable_now : ℕ → ℕ → ℕ → Bool
is_limit_buy_fillable_now market_ask_per_unit limit_premium_per_unit slippage_bps =
    if limit_premium_per_unit == 0 || market_ask_per_unit == 0
    then false
    else leb market_ask_per_unit (max_acceptable_buy_ask limit_premium_per_unit slippage_bps)

unfoldable pub is_placement_price_aligned : ℕ → ℕ → ℕ → Bool
is_placement_price_aligned market_ask_per_unit limit_premium_per_unit placement_slippage_bps =
    if limit_premium_per_unit == 0 || market_ask_per_unit == 0
    then false
    else (let tolerance =
          premium_slippage_tolerance limit_premium_per_unit placement_slippage_bps in
        let lower =
          if ltb tolerance limit_premium_per_unit then limit_premium_per_unit - tolerance else 0 in
        leb lower market_ask_per_unit
        && leb market_ask_per_unit (limit_premium_per_unit + tolerance))

abbrev pub quote_input_decimals : ℕ
quote_input_decimals = 6

abbrev pub zeros : ℕ → Text
zeros zero = []
zeros (suc n) = b'0' ∷ zeros n

-- `padEnd` and `padStart` with '0'.
abbrev pub pad_end : ℕ → Text → Text
pad_end width t = t ++ zeros (width - length t)

abbrev pub pad_start : ℕ → Text → Text
pad_start width t = zeros (width - length t) ++ t

abbrev pub is_empty_text : Text → Bool
is_empty_text [] = true
is_empty_text (c ∷ cs) = false

abbrev pub amount_of : Text → Text → ℕ
amount_of int_part frac_part =
    if not (is_digits int_part) || (not (is_empty_text frac_part) && not (is_digits frac_part))
    then 0
    else spelled 0 int_part * quote_unit
      + spelled 0 (take quote_input_decimals (pad_end quote_input_decimals frac_part))

-- The first two parts between points; the others are not looked at.
abbrev pub amount_of_parts : List Text → ℕ
amount_of_parts [] = amount_of (b'0' ∷ []) []
amount_of_parts (int_part ∷ []) = amount_of int_part []
amount_of_parts (int_part ∷ frac_part ∷ rest) = amount_of int_part frac_part

abbrev pub signed_amount : Text → ℤ
signed_amount [] = pos 0
signed_amount (c ∷ cs) =
    if c == b'-'
    then neg_ℕ (amount_of_parts (split b'.' cs))
    else pos (amount_of_parts (split b'.' (c ∷ cs)))

unfoldable pub parse_usd_input_to_quote_atoms : Text → ℤ
parse_usd_input_to_quote_atoms input = signed_amount (trim input)

unfoldable pub format_quote_atoms_to_usd_input : ℕ → ℕ → Text
format_quote_atoms_to_usd_input atoms decimals =
    if atoms == 0
    then []
    else (let factor = 10 ^ decimals in
        let scaled = atoms * factor / quote_unit in
        if decimals == 0
        then to_string (scaled / factor)
        else to_string (scaled / factor)
          ++ (b'.' ∷ pad_start decimals (to_string (scaled % factor))))

unfoldable pub withdraw_usd_decimals : ℕ → ℕ
withdraw_usd_decimals atoms = if ltb atoms 10_000 then 6 else if ltb atoms quote_unit then 4 else 2

unfoldable pub usd_input_exceeds_quote_atoms : Text → ℕ → Bool
usd_input_exceeds_quote_atoms input max_atoms =
    let requested = parse_usd_input_to_quote_atoms input in
    if leb_ℤ requested (pos 0) then true else ltb_ℤ (pos max_atoms) requested

unfoldable pub clamp_usd_input_to_quote_atoms : Text → ℕ → ℤ
clamp_usd_input_to_quote_atoms input max_atoms =
    let requested = parse_usd_input_to_quote_atoms input in
    if leb_ℤ requested (pos 0)
    then pos 0
    else if ltb_ℤ (pos max_atoms) requested
    then pos max_atoms
    else requested
