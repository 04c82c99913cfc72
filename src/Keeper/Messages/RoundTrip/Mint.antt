-- ===== src/Keeper/Messages/RoundTrip/Mint.antt =====
-- The message of a mint is read back, with the limit fields or without them.
use leverx.Prelude.{ℕ, ◌^◌, ◌≤◌, true, Option, none, some, List, [], ◌∷◌, ◌++◌, ◌≡◌, refl}
use leverx.Prelude.Texts.{Text, text}
use leverx.Prelude.Maps.{get, set}
use leverx.Prelude.Decimal.{to_string}
use leverx.Keeper.Ptb.Relay.{OrderKind, market, limit}
use leverx.Keeper.Messages.{
  Parsed, parsed, refused, missing_limit_fields, ◌>>=◌, Fields, parse_optional_u64,
  parse_optional_number,
}
use leverx.Keeper.Messages.Trade.{
  MintIntentFields, read_mint, parse_mint_order_kind, parse_mint_intent_message,
  trade_mint_message_prefix,
}
use leverx.Keeper.Messages.Build.{
  MintDraft, base_fields, mint_fields, message_of, limit_fields, mint_message, order_kind_or_market,
  kind_text, encode_bool, build_mint_intent_message,
}
use leverx.Keeper.Messages.Lines.{all_clean, assign_all, parse-message_of}
use leverx.Keeper.Messages.Fields.{
  parse_u64_field_lem, parse_number_field_lem, parse_optional_u64_lem, parse_optional_number_lem,
  parse_bool-encode_bool, lacks-to_string, lacks-encode_bool,
}
use leverx.Keeper.Messages.RoundTrip.{lacks-kind_text, kind_text_lem}
use leverx.Keeper.Messages.RoundTrip.Base.{
  IsWellFormed, normalised_base, BaseIn, parse_base_lem, base_fields_clean, all_clean-append,
}

-- The intent that a draft stands for.
abbrev pub agreed_mint : MintDraft → OrderKind → ℕ → ℕ → MintIntentFields
agreed_mint draft kind premium slippage = record {
  base = normalised_base draft.base;
  margin_quote_atoms = draft.margin_quote_atoms;
  leverage_bps = draft.leverage_bps;
  quantity = draft.quantity;
  max_mint_cost = draft.max_mint_cost;
  market_slippage_bps = draft.market_slippage_bps;
  remint_after_deleverage = draft.remint_after_deleverage;
  order_kind = kind;
  limit_premium_per_unit = premium;
  placement_slippage_bps = slippage;
}

abbrev pub outcome_of_limits : MintDraft → OrderKind → Option ℕ → Option ℕ → Parsed MintIntentFields
outcome_of_limits draft market premium slippage = parsed (agreed_mint draft market 0 0)
outcome_of_limits draft limit none slippage = refused missing_limit_fields
outcome_of_limits draft limit (some premium) none = refused missing_limit_fields
outcome_of_limits draft limit (some premium) (some slippage) =
    parsed (agreed_mint draft limit premium slippage)

-- What the signer of a draft and its reader agree on.
pub mint_outcome : MintDraft → Parsed MintIntentFields
mint_outcome draft =
    outcome_of_limits draft (order_kind_or_market draft.order_kind) draft.limit_premium_per_unit
      draft.placement_slippage_bps

mint_fields_clean :
    (draft : MintDraft) (kind : OrderKind)
    → IsWellFormed draft.base
    → all_clean (mint_fields draft kind) ≡ true
mint_fields_clean draft kind h =
    all_clean-append (base_fields draft.base)
      ((text "margin_quote_atoms", to_string draft.margin_quote_atoms)
        ∷ (text "leverage_bps", to_string draft.leverage_bps)
        ∷ (text "quantity", to_string draft.quantity)
        ∷ (text "max_mint_cost", to_string draft.max_mint_cost)
        ∷ (text "market_slippage_bps", to_string draft.market_slippage_bps)
        ∷ (text "remint_after_deleverage", encode_bool draft.remint_after_deleverage)
        ∷ (text "order_kind", kind_text kind)
        ∷ [])
      (base_fields_clean draft.base h)
      (rw
        (
          lacks-to_string draft.margin_quote_atoms,
          lacks-to_string draft.leverage_bps,
          lacks-to_string draft.quantity,
          lacks-to_string draft.max_mint_cost,
          lacks-to_string draft.market_slippage_bps,
          lacks-encode_bool draft.remint_after_deleverage,
          lacks-kind_text kind,
        )
        refl)

abbrev limits : ℕ → ℕ → List (Text × Text)
limits premium slippage =
    (text "limit_premium_per_unit", to_string premium)
    ∷ (text "placement_slippage_bps", to_string slippage)
    ∷ []

-- The fields have the values of the lines that every mint has.
abbrev MintIn : MintDraft → OrderKind → Fields → Type 0
MintIn draft kind all =
    (get (text "margin_quote_atoms") all ≡ some (to_string draft.margin_quote_atoms))
    × (get (text "leverage_bps") all ≡ some (to_string draft.leverage_bps))
    × (get (text "quantity") all ≡ some (to_string draft.quantity))
    × (get (text "max_mint_cost") all ≡ some (to_string draft.max_mint_cost))
    × (get (text "market_slippage_bps") all ≡ some (to_string draft.market_slippage_bps))
    × (get (text "remint_after_deleverage") all ≡ some (encode_bool draft.remint_after_deleverage))
    × (get (text "order_kind") all ≡ some (kind_text kind))

module _ (draft : MintDraft) (kind : OrderKind) (h : IsWellFormed draft.base)
    (fits : draft.market_slippage_bps ≤ 2 ^ 53) where
  read_mint_lem :
      (all : Fields) (premium slippage : ℕ)
      → BaseIn draft.base all
      → MintIn draft kind all
      → parse_optional_u64 all (text "limit_premium_per_unit") ≡ parsed premium
      → parse_optional_number all (text "placement_slippage_bps") ≡ parsed slippage
      → read_mint all ≡ parsed (agreed_mint draft kind premium slippage)
  unfolding read_mint parse_mint_order_kind
  read_mint_lem all premium slippage base_in
        (margin, leverage, contracts, cost, bound, remint, at_kind) premium_read slippage_read =
      rw
        (
          parse_base_lem draft.base all base_in h,
          parse_u64_field_lem all (text "margin_quote_atoms") draft.margin_quote_atoms margin,
          parse_u64_field_lem all (text "leverage_bps") draft.leverage_bps leverage,
          parse_u64_field_lem all (text "quantity") draft.quantity contracts,
          parse_u64_field_lem all (text "max_mint_cost") draft.max_mint_cost cost,
          parse_number_field_lem all (text "market_slippage_bps") draft.market_slippage_bps bound
              fits,
          premium_read,
          slippage_read,
          remint,
          parse_bool-encode_bool draft.remint_after_deleverage,
          at_kind,
          kind_text_lem kind,
        )
        refl

  plain_mint :
      parse_mint_intent_message
        (message_of trade_mint_message_prefix (mint_fields draft kind ++ []))
      ≡ parsed (agreed_mint draft kind 0 0)
  unfolding parse_mint_intent_message get set parse_optional_u64 parse_optional_number
  plain_mint =
      rw
        (parse-message_of trade_mint_message_prefix (mint_fields draft kind ++ []) refl
          (all_clean-append (mint_fields draft kind) [] (mint_fields_clean draft kind h) refl))
        (read_mint_lem (assign_all (mint_fields draft kind ++ []) []) 0 0
          (refl, refl, refl, refl, refl, refl, refl, refl, refl, refl)
          (refl, refl, refl, refl, refl, refl, refl) refl refl)

  -- The reader takes the limit fields whatever the kind is.
  pub limited_mint :
      (premium slippage : ℕ)
      → slippage ≤ 2 ^ 53
      → parse_mint_intent_message
          (message_of trade_mint_message_prefix (mint_fields draft kind ++ limits premium slippage))
        ≡ parsed (agreed_mint draft kind premium slippage)
  unfolding parse_mint_intent_message get set
  limited_mint premium slippage slippage_fits =
      let all = assign_all (mint_fields draft kind ++ limits premium slippage) [] in
      rw
        (parse-message_of trade_mint_message_prefix
          (mint_fields draft kind ++ limits premium slippage) refl
          (all_clean-append (mint_fields draft kind) (limits premium slippage)
            (mint_fields_clean draft kind h)
            (rw (lacks-to_string premium, lacks-to_string slippage) refl)))
        (read_mint_lem all premium slippage
          (refl, refl, refl, refl, refl, refl, refl, refl, refl, refl)
          (refl, refl, refl, refl, refl, refl, refl)
          (parse_optional_u64_lem all (text "limit_premium_per_unit") premium refl)
          (parse_optional_number_lem all (text "placement_slippage_bps") slippage refl
            slippage_fits))

abbrev pub FitsIn : ℕ → Option ℕ → Type 0
FitsIn bound none = Unit
FitsIn bound (some n) = n ≤ bound

outcome_read :
    (draft : MintDraft) (kind : OrderKind) (premium slippage : Option ℕ)
    → IsWellFormed draft.base
    → draft.market_slippage_bps ≤ 2 ^ 53
    → FitsIn (2 ^ 53) slippage
    → (mint_message (mint_fields draft kind) (limit_fields kind premium slippage)
        >>= parse_mint_intent_message)
      ≡ outcome_of_limits draft kind premium slippage
outcome_read draft market premium slippage h fits within = plain_mint draft market h fits
outcome_read draft limit none slippage h fits within = refl
outcome_read draft limit (some premium) none h fits within = refl
outcome_read draft limit (some premium) (some slippage) h fits within =
    limited_mint draft limit h fits premium slippage within

-- The message of a mint gives the draft back: a market mint with 0 for its limit fields, a limit mint
-- with them, and a limit mint without one of them is refused before anything is signed.
pub parse-build_mint :
    (draft : MintDraft)
    → IsWellFormed draft.base
    → draft.market_slippage_bps ≤ 2 ^ 53
    → FitsIn (2 ^ 53) draft.placement_slippage_bps
    → (build_mint_intent_message draft >>= parse_mint_intent_message) ≡ mint_outcome draft
unfolding build_mint_intent_message mint_outcome
parse-build_mint draft h fits within =
    outcome_read draft (order_kind_or_market draft.order_kind) draft.limit_premium_per_unit
      draft.placement_slippage_bps h fits within
