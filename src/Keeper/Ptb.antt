-- ===== src/Keeper/Ptb.antt =====
-- keeper/src/sui/ptb-builder.service.ts: programmable transactions as lists of Move calls. The Sui
-- SDK's `Transaction` is the list of its commands; how the SDK serialises an argument is not modelled,
-- so a `pure_u64` holds the integer that it was handed.
pub mod Reads
pub mod Maintenance
pub mod Relay
pub mod Targets
pub mod Request
pub mod Allowed
pub mod Scope
pub mod Tests
use Prim.Native.String.{String}
use leverx.Prelude.{ℕ, Bool, List, [], ◌∷◌, ◌++◌, Option, none, some}
use leverx.Prelude.Tests.{leb, if◌then◌else◌}
use leverx.Prelude.Lists.{length}
use leverx.Prelude.Int.{ℤ, pos}
use leverx.Keeper.Types.{Text, KeeperConfig, PositionKeyArgs, LeveragedPosition, LimitMintOrder}

-- `${pkg}::${path}`
pub record MoveTarget : Type 0 where
  pub package_of : Text
  pub path : String

pub data Arg : Type 0 where
  object : Text → Arg
  -- `tx.object(null)`, which the type assertion `!` lets through
  missing_object : Arg
  clock : Arg
  pure_id : Text → Arg
  pure_u64 : ℤ → Arg
  pure_bool : Bool → Arg
  -- value `j` that command `i` returned
  result : ℕ → ℕ → Arg

pub record MoveCall : Type 0 where
  pub target : MoveTarget
  pub type_arguments : List Text
  pub arguments : List Arg

abbrev pub Transaction : Type 0
Transaction = List MoveCall

-- A builder throws or returns.
pub data Built {ℓ} (A : Type ℓ) : Type ℓ where
  built : A → Built A
  invalid_u64 unsafe_u64 : String → Built A

infixl 5 ◌>>=◌
abbrev pub ◌>>=◌ {ℓ κ} : {A : Type ℓ} {B : Type κ} → Built A → (A → Built B) → Built B
built a >>= f = f a
invalid_u64 s >>= f = invalid_u64 s
unsafe_u64 s >>= f = unsafe_u64 s

-- `Number.MAX_SAFE_INTEGER`, 2 ^ 53 - 1
abbrev pub max_safe_integer : ℕ
max_safe_integer = 9_007_199_254_740_991

-- `u64` of a JavaScript number that is a natural: only unsafe integers are refused.
unfoldable pub u64 : ℕ → String → Built ℕ
u64 value label = if leb value max_safe_integer then built value else unsafe_u64 label

abbrev pub u64_arg : ℕ → Arg
u64_arg n = pure_u64 (pos n)

abbrev pub object_of : Option Text → Arg
object_of none = missing_object
object_of (some id) = object id

abbrev pub target_of : Text → String → MoveTarget
target_of pkg path = record { package_of = pkg; path = path }

-- `tx.moveCall`: the command is appended, and its results carry its index.
abbrev pub move_call : Transaction → MoveTarget → List Text → List Arg → Transaction × ℕ
move_call tx target types args =
    (tx ++ (record { target = target; type_arguments = types; arguments = args } ∷ []), length tx)

unfoldable pub add_market_key : Transaction → KeeperConfig → PositionKeyArgs → Transaction × Arg
add_market_key tx cfg args =
    if args.is_range
    then (let (tx', i) = move_call tx (target_of cfg.predict_package_id "range_key::new") [] (
          pure_id args.oracle_id
          ∷ u64_arg args.expiry_ms
          ∷ u64_arg args.strike
          ∷ u64_arg args.higher_strike
          ∷ []) in
        (tx', result i 0))
    else (let (tx', i) =
          move_call tx
            (target_of cfg.predict_package_id
              (if args.is_up then "market_key::up" else "market_key::down"))
            [] (pure_id args.oracle_id ∷ u64_arg args.expiry_ms ∷ u64_arg args.strike ∷ []) in
        (tx', result i 0))

unfoldable pub key_from_position : LeveragedPosition → PositionKeyArgs
key_from_position p = record {
  oracle_id = p.oracle_id;
  expiry_ms = p.expiry_ms;
  strike = p.strike;
  higher_strike = p.higher_strike;
  is_up = p.is_up;
  is_range = p.is_range;
}

unfoldable pub key_from_limit_order : LimitMintOrder → PositionKeyArgs
key_from_limit_order o = record {
  oracle_id = o.oracle_id;
  expiry_ms = o.expiry_ms;
  strike = o.strike;
  higher_strike = o.higher_strike;
  is_up = o.is_up;
  is_range = o.is_range;
}
