-- ===== src/Keeper/Ptb/Scope.antt =====
-- keeper/src/sui/ptb-builder.service.ts: how the commands of a transaction refer to one another.
use leverx.Prelude.{ℕ, suc, ◌+◌, ◌<◌, ◌≡◌, refl, ◌&&◌, List, [], ◌∷◌, inl, inr, arith}
use leverx.Prelude.Tests.{◌==◌, if◌then◌else◌, Bool-cases, Option-cases}
use leverx.Prelude.Lists.{All, length}
use leverx.Keeper.Types.{Text, KeeperConfig, PositionKeyArgs, LeveragedPosition}
use leverx.Keeper.Ptb.{
  Arg, object, missing_object, clock, pure_id, pure_u64, pure_bool, result, MoveCall, Transaction,
  u64, u64_arg, object_of, target_of, add_market_key,
}
use leverx.Keeper.Ptb.Allowed.{Returns, Returns->>=}
use leverx.Keeper.Ptb.Request.{
  KeeperRequest, force_deleverage, force_repay, write_off, expire_limit, execute_limit,
  trigger_redeem, liquidate, relay_mint, relay_redeem, relay_settle, relay_recover, create_manager,
  build_request,
}
use leverx.Keeper.Ptb.Maintenance.{
  build_force_deleverage_binary, build_force_deleverage_range, build_force_repay_binary_post_expiry,
  build_force_repay_range_post_expiry, build_expire_limit_mint, build_execute_limit_mint,
  build_trigger_redeem, build_liquidation, build_write_off_flat_borrow,
}
use leverx.Keeper.Ptb.Relay.{
  build_leveraged_mint, build_leveraged_redeem, build_settle_expired_permissionless,
  build_recover_manager_surplus, build_create_predict_manager,
}
use leverx.Prelude.{Option, none, some}

-- The argument is no result, or one of an earlier command than `n`.
abbrev pub IsBefore : ℕ → Arg → Type 0
IsBefore n (result i j) = i < n
IsBefore n (object id) = Unit
IsBefore n missing_object = Unit
IsBefore n clock = Unit
IsBefore n (pure_id id) = Unit
IsBefore n (pure_u64 v) = Unit
IsBefore n (pure_bool b) = Unit

-- Every command, counted from `n`, uses results of earlier commands only.
abbrev pub IsScoped : ℕ → Transaction → Type 0
IsScoped n [] = Unit
IsScoped n (c ∷ cs) = All (IsBefore n) c.arguments × IsScoped (suc n) cs

key_command : KeeperConfig → PositionKeyArgs → MoveCall
key_command cfg args = record {
  target = target_of cfg.predict_package_id (
      if args.is_range
      then "range_key::new"
      else if args.is_up
      then "market_key::up"
      else "market_key::down");
  type_arguments = [];
  arguments =
      if args.is_range
      then pure_id args.oracle_id
        ∷ u64_arg args.expiry_ms
        ∷ u64_arg args.strike
        ∷ u64_arg args.higher_strike
        ∷ []
      else pure_id args.oracle_id ∷ u64_arg args.expiry_ms ∷ u64_arg args.strike ∷ [];
}

add_market_key-eq :
    (cfg : KeeperConfig) (args : PositionKeyArgs)
    → add_market_key [] cfg args ≡ (key_command cfg args ∷ [], result 0 0)
unfolding add_market_key key_command
add_market_key-eq cfg args = elim (Bool-cases args.is_range) [
  | inl e ↦ rw e refl
  | inr e ↦ rw e refl
]

key_command-IsBefore :
    (cfg : KeeperConfig) (args : PositionKeyArgs)
    → All (IsBefore 0) (key_command cfg args).arguments
unfolding key_command
key_command-IsBefore cfg args = elim (Bool-cases args.is_range) [
  | inl e ↦ rw e (tt, (tt, (tt, (tt, tt))))
  | inr e ↦ rw e (tt, (tt, (tt, tt)))
]

object_of-IsBefore : (n : ℕ) (id : Option Text) → IsBefore n (object_of id)
object_of-IsBefore n none = tt
object_of-IsBefore n (some id) = tt

module _ (cfg : KeeperConfig) where
  force_deleverage-IsScoped :
      (p : LeveragedPosition) → Returns (IsScoped 0) (build_request cfg (force_deleverage p))
  unfolding build_request build_force_deleverage_range build_force_deleverage_binary
  force_deleverage-IsScoped p = elim (Bool-cases p.is_range) [
    | inl e ↦
        rw (e, add_market_key-eq)
          (Returns->>= _ (u64 _ _) _ λ q.
            (key_command-IsBefore cfg _, ground (arith, object_of-IsBefore 1 p.predict_manager_id)))
    | inr e ↦
        rw (e, add_market_key-eq)
          (Returns->>= _ (u64 _ _) _ λ q.
            (key_command-IsBefore cfg _, ground (arith, object_of-IsBefore 1 p.predict_manager_id)))
  ]

  force_repay-IsScoped :
      (p : LeveragedPosition) → Returns (IsScoped 0) (build_request cfg (force_repay p))
  unfolding build_request build_force_repay_range_post_expiry build_force_repay_binary_post_expiry
  force_repay-IsScoped p = elim (Bool-cases p.is_range) [
    | inl e ↦
        rw (e, add_market_key-eq)
          (Returns->>= _ (u64 _ _) _ λ q.
            (key_command-IsBefore cfg _, ground (arith, object_of-IsBefore 1 p.predict_manager_id)))
    | inr e ↦
        rw (e, add_market_key-eq)
          (Returns->>= _ (u64 _ _) _ λ q.
            (key_command-IsBefore cfg _, ground (arith, object_of-IsBefore 1 p.predict_manager_id)))
  ]

  liquidate-IsScoped :
      (p : LeveragedPosition) (amount : ℕ)
      → Returns (IsScoped 0) (build_request cfg (liquidate p amount))
  unfolding build_request build_liquidation
  liquidate-IsScoped p amount = rw add_market_key-eq (
      Returns->>= _ (u64 _ _) _ λ q.
        (key_command-IsBefore cfg _, ground (arith, object_of-IsBefore 2 p.predict_manager_id)))

-- In every transaction that the keeper signs, a command uses results of earlier commands only.
pub build_request-IsScoped :
    (cfg : KeeperConfig) (r : KeeperRequest) → Returns (IsScoped 0) (build_request cfg r)
unfolding build_request build_write_off_flat_borrow build_expire_limit_mint build_execute_limit_mint
    build_trigger_redeem build_leveraged_mint build_leveraged_redeem
    build_settle_expired_permissionless build_recover_manager_surplus build_create_predict_manager
build_request-IsScoped cfg (force_deleverage p) = force_deleverage-IsScoped cfg p
build_request-IsScoped cfg (force_repay p) = force_repay-IsScoped cfg p
build_request-IsScoped cfg (write_off p) =
    rw add_market_key-eq
      (key_command-IsBefore cfg _, ground (arith, object_of-IsBefore 1 p.predict_manager_id))
build_request-IsScoped cfg (expire_limit o) =
    rw add_market_key-eq (key_command-IsBefore cfg _, omega arith)
build_request-IsScoped cfg (execute_limit o m) =
    rw add_market_key-eq (key_command-IsBefore cfg _, omega arith)
build_request-IsScoped cfg (trigger_redeem p min_payout) = rw add_market_key-eq (
    Returns->>= _ (u64 _ _) _
      λ q. (key_command-IsBefore cfg _, ground (arith, object_of-IsBefore 1 p.predict_manager_id)))
build_request-IsScoped cfg (liquidate p amount) = liquidate-IsScoped cfg p amount
build_request-IsScoped cfg (relay_mint a m params) =
    rw add_market_key-eq (key_command-IsBefore cfg _, ground arith)
build_request-IsScoped cfg (relay_redeem params) =
    rw add_market_key-eq (key_command-IsBefore cfg _, omega arith)
build_request-IsScoped cfg (relay_settle params) =
    rw add_market_key-eq (key_command-IsBefore cfg _, omega arith)
build_request-IsScoped cfg (relay_recover params) =
    rw add_market_key-eq (key_command-IsBefore cfg _, omega arith)
build_request-IsScoped cfg create_manager = (tt, tt)

-- How often result `j` of command `i` is an argument.
abbrev pub uses_in : ℕ → ℕ → List Arg → ℕ
uses_in i j [] = 0
uses_in i j (result k l ∷ rest) = (if i == k && j == l then 1 else 0) + uses_in i j rest
uses_in i j (object id ∷ rest) = uses_in i j rest
uses_in i j (missing_object ∷ rest) = uses_in i j rest
uses_in i j (clock ∷ rest) = uses_in i j rest
uses_in i j (pure_id id ∷ rest) = uses_in i j rest
uses_in i j (pure_u64 v ∷ rest) = uses_in i j rest
uses_in i j (pure_bool b ∷ rest) = uses_in i j rest

abbrev pub uses : ℕ → ℕ → Transaction → ℕ
uses i j [] = 0
uses i j (c ∷ cs) = uses_in i j c.arguments + uses i j cs

uses_in-key :
    (cfg : KeeperConfig) (args : PositionKeyArgs) (i j : ℕ)
    → uses_in i j (key_command cfg args).arguments ≡ 0
unfolding key_command
uses_in-key cfg args i j = elim (Bool-cases args.is_range) [ inl e ↦ rw e refl | inr e ↦ rw e refl ]

-- The liquidation is four commands: the market key, the loan, the liquidation and the repayment. The
-- borrowed coin, the loan's receipt and the coin left over are each spent exactly once.
pub build_liquidation_linear :
    (cfg : KeeperConfig) (p : LeveragedPosition) (amount : ℕ)
    → Returns
        (λ tx. (length tx ≡ 4) × (uses 1 0 tx ≡ 1) × (uses 1 1 tx ≡ 1) × (uses 2 0 tx ≡ 1))
        (build_liquidation [] cfg p amount)
unfolding build_liquidation
build_liquidation_linear cfg p amount = rw add_market_key-eq (
    Returns->>= _ (u64 _ _) _ λ q. elim (Option-cases p.predict_manager_id) [
      | inl e ↦ simp uses_in-key (rw e (refl, refl, refl, refl))
      | inr (id, e) ↦ simp uses_in-key (rw e (refl, refl, refl, refl))
    ])
