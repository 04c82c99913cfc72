-- ===== src/Keeper/Ptb/Allowed.antt =====
-- keeper/src/sui/ptb-builder.service.ts against keeper/src/sui/move-targets.ts.
use Prim.Native.String.{String}
use text.Mathlib.Text.{◌==◌ as str_eq}
use text.Mathlib.TextEquality.{eq_iff}
use leverx.Prelude.{
  ℕ, ◌≡◌, refl, ap, ◌≢◌, inl, inr, Bool, true, false, ◌||◌, List, [], ◌∷◌, ◌++◌, map,
}
use leverx.Prelude.Tests.{if◌then◌else◌, Bool-cases}
use leverx.Prelude.Lists.{All, All-append, Among, Among-append_left, Among-append_right}
use leverx.Keeper.Types.{Text, KeeperConfig, PositionKeyArgs, LeveragedPosition}
use leverx.Keeper.Ptb.{
  MoveCall, Transaction, Built, built, invalid_u64, unsafe_u64, ◌>>=◌, u64, target_of,
  add_market_key, Arg, move_call,
}
use leverx.Keeper.Ptb.Request.{
  KeeperRequest, force_deleverage, force_repay, write_off, expire_limit, execute_limit,
  trigger_redeem, liquidate, relay_mint, relay_redeem, relay_settle, relay_recover, create_manager,
  build_request,
}
use leverx.Keeper.Ptb.Maintenance.{
  build_force_deleverage_binary, build_force_deleverage_range, build_force_repay_binary_post_expiry,
  build_force_repay_range_post_expiry, build_expire_limit_mint, build_execute_limit_mint,
  build_trigger_redeem, build_liquidation, build_write_off_flat_borrow,
}
use leverx.Keeper.Ptb.Relay.{
  LeveragedMintParams, LeveragedRedeemParams, is_limit, build_leveraged_mint,
  build_leveraged_redeem, build_settle_expired_permissionless, build_recover_manager_surplus,
  build_create_predict_manager,
}
use leverx.Keeper.Ptb.Targets.{
  leverx_paths, market_key_paths, targets_in, keeper_allowed_move_call_targets,
}

-- Every command calls an allowed target.
abbrev pub IsAllowed : KeeperConfig → Transaction → Type 0
IsAllowed cfg tx = All (λ c. Among c.target (keeper_allowed_move_call_targets cfg)) tx

-- What the builder returns satisfies P.
abbrev pub Returns {ℓ κ} : {A : Type ℓ} → (A → Type κ) → Built A → Type κ
Returns P (built a) = P a
Returns P (invalid_u64 s) = Unit
Returns P (unsafe_u64 s) = Unit

pub Returns->>= {ℓ κ} :
    {A B : Type ℓ} (P : B → Type κ) (m : Built A) (f : A → Built B)
    → ((a : A) → Returns P (f a))
    → Returns P (m >>= f)
Returns->>= P (built a) f h = h a
Returns->>= P (invalid_u64 s) f h = tt
Returns->>= P (unsafe_u64 s) f h = tt

abbrev has : String → List String → Bool
has p [] = false
has p (q ∷ qs) = str_eq q p || has p qs

has_if :
    (b : Bool) (p q : String) (ps : List String)
    → has p ps ≡ true
    → has q ps ≡ true
    → has (if b then p else q) ps ≡ true
has_if true p q ps h k = h
has_if false p q ps h k = k

has-Among :
    (pkg : Text) (p : String) (ps : List String)
    → has p ps ≡ true
    → Among (target_of pkg p) (map (target_of pkg) ps)
has-Among pkg p [] h = cc
has-Among pkg p (q ∷ qs) h = elim (Bool-cases (str_eq q p)) [
  | inl e ↦ inl (ap (target_of pkg) ((eq_iff q p).0 e))
  | inr e ↦ inr (has-Among pkg p qs (rw e at h))
]

pub record IsConfigured (cfg : KeeperConfig) : Type 0 where
  pub package_set : cfg.package_id ≢ []
  pub predict_package_set : cfg.predict_package_id ≢ []

targets_in-eq-map :
    (pkg : Text) (ps : List String) → pkg ≢ [] → targets_in pkg ps ≡ map (target_of pkg) ps
targets_in-eq-map [] ps h = absurd (h refl)
targets_in-eq-map (c ∷ cs) ps h = refl

module _ {cfg : KeeperConfig} (conf : IsConfigured cfg) where
  path-Among :
      (p : String)
      → has p leverx_paths ≡ true
      → Among (target_of cfg.package_id p) (keeper_allowed_move_call_targets cfg)
  unfolding keeper_allowed_move_call_targets
  path-Among p h =
      Among-append_left (target_of cfg.package_id p) (targets_in cfg.package_id leverx_paths)
        (targets_in cfg.predict_package_id market_key_paths)
        (rw (targets_in-eq-map cfg.package_id leverx_paths conf.package_set)
          (has-Among cfg.package_id p leverx_paths h))

  key_path-Among :
      (p : String)
      → has p market_key_paths ≡ true
      → Among (target_of cfg.predict_package_id p) (keeper_allowed_move_call_targets cfg)
  unfolding keeper_allowed_move_call_targets
  key_path-Among p h =
      Among-append_right (target_of cfg.predict_package_id p)
        (targets_in cfg.package_id leverx_paths)
        (targets_in cfg.predict_package_id market_key_paths)
        (rw (targets_in-eq-map cfg.predict_package_id market_key_paths conf.predict_package_set)
          (has-Among cfg.predict_package_id p market_key_paths h))

  call-IsAllowed :
      (tx : Transaction) (c : MoveCall)
      → IsAllowed cfg tx
      → Among c.target (keeper_allowed_move_call_targets cfg)
      → IsAllowed cfg (tx ++ (c ∷ []))
  call-IsAllowed tx c h m = All-append _ tx (c ∷ []) h (m, tt)

  key-IsAllowed :
      (tx : Transaction) (args : PositionKeyArgs)
      → IsAllowed cfg tx
      → IsAllowed cfg (add_market_key tx cfg args).0
  unfolding add_market_key
  key-IsAllowed tx args h = elim (Bool-cases args.is_range) [
    | inl e ↦ rw e (call-IsAllowed tx _ h (key_path-Among "range_key::new" refl))
    | inr e ↦ rw e (
        call-IsAllowed tx _ h (
          key_path-Among (if args.is_up then "market_key::up" else "market_key::down")
            (has_if args.is_up _ _ market_key_paths refl refl)))
  ]

  -- A key command followed by one call.
  keyed-IsAllowed :
      (args : PositionKeyArgs) (p : String) (types : List Text) (rest : List Arg)
      → has p leverx_paths ≡ true
      → IsAllowed cfg
          (move_call (add_market_key [] cfg args).0 (target_of cfg.package_id p) types rest).0
  keyed-IsAllowed args p types rest h =
      call-IsAllowed (add_market_key [] cfg args).0 _ (key-IsAllowed [] args tt) (path-Among p h)

  force_deleverage-IsAllowed :
      (p : LeveragedPosition) → Returns (IsAllowed cfg) (build_request cfg (force_deleverage p))
  unfolding build_request build_force_deleverage_range build_force_deleverage_binary
  force_deleverage-IsAllowed p = elim (Bool-cases p.is_range) [
    | inl e ↦ rw e (Returns->>= _ (u64 _ _) _ (λ q. keyed-IsAllowed _ _ _ _ refl))
    | inr e ↦ rw e (Returns->>= _ (u64 _ _) _ (λ q. keyed-IsAllowed _ _ _ _ refl))
  ]

  force_repay-IsAllowed :
      (p : LeveragedPosition) → Returns (IsAllowed cfg) (build_request cfg (force_repay p))
  unfolding build_request build_force_repay_range_post_expiry build_force_repay_binary_post_expiry
  force_repay-IsAllowed p = elim (Bool-cases p.is_range) [
    | inl e ↦ rw e (Returns->>= _ (u64 _ _) _ (λ q. keyed-IsAllowed _ _ _ _ refl))
    | inr e ↦ rw e (Returns->>= _ (u64 _ _) _ (λ q. keyed-IsAllowed _ _ _ _ refl))
  ]

  liquidate-IsAllowed :
      (p : LeveragedPosition) (amount : ℕ)
      → Returns (IsAllowed cfg) (build_request cfg (liquidate p amount))
  unfolding build_request build_liquidation
  liquidate-IsAllowed p amount = Returns->>= _ (u64 _ _) _ λ q.
      call-IsAllowed _ _
        (call-IsAllowed _ _ (keyed-IsAllowed _ _ _ _ refl)
          (path-Among _ (has_if p.is_range _ _ leverx_paths refl refl)))
        (path-Among _ refl)

  relay_mint-IsAllowed :
      (account manager : Text) (params : LeveragedMintParams)
      → IsAllowed cfg (build_leveraged_mint cfg account manager params)
  unfolding build_leveraged_mint
  relay_mint-IsAllowed account manager params = keyed-IsAllowed _ _ _ _ (
      has_if params.key.is_range _ _ leverx_paths
        (has_if (is_limit params.order_kind) _ _ leverx_paths refl refl)
        (has_if (is_limit params.order_kind) _ _ leverx_paths refl refl))

  relay_redeem-IsAllowed :
      (params : LeveragedRedeemParams) → IsAllowed cfg (build_leveraged_redeem cfg params)
  unfolding build_leveraged_redeem
  relay_redeem-IsAllowed params = keyed-IsAllowed _ _ _ _ (
      has_if params.key.is_range _ _ leverx_paths
        (has_if (is_limit params.redeem_mode) _ _ leverx_paths refl refl)
        (has_if (is_limit params.redeem_mode) _ _ leverx_paths refl refl))

-- With both packages configured, every Move call of every transaction that the keeper signs is on
-- the list that gas sponsorship allows.
pub build_request-IsAllowed :
    (cfg : KeeperConfig) (r : KeeperRequest)
    → IsConfigured cfg
    → Returns (IsAllowed cfg) (build_request cfg r)
unfolding build_request build_write_off_flat_borrow build_expire_limit_mint build_execute_limit_mint
    build_trigger_redeem build_settle_expired_permissionless build_recover_manager_surplus
    build_create_predict_manager
build_request-IsAllowed cfg (force_deleverage p) conf = force_deleverage-IsAllowed conf p
build_request-IsAllowed cfg (force_repay p) conf = force_repay-IsAllowed conf p
build_request-IsAllowed cfg (write_off p) conf =
    keyed-IsAllowed conf _ _ _ _ (has_if p.is_range _ _ leverx_paths refl refl)
build_request-IsAllowed cfg (expire_limit o) conf =
    keyed-IsAllowed conf _ _ _ _ (has_if o.is_range _ _ leverx_paths refl refl)
build_request-IsAllowed cfg (execute_limit o m) conf =
    keyed-IsAllowed conf _ _ _ _ (has_if o.is_range _ _ leverx_paths refl refl)
build_request-IsAllowed cfg (trigger_redeem p min_payout) conf =
    Returns->>= _ (u64 _ _) _
      λ q. keyed-IsAllowed conf _ _ _ _ (has_if p.is_range _ _ leverx_paths refl refl)
build_request-IsAllowed cfg (liquidate p amount) conf = liquidate-IsAllowed conf p amount
build_request-IsAllowed cfg (relay_mint a m params) conf = relay_mint-IsAllowed conf a m params
build_request-IsAllowed cfg (relay_redeem params) conf = relay_redeem-IsAllowed conf params
build_request-IsAllowed cfg (relay_settle params) conf =
    keyed-IsAllowed conf _ _ _ _ (has_if params.key.is_range _ _ leverx_paths refl refl)
build_request-IsAllowed cfg (relay_recover params) conf =
    keyed-IsAllowed conf _ _ _ _ (has_if params.key.is_range _ _ leverx_paths refl refl)
build_request-IsAllowed cfg create_manager conf =
    (path-Among conf "predict_client::create_manager" refl, tt)
