-- ===== src/Keeper/Tasks/LimitOrders/Attempts.antt =====
-- keeper/src/tasks/limit-order.service.ts: what one attempt to fill or to expire an order gains.
use leverx.Prelude.{ℕ, ◌≡◌, refl, ◌&&◌, Option, none, some, List, [], ◌∷◌, ◌++◌, arith, inl, inr}
use leverx.Prelude.Tests.{if◌then◌else◌, Option-cases}
use leverx.Keeper.Types.{Text, LimitMintOrder, TaskResult, KeeperConfig}
use leverx.Keeper.Effects.{Event}
use leverx.Keeper.Effects.Rules.{
  Ensures, bind_rule, catch_rule, outside_rule, return_rule, reading_rule, branch_rule,
}
use leverx.Keeper.Sui.Guard.{Confirms, transaction_rule, try_dev_inspect_rule}
use leverx.Keeper.Quotes.Reads.{fetch_market_ask_per_unit_rule, fetch_predict_manager_id_rule}
use leverx.Keeper.Tasks.{Services}
use leverx.Keeper.Tasks.Submit.{execute_if_ok_rule, no_gain}
use leverx.Keeper.Tasks.Results.{gained_digests, gained}
use leverx.Keeper.Tasks.LimitOrders.{
  is_fillable, manager_of, submit_fill, fill_with, try_fill, try_expire, is_fill,
}

-- The fills that an attempt reports.
abbrev pub fills_in : Option TaskResult → ℕ
fills_in none = 0
fills_in (some r) = if r.success && is_fill r.kind then 1 else 0

-- An attempt gains exactly what it confirms, and it is a fill.
pub record FillAttempt (ds : List Text) (r : Option TaskResult) (l : List Event) : Type 0 where
  pub counts : Confirms (ds ++ gained_digests r) l
  pub as_fill : fills_in r ≡ gained r

pub record ExpireAttempt (ds : List Text) (r : TaskResult) (l : List Event) : Type 0 where
  pub counts : Confirms (ds ++ gained_digests (some r)) l
  pub as_expiry : fills_in (some r) ≡ 0

no_fill :
    (ds : List Text) (r : Option TaskResult) (l : List Event)
    → gained r ≡ 0
    → fills_in r ≡ 0
    → gained_digests r ≡ []
    → Confirms ds l
    → FillAttempt ds r l
no_fill ds r l g f none_gained p = record {
  counts = rw none_gained (no_gain ds l p);
  as_fill = omega (arith, f, g);
}

module _ {W : Type 0} (sv : Services W) (cfg : KeeperConfig) (ds : List Text) where
  is_fillable_rule :
      (o : LimitMintOrder)
      → Ensures (Confirms ds) (is_fillable sv o) (λ _. Confirms ds) (Confirms ds)
  unfolding is_fillable
  is_fillable_rule o =
      bind_rule (λ _. Confirms ds) (fetch_market_ask_per_unit_rule sv.sui ds _ _)
        λ ask. return_rule _ λ l p. p

  manager_of_rule :
      (account : Text)
      → Ensures (Confirms ds) (manager_of sv account) (λ _. Confirms ds) (Confirms ds)
  unfolding manager_of
  manager_of_rule account =
      bind_rule (λ _. Confirms ds) (fetch_predict_manager_id_rule sv.sui ds account)
        λ linked. elim (Option-cases linked) [
          | inl e ↦ rw e (outside_rule _ (λ l p a. p) (λ l p. p))
          | inr (id, e) ↦ rw e (return_rule _ λ l p. p)
        ]

  submit_fill_rule :
      (o : LimitMintOrder) (manager : Text)
      → Ensures (Confirms ds) (submit_fill sv cfg o manager) (FillAttempt ds) (Confirms ds)
  unfolding submit_fill
  submit_fill_rule o manager =
      bind_rule (λ _. Confirms ds) (transaction_rule sv.sui ds _)
        λ tx. bind_rule _ (try_dev_inspect_rule sv.sui ds tx) λ sim.
          execute_if_ok_rule sv.sui ds tx sim
            (λ e. return_rule _ λ l p. no_fill ds _ l refl refl refl p)
            λ d l p. record { counts = p; as_fill = refl }

  fill_with_rule :
      (o : LimitMintOrder) (manager : Option Text)
      → Ensures (Confirms ds) (fill_with sv cfg o manager) (FillAttempt ds) (Confirms ds)
  unfolding fill_with
  fill_with_rule o none = return_rule _ λ l p. no_fill ds _ l refl refl refl p
  fill_with_rule o (some []) = return_rule _ λ l p. no_fill ds _ l refl refl refl p
  fill_with_rule o (some (c ∷ id)) = submit_fill_rule o (c ∷ id)

  -- One attempt never rejects, and gains exactly what it confirms.
  pub try_fill_rule :
      (now : ℕ) (o : LimitMintOrder)
      → Ensures (Confirms ds) (try_fill sv cfg now o) (FillAttempt ds) (λ l. ⊥)
  unfolding try_fill
  try_fill_rule now o =
      catch_rule (Confirms ds)
        (reading_rule _ λ window.
          branch_rule _ (λ e. return_rule _ λ l p. no_fill ds _ l refl refl refl p)
            λ e.
              bind_rule (λ _. Confirms ds) (is_fillable_rule o)
                λ fillable.
                  branch_rule _ (λ f. return_rule _ λ l p. no_fill ds _ l refl refl refl p)
                    λ f.
                      bind_rule (λ _. Confirms ds) (manager_of_rule o.account_id)
                        λ manager. fill_with_rule o manager)
        λ e. return_rule _ λ l p. no_fill ds _ l refl refl refl p

  pub try_expire_rule :
      (o : LimitMintOrder) → Ensures (Confirms ds) (try_expire sv cfg o) (ExpireAttempt ds) (λ l. ⊥)
  unfolding try_expire
  try_expire_rule o =
      catch_rule (Confirms ds)
        (bind_rule (λ _. Confirms ds) (transaction_rule sv.sui ds _)
          λ tx. bind_rule _ (try_dev_inspect_rule sv.sui ds tx) λ sim.
            execute_if_ok_rule sv.sui ds tx sim
              (λ e. return_rule _ λ l p. record { counts = no_gain ds l p; as_expiry = refl })
              λ d l p. record { counts = p; as_expiry = refl })
        λ e. return_rule _ λ l p. record { counts = no_gain ds l p; as_expiry = refl }
