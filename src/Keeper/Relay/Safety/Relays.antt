-- ===== src/Keeper/Relay/Safety/Relays.antt =====
-- The four relays: each answer comes with one confirmed transaction, built from an authorised intent.
use leverx.Prelude.{ℕ, ◌≡◌, List, Option}
use leverx.Prelude.Texts.{Text}
use leverx.Keeper.Types.{KeeperConfig}
use leverx.Keeper.Messages.Trade.{IntentBase, RecoverManagerIntentFields}
use leverx.Keeper.Ptb.{Transaction, built}
use leverx.Keeper.Effects.{Event, M, Reply, Session}
use leverx.Keeper.Effects
use leverx.Keeper.Effects.Rules.{
  Ensures, bind_rule, return_rule, reading_rule, branch_rule, outside_rule, weaken_rule,
  assume_rule,
}
use leverx.Keeper.Sui.{transaction}
use leverx.Keeper.Quotes.{fetch_manager_quote_balance, fetch_manager_open_quantity}
use leverx.Keeper.Replay.{Store}
use leverx.Keeper.Relay.{Served, served, rejected, AppAuthPayload, IntentKind}
use leverx.Keeper.Relay.Auth.{Relay, S, ◌>>=◌, verify_trade_request}
use leverx.Keeper.Relay.Auth.Sound.{IsAuthorised}
use leverx.Keeper.Relay.Safety.{OnServed, serve_rule, serve_weaken_rule}
use leverx.Keeper.Relay.Safety.Verify.{
  EnsuresAt, weaken_at_rule, serve_at_rule, Same, PassedWith, verify_trade_request_rule,
}
use leverx.Keeper.Relay.Safety.Submit.{
  tries, Confirmed, IsUnconfirmed, IsOwned, Same-IsUnconfirmed, serialise_log, submit_rule,
  assert_relay_ready_rule, assert_account_ownership_rule,
}
use leverx.Keeper.Relay.Trades.{
  TradeRelayResponse, mint_kind, redeem_kind, settle_kind, recover_manager_kind, mint_transaction,
  redeem_transaction, settle_transaction, recover_manager_transaction, assert_relay_ready,
  assert_account_ownership, assert_recover_manager_preconditions, recoverable, nonzero, relay_mint,
  relay_redeem, relay_settle, relay_recover_manager,
}

-- The log grew by the confirmed transaction of an intent that is authorised and whose account is owned.
pub record Relayed {W T : Type 0} (relay : Relay W) (kind : IntentKind T) (base_of : T → IntentBase)
    (build : KeeperConfig → T → Transaction) (payload : AppAuthPayload) (bearer : Option Text)
    (now : ℕ) (before : List Event) (digest : Text) (l : List Event) : Type 0 where
  pub intent : T
  pub cfg : KeeperConfig
  pub authorised : IsAuthorised relay kind payload bearer now intent
  pub owned : IsOwned relay (base_of intent)
  pub log : Confirmed (tries relay) (build cfg intent) digest before l

module _ {W : Type 0} (relay : Relay W) (bearer : Option Text) (now : ℕ)
    (ticks : (w : W) (used : Store) → relay.sui.now (relay.put_used used w) ≡ relay.sui.now w)
    (before : List Event) where
  open relay use {sui}

  -- A step that leaves the log alone.
  gate :
      {A : Type 0} {R : A → List Event → Type 0} {m : S W A}
      → Ensures (Same before) m (OnServed R (Same before)) (Same before)
      → Ensures
          (Same before)
          m
          (OnServed R (IsUnconfirmed (tries relay) before))
          (IsUnconfirmed (tries relay) before)
  gate h =
      serve_weaken_rule (λ l p. p) (λ a l p. p) (Same-IsUnconfirmed relay before)
        (Same-IsUnconfirmed relay before) h

  module _ {T : Type 0} (kind : IntentKind T) (base_of : T → IntentBase)
      (build : KeeperConfig → T → Transaction) (payload : AppAuthPayload) where
    -- The steps that all relays take once an intent is authorised.
    tail_rule :
        (intent : T) {rest : S W TradeRelayResponse}
        → IsAuthorised relay kind payload bearer now intent
        → Ensures
            (Same before)
            rest
            (OnServed
              (λ r l.
                (cfg : KeeperConfig) × Confirmed (tries relay) (build cfg intent) r.digest before l)
              (IsUnconfirmed (tries relay) before))
            (IsUnconfirmed (tries relay) before)
        → Ensures
            (Same before)
            (assert_relay_ready relay >>= λ u.
              assert_account_ownership relay (base_of intent) >>= λ v. rest)
            (OnServed
              (λ r. Relayed relay kind base_of build payload bearer now before r.digest)
              (IsUnconfirmed (tries relay) before))
            (IsUnconfirmed (tries relay) before)
    tail_rule intent authorised h =
        serve_rule (λ u. Same before) (gate (assert_relay_ready_rule relay before))
          λ u.
            serve_rule (λ v l. Same before l × IsOwned relay (base_of intent))
              (gate (assert_account_ownership_rule relay before (base_of intent)))
              λ v.
                assume_rule (λ l p. p.1)
                  λ owned.
                    serve_weaken_rule (λ l p. p.0)
                      (λ r l (cfg, log). record {
                        intent = intent;
                        cfg = cfg;
                        authorised = authorised;
                        owned = owned;
                        log = log;
                      })
                      (λ l p. p) (λ l p. p) h

    -- A relay verifies the request first.
    relay_rule :
        (rest : T × Option Text → S W TradeRelayResponse)
        → ((intent : T) (auth : Option Text)
            → IsAuthorised relay kind payload bearer now intent
            → Ensures
                (Same before)
                (rest (intent, auth))
                (OnServed
                  (λ r. Relayed relay kind base_of build payload bearer now before r.digest)
                  (IsUnconfirmed (tries relay) before))
                (IsUnconfirmed (tries relay) before))
        → EnsuresAt relay now
            (Same before)
            (verify_trade_request relay kind payload bearer >>= rest)
            (OnServed
              (λ r. Relayed relay kind base_of build payload bearer now before r.digest)
              (IsUnconfirmed (tries relay) before))
            (IsUnconfirmed (tries relay) before)
    relay_rule rest h =
        serve_at_rule relay now (PassedWith relay kind payload bearer now before)
          (weaken_at_rule relay now passed (Same-IsUnconfirmed relay before)
            (verify_trade_request_rule relay kind payload bearer now before ticks))
          λ (intent, auth).
            assume_rule (λ l p. p.1)
              λ authorised.
                weaken_rule (λ l p. p.0) (λ a l p. p) (λ l p. p) (h intent auth authorised)
      where
        passed :
            (v : Served (T × Option Text)) (l : List Event)
            → OnServed (PassedWith relay kind payload bearer now before) (Same before) v l
            → OnServed
                (PassedWith relay kind payload bearer now before)
                (IsUnconfirmed (tries relay) before)
                v
                l
        passed (served i) l p = p
        passed (rejected r) l p = Same-IsUnconfirmed relay before l p

  read_u64_log :
      (tx : Transaction)
      → Ensures
          (Same before)
          (Effects.◌>>=◌ (transaction sui (built tx)) λ t. Effects.outside (sui.inspect_u64 t))
          (λ n. Same before)
          (Same before)
  unfolding transaction
  read_u64_log tx =
      bind_rule (λ t l. Same before l × (t ≡ tx)) (serialise_log relay before tx _)
        λ t. outside_rule _ (λ l p a. p.0) λ l p. p.0

  preconditions_rule :
      (intent : RecoverManagerIntentFields)
      → Ensures
          (Same before)
          (assert_recover_manager_preconditions relay intent)
          (OnServed (λ u. Same before) (Same before))
          (Same before)
  unfolding assert_recover_manager_preconditions fetch_manager_open_quantity
      fetch_manager_quote_balance
  preconditions_rule intent =
      bind_rule (λ n. Same before) (reading_rule _ λ cfg. read_u64_log _)
        λ open_qty.
          bind_rule (λ n. Same before) (reading_rule _ λ cfg. read_u64_log _)
            λ balance. settled (recoverable intent.manager_quote_atoms open_qty balance)
    where
      settled :
          (v : Served (Unit {0}))
          → Ensures {W = W}
              (Same before)
              (Effects.return v)
              (OnServed (λ u. Same before) (Same before))
              (Same before)
      settled (served u) = return_rule _ λ l p. p
      settled (rejected r) = return_rule _ λ l p. p

  module _ (body : AppAuthPayload) where
    pub relay_mint_rule :
        EnsuresAt relay now
          (Same before)
          (relay_mint relay body bearer)
          (OnServed
            (λ r.
              Relayed relay mint_kind
                (λ i. i.base)
                mint_transaction
                body
                bearer
                now
                before
                r.digest)
            (IsUnconfirmed (tries relay) before))
          (IsUnconfirmed (tries relay) before)
    unfolding relay_mint
    relay_mint_rule =
        relay_rule mint_kind (λ i. i.base) mint_transaction body _
          λ intent auth authorised.
            tail_rule mint_kind (λ i. i.base) mint_transaction body intent authorised
              (reading_rule _ λ paused.
                branch_rule _ (λ e. return_rule _ (Same-IsUnconfirmed relay before))
                  λ e. submit_rule relay before (λ cfg. mint_transaction cfg intent) auth)

    pub relay_redeem_rule :
        EnsuresAt relay now
          (Same before)
          (relay_redeem relay body bearer)
          (OnServed
            (λ r.
              Relayed relay redeem_kind
                (λ i. i.base)
                redeem_transaction
                body
                bearer
                now
                before
                r.digest)
            (IsUnconfirmed (tries relay) before))
          (IsUnconfirmed (tries relay) before)
    unfolding relay_redeem
    relay_redeem_rule =
        relay_rule redeem_kind (λ i. i.base) redeem_transaction body _
          λ intent auth authorised.
            tail_rule redeem_kind (λ i. i.base) redeem_transaction body intent authorised
              (submit_rule relay before (λ cfg. redeem_transaction cfg intent) auth)

    pub relay_settle_rule :
        EnsuresAt relay now
          (Same before)
          (relay_settle relay body bearer)
          (OnServed
            (λ r.
              Relayed relay settle_kind
                (λ i. i.base)
                settle_transaction
                body
                bearer
                now
                before
                r.digest)
            (IsUnconfirmed (tries relay) before))
          (IsUnconfirmed (tries relay) before)
    unfolding relay_settle
    relay_settle_rule =
        relay_rule settle_kind (λ i. i.base) settle_transaction body _
          λ intent auth authorised.
            tail_rule settle_kind (λ i. i.base) settle_transaction body intent authorised
              (submit_rule relay before (λ cfg. settle_transaction cfg intent) auth)

    pub relay_recover_manager_rule :
        EnsuresAt relay now
          (Same before)
          (relay_recover_manager relay body bearer)
          (OnServed
            (λ r.
              Relayed relay recover_manager_kind
                (λ i. i.base)
                recover_manager_transaction
                body
                bearer
                now
                before
                r.digest)
            (IsUnconfirmed (tries relay) before))
          (IsUnconfirmed (tries relay) before)
    unfolding relay_recover_manager
    relay_recover_manager_rule =
        relay_rule recover_manager_kind (λ i. i.base) recover_manager_transaction body _
          λ intent auth authorised.
            serve_rule (λ u. Same before) (gate (positive (nonzero relay intent)))
              λ u.
                tail_rule recover_manager_kind (λ i. i.base) recover_manager_transaction body intent
                  authorised
                  (serve_rule (λ u. Same before) (gate (preconditions_rule intent))
                    λ v.
                      submit_rule relay before (λ cfg. recover_manager_transaction cfg intent) auth)
      where
        positive :
            (v : Served (Unit {0}))
            → Ensures {W = W}
                (Same before)
                (Effects.return v)
                (OnServed (λ u. Same before) (Same before))
                (Same before)
        positive (served u) = return_rule _ λ l p. p
        positive (rejected r) = return_rule _ λ l p. p
