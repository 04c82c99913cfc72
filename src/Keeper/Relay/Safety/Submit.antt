-- ===== src/Keeper/Relay/Safety/Submit.antt =====
-- What a relay submits: exactly the transaction of an authorised intent on an account of its address.
use Prim.Native.String.{String}
use leverx.Prelude.{
  ℕ, zero, suc, ◌≤◌, ◌<◌, ◌≡◌, refl, ap, subst, Bool, true, false, List, ◌∷◌, Option, none, some,
  arith,
}
use leverx.Prelude.Tests.{if◌then◌else◌}
use leverx.Prelude.Texts.{Text, text}
use leverx.Keeper.Types.{KeeperConfig}
use leverx.Keeper.Messages.Trade.{IntentBase}
use leverx.Keeper.Ptb.{Transaction}
use leverx.Keeper.Effects.{Event, simulated, submitted, confirmed, M, Reply, returned, Session}
use leverx.Keeper.Effects
use leverx.Keeper.Effects.Rules.{
  Post, Ensures, bind_rule, seq_rule, note_rule, return_rule, throw_rule, catch_rule, reading_rule,
  branch_rule, outside_rule, outside_result_rule, weaken_rule, assume_rule,
}
use leverx.Keeper.RpcFailover.{
  Outcome, answered, failed_with, State, Invoked, resolved, rejected, invoke,
}
use leverx.Keeper.RpcFailover.Rules.{OnOutcome, AtMost, OnInvoked, invoke_rule}
use leverx.Keeper.Sui.{
  Simulation, sim_ok, sim_failed, is_sim_ok, serialise, transaction, try_dev_inspect,
  after_submission, rpc_of, rpc_state, reply_of, submit_with_retries, execute,
}
use leverx.Keeper.Relay.{served, forbidden, nonblank}
use leverx.Keeper.Relay
use leverx.Keeper.Relay.Auth.{Relay, UserProxy}
use leverx.Keeper.Relay.Safety.{OnServed, serve_weaken_rule}
use leverx.Keeper.Relay.Safety.Verify.{Same}
use leverx.Keeper.Relay.Trades.{
  find_account, is_manager, owned_account, assert_relay_ready, assert_account_ownership,
  execute_simulated, simulate_and_execute, submit,
}

-- A simulation that succeeded, and so many attempts to submit the transaction after it.
abbrev pub attempts : Transaction → ℕ → List Event → List Event
attempts tx zero before = simulated tx true ∷ before
attempts tx (suc k) before = submitted tx ∷ attempts tx k before

-- The log grew by a successful simulation, attempts to submit the same transaction, and the confirmation of
-- the last of them, with the digest; at most `most` attempts.
abbrev pub Confirmed : ℕ → Transaction → Text → List Event → List Event → Type 0
Confirmed most tx digest before l =
    (retries : ℕ) × (retries < most) × (l ≡ confirmed tx digest ∷ attempts tx (suc retries) before)

-- The node confirmed nothing: the log grew by nothing, by a simulation, or by at most `most` attempts to
-- submit what was simulated with success.
pub data IsUnconfirmed (most : ℕ) (before : List Event) : List Event → Type 0 where
  untouched : IsUnconfirmed most before before
  inspected : (tx : Transaction) (b : Bool) → IsUnconfirmed most before (simulated tx b ∷ before)
  sent : (tx : Transaction) (k : ℕ) → k ≤ most → IsUnconfirmed most before (attempts tx k before)

-- The indexer answered for the address with a row of the account that names the manager.
pub record IsOwned {W : Type 0} (relay : Relay W) (base : IntentBase) : Type 0 where
  pub rows : List UserProxy
  pub row : UserProxy
  pub world : W
  pub listed : (relay.fetch_accounts base.address 10 world).0 ≡ returned rows
  pub found : find_account base.account_id rows ≡ some row
  pub manages : is_manager base.predict_manager_id (nonblank row.predict_manager_id) ≡ true

-- How often an execution may be attempted.
abbrev pub tries : {W : Type 0} → Relay W → ℕ
tries relay = relay.sui.rpc_settings.max_retries

module _ {W : Type 0} (relay : Relay W) (before : List Event) where
  open relay use {sui}

  pub Same-IsUnconfirmed : (l : List Event) → Same before l → IsUnconfirmed (tries relay) before l
  Same-IsUnconfirmed l p = rw p untouched

  try_dev_inspect_log :
      (tx : Transaction)
      → Ensures
          (Same before)
          (try_dev_inspect sui tx)
          (λ r. Same (simulated tx (is_sim_ok r) ∷ before))
          (Same before)
  unfolding try_dev_inspect
  try_dev_inspect_log tx =
      bind_rule (λ r. Same before) (outside_rule _ (λ l p a. p) (λ l p. p))
        λ r.
          seq_rule (Same (simulated tx (is_sim_ok r) ∷ before)) (note_rule _ λ l p. rw p refl)
            (return_rule _ λ l p. p)

  abbrev Unanswered : Transaction → List Event → Type 0
  Unanswered tx l = (k : ℕ) × (k ≤ tries relay) × (l ≡ attempts tx k before)

  execute_log :
      (tx : Transaction)
      → Ensures
          (Same (simulated tx true ∷ before))
          (execute sui tx)
          (λ d. Confirmed (tries relay) tx d before)
          (Unanswered tx)
  unfolding execute submit_with_retries
  execute_log tx = reading_rule _ λ ready.
      branch_rule ready
        (λ e. record {
          holds = λ s p. replied (invoke (rpc_of sui tx) (rpc_state sui s)) (
              invoke_rule (rpc_of sui tx) (λ k s. s.log ≡ attempts tx k before)
                (λ d s. Confirmed (tries relay) tx d before s.log) (λ k ms s q. q)
                (λ endpoint k s h q.
                  attempted s.log k h q (sui.sign_and_execute endpoint tx s.world))
                (rpc_state sui s) p);
        })
        λ e. throw_rule _ λ l p. (0, omega arith, p)
    where
      attempted :
          (l : List Event) (k : ℕ)
          → k < tries relay
          → l ≡ attempts tx k before
          → (r : Outcome Text × W)
          → OnOutcome
              (λ d s. Confirmed (tries relay) tx d before s.log)
              (λ s. s.log ≡ attempts tx (suc k) before)
              (after_submission sui tx (submitted tx ∷ l) r).0
              (after_submission sui tx (submitted tx ∷ l) r).1
      attempted l k h q (answered d, w) = (k, h, ap (λ l. confirmed tx d ∷ submitted tx ∷ l) q)
      attempted l k h q (failed_with err, w) = ap (λ l. submitted tx ∷ l) q

      replied :
          (r : Invoked Text × State (Session W))
          → OnInvoked
              (λ d s. Confirmed (tries relay) tx d before s.log)
              (AtMost (tries relay) (λ k s. s.log ≡ attempts tx k before))
              r
          → Post (λ d. Confirmed (tries relay) tx d before) (Unanswered tx) (reply_of sui r)
      replied (resolved d, st) q = q
      replied (rejected (some err), st) q = q
      replied (rejected none, st) q = q

  execute_simulated_rule :
      (tx : Transaction) (auth : Option Text) (sim : Simulation)
      → Ensures
          (Same (simulated tx (is_sim_ok sim) ∷ before))
          (execute_simulated relay tx auth sim)
          (OnServed
            (λ r. Confirmed (tries relay) tx r.digest before)
            (IsUnconfirmed (tries relay) before))
          (IsUnconfirmed (tries relay) before)
  unfolding execute_simulated
  execute_simulated_rule tx auth (sim_failed e) = return_rule _ λ l p. rw p (inspected tx false)
  execute_simulated_rule tx auth sim_ok =
      catch_rule (Unanswered tx)
        (bind_rule (λ d. Confirmed (tries relay) tx d before) (execute_log tx)
          λ d. return_rule _ λ l p. p)
        λ e. return_rule _ λ l (k, h, p). rw p (sent tx k h)

  pub serialise_log :
      (tx : Transaction) (o : Option String)
      → Ensures {W = W}
          (Same before)
          (serialise tx o)
          (λ tx' l. Same before l × (tx' ≡ tx))
          (Same before)
  serialise_log tx none = return_rule _ λ l p. (p, refl)
  serialise_log tx (some e) = throw_rule _ λ l p. p

  simulate_and_execute_rule :
      (tx : Transaction) (auth : Option Text)
      → Ensures
          (Same before)
          (simulate_and_execute relay tx auth)
          (OnServed
            (λ r. Confirmed (tries relay) tx r.digest before)
            (IsUnconfirmed (tries relay) before))
          (IsUnconfirmed (tries relay) before)
  unfolding simulate_and_execute
  simulate_and_execute_rule tx auth =
      bind_rule (λ r. Same (simulated tx (is_sim_ok r) ∷ before))
        (weaken_rule (λ l p. p) (λ a l p. p) Same-IsUnconfirmed (try_dev_inspect_log tx))
        λ r. execute_simulated_rule tx auth r

  -- What is confirmed is the transaction for the configuration of that moment.
  pub submit_rule :
      (build : KeeperConfig → Transaction) (auth : Option Text)
      → Ensures
          (Same before)
          (submit relay build auth)
          (OnServed
            (λ r l. (cfg : KeeperConfig) × Confirmed (tries relay) (build cfg) r.digest before l)
            (IsUnconfirmed (tries relay) before))
          (IsUnconfirmed (tries relay) before)
  unfolding submit transaction
  submit_rule build auth = reading_rule _ λ cfg.
      bind_rule (λ tx l. Same before l × (tx ≡ build cfg))
        (weaken_rule (λ l p. p) (λ a l p. p) Same-IsUnconfirmed (serialise_log (build cfg) _))
        λ tx.
          assume_rule (λ l p. p.1)
            λ e.
              serve_weaken_rule (λ l p. p.0)
                (λ r l p. (cfg, subst (λ t. Confirmed (tries relay) t r.digest before l) e p))
                (λ l p. p) (λ l p. p) (simulate_and_execute_rule tx auth)

  pub assert_relay_ready_rule :
      Ensures
        (Same before)
        (assert_relay_ready relay)
        (OnServed (λ u. Same before) (Same before))
        (Same before)
  unfolding assert_relay_ready
  assert_relay_ready_rule = reading_rule _ λ readiness.
      branch_rule _ (λ e. return_rule _ λ l p. p)
        λ e. reading_rule _ λ signer.
          reading_rule _
            λ keeper. branch_rule _ (λ e. return_rule _ λ l p. p) λ e. return_rule _ λ l p. p

  pub assert_account_ownership_rule :
      (base : IntentBase)
      → Ensures
          (Same before)
          (assert_account_ownership relay base)
          (OnServed (λ u l. Same before l × IsOwned relay base) (Same before))
          (Same before)
  unfolding assert_account_ownership
  assert_account_ownership_rule base = bind_rule _ (outside_result_rule _) λ rows.
      assume_rule (λ l p. p.1)
        λ (w, listed).
          weaken_rule (λ l p. p.0) (λ a l p. p) (λ l p. p)
            (owned rows w listed (find_account base.account_id rows) refl)
    where
      managed :
          (rows : List UserProxy) (row : UserProxy) (w : W)
          → (relay.fetch_accounts base.address 10 w).0 ≡ returned rows
          → find_account base.account_id rows ≡ some row
          → (b : Bool) → is_manager base.predict_manager_id (nonblank row.predict_manager_id) ≡ b
          → Ensures {W = W}
              (Same before)
              (Effects.return (
                if b
                then served tt
                else Relay.rejected (forbidden (text "predict_manager_mismatch"))))
              (OnServed (λ u l. Same before l × IsOwned relay base) (Same before))
              (Same before)
      managed rows row w listed found true manages = return_rule _ λ l p. (
        p,
        record {
          rows = rows;
          row = row;
          world = w;
          listed = listed;
          found = found;
          manages = manages;
        },
      )
      managed rows row w listed found false manages = return_rule _ λ l p. p

      owned :
          (rows : List UserProxy) (w : W)
          → (relay.fetch_accounts base.address 10 w).0 ≡ returned rows
          → (o : Option UserProxy) → find_account base.account_id rows ≡ o
          → Ensures {W = W}
              (Same before)
              (Effects.return (owned_account base o))
              (OnServed (λ u l. Same before l × IsOwned relay base) (Same before))
              (Same before)
      owned rows w listed none found = return_rule _ λ l p. p
      owned rows w listed (some row) found = managed rows row w listed found _ refl
