-- ===== src/Keeper/Sui/Guard.antt =====
-- keeper/src/sui/sui.service.ts: the discipline of simulating before submitting, over the log.
use Prim.Native.String.{String}
use leverx.Prelude.{◌≡◌, refl, ap, Bool, true, List, [], ◌∷◌, ◌++◌, Option, none, some}
use leverx.Prelude.Texts.{Text}
use leverx.Keeper.Ptb.{Transaction, Built, built, invalid_u64, unsafe_u64}
use leverx.Keeper.RpcFailover.{
  Outcome, answered, failed_with, State, Invoked, resolved, rejected, invoke,
}
use leverx.Keeper.RpcFailover.Rules.{OnOutcome, AtMost, OnInvoked, invoke_rule}
use leverx.Keeper.Effects.{Session, Event, simulated, submitted, confirmed}
use leverx.Keeper.Effects.Rules.{
  Post, Ensures, reading_rule, branch_rule, bind_rule, seq_rule, outside_rule, note_rule,
  return_rule, throw_rule,
}
use leverx.Keeper.Sui.{
  Sui, is_sim_ok, serialise, transaction, try_dev_inspect, dev_inspect, after_submission, rpc_of,
  rpc_state, reply_of, submit_with_retries, execute,
}

-- The latest event is a successful simulation of the transaction.
abbrev pub Simulated : Transaction → List Event → Type 0
Simulated tx [] = ⊥
Simulated tx (simulated t b ∷ l) = (t ≡ tx) × (b ≡ true)
Simulated tx (submitted t ∷ l) = ⊥
Simulated tx (confirmed t d ∷ l) = ⊥

-- A successful simulation of the transaction, and since then nothing but attempts to submit it, none of
-- which is confirmed.
abbrev pub Attempted : Transaction → List Event → Type 0
Attempted tx [] = ⊥
Attempted tx (simulated t b ∷ l) = (t ≡ tx) × (b ≡ true)
Attempted tx (submitted t ∷ l) = (t ≡ tx) × Attempted tx l
Attempted tx (confirmed t d ∷ l) = ⊥

-- The latest event is the submission of the transaction.
abbrev pub Submitted : Transaction → List Event → Type 0
Submitted tx [] = ⊥
Submitted tx (simulated t b ∷ l) = ⊥
Submitted tx (submitted t ∷ l) = t ≡ tx
Submitted tx (confirmed t d ∷ l) = ⊥

-- Each submission follows a successful simulation of the same transaction, with nothing between the two
-- but unconfirmed attempts to submit it; each confirmation follows its submission at once.
abbrev pub IsGuarded : List Event → Type 0
IsGuarded [] = Unit
IsGuarded (simulated t b ∷ l) = IsGuarded l
IsGuarded (submitted t ∷ l) = Attempted t l × IsGuarded l
IsGuarded (confirmed t d ∷ l) = Submitted t l × IsGuarded l

-- The digests that the node confirmed, in their order.
abbrev pub confirmations : List Event → List Text
confirmations [] = []
confirmations (simulated t b ∷ l) = confirmations l
confirmations (submitted t ∷ l) = confirmations l
confirmations (confirmed t d ∷ l) = confirmations l ++ (d ∷ [])

-- A guarded log that confirms these digests.
pub record Confirms (ds : List Text) (l : List Event) : Type 0 where
  pub guarded : IsGuarded l
  pub digests : confirmations l ≡ ds

-- A guarded log that confirms these digests, and maybe later ones.
pub record Extends (ds : List Text) (l : List Event) : Type 0 where
  pub guarded : IsGuarded l
  pub later : List Text
  pub digests : confirmations l ≡ ds ++ later

pub Confirms-Extends :
    (ds later : List Text) (l : List Event) → Confirms (ds ++ later) l → Extends ds l
Confirms-Extends ds later l p = record { guarded = p.guarded; later = later; digests = p.digests }

-- These digests, and the transaction is ready to be submitted if the simulation says so.
pub record Inspected (ds : List Text) (tx : Transaction) (ready : Bool) (l : List Event)
    : Type 0 where
  pub counts : Confirms ds l
  pub simulation : ready ≡ true → Simulated tx l

Simulated-Attempted : (tx : Transaction) (l : List Event) → Simulated tx l → Attempted tx l
Simulated-Attempted tx [] p = p
Simulated-Attempted tx (simulated t b ∷ l) p = p
Simulated-Attempted tx (submitted t ∷ l) p = absurd p
Simulated-Attempted tx (confirmed t d ∷ l) p = absurd p

serialise_rule :
    {W : Type 0} (ds : List Text) (tx : Transaction) (o : Option String)
    → Ensures {W = W} (Confirms ds) (serialise tx o) (λ tx'. Confirms ds) (Confirms ds)
serialise_rule ds tx none = return_rule _ λ l p. p
serialise_rule ds tx (some e) = throw_rule _ λ l p. p

module _ {W : Type 0} (sui : Sui W) where
  pub transaction_rule :
      (ds : List Text) (b : Built Transaction)
      → Ensures (Confirms ds) (transaction sui b) (λ tx. Confirms ds) (Confirms ds)
  unfolding transaction
  transaction_rule ds (built tx) = serialise_rule ds tx (sui.refuses tx)
  transaction_rule ds (invalid_u64 label) = throw_rule _ λ l p. p
  transaction_rule ds (unsafe_u64 label) = throw_rule _ λ l p. p

  pub try_dev_inspect_rule :
      (ds : List Text) (tx : Transaction)
      → Ensures
          (Confirms ds)
          (try_dev_inspect sui tx)
          (λ r. Inspected ds tx (is_sim_ok r))
          (Confirms ds)
  unfolding try_dev_inspect
  try_dev_inspect_rule ds tx =
      bind_rule (λ r. Confirms ds) (outside_rule _ (λ l p a. p) (λ l p. p))
        λ r.
          seq_rule (Inspected ds tx (is_sim_ok r))
            (note_rule _ λ l p. record {
              counts = record { guarded = p.guarded; digests = p.digests };
              simulation = λ e. (refl, e);
            })
            (return_rule _ λ l p. p)

  pub dev_inspect_rule :
      (ds : List Text) (tx : Transaction)
      → Ensures (Confirms ds) (dev_inspect sui tx) (λ ready. Inspected ds tx ready) (Confirms ds)
  unfolding dev_inspect
  dev_inspect_rule ds tx =
      bind_rule (λ r. Inspected ds tx (is_sim_ok r)) (try_dev_inspect_rule ds tx)
        λ r. return_rule _ λ l p. p

  -- A submission that the simulation allows resolves with a digest that is confirmed, or rejects with
  -- nothing confirmed.
  pub execute_rule :
      (ds : List Text) (tx : Transaction)
      → Ensures
          (Inspected ds tx true)
          (execute sui tx)
          (λ d. Confirms (ds ++ (d ∷ [])))
          (Confirms ds)
  unfolding execute submit_with_retries
  execute_rule ds tx = reading_rule _ λ ready.
      branch_rule ready
        (λ e. record {
          holds = λ s p. replied (invoke (rpc_of sui tx) (rpc_state sui s)) (
              invoke_rule (rpc_of sui tx) (λ k. Ready) Done (λ k ms s q. q)
                (λ endpoint k s h q. attempted s.log q (sui.sign_and_execute endpoint tx s.world))
                (rpc_state sui s) (p.counts, Simulated-Attempted tx s.log (p.simulation refl)));
        })
        λ e. throw_rule _ λ l p. p.counts
    where
      Ready : Session W → Type 0
      Ready s = Confirms ds s.log × Attempted tx s.log

      Done : Text → Session W → Type 0
      Done d s = Confirms (ds ++ (d ∷ [])) s.log

      attempted :
          (l : List Event)
          → Confirms ds l × Attempted tx l
          → (r : Outcome Text × W)
          → OnOutcome Done Ready
              (after_submission sui tx (submitted tx ∷ l) r).0
              (after_submission sui tx (submitted tx ∷ l) r).1
      attempted l (p, q) (answered d, w) = record {
        guarded = (refl, (q, p.guarded));
        digests = ap (λ ds. ds ++ (d ∷ [])) p.digests;
      }
      attempted l (p, q) (failed_with err, w) =
          (record { guarded = (q, p.guarded); digests = p.digests }, (refl, q))

      replied :
          (r : Invoked Text × State (Session W))
          → OnInvoked Done (AtMost sui.rpc_settings.max_retries (λ k. Ready)) r
          → Post (λ d. Confirms (ds ++ (d ∷ []))) (Confirms ds) (reply_of sui r)
      replied (resolved d, st) q = q
      replied (rejected (some err), st) (k, h, q) = q.0
      replied (rejected none, st) (k, h, q) = q.0
