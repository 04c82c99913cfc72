-- ===== src/Keeper/Tasks/Submit.antt =====
-- keeper/src/tasks: the accounting of one submission.
use Prim.Native.String.{String}
use leverx.Prelude.{ℕ, ◌≤◌, ◌≡◌, false, Option, none, some, List, [], ◌∷◌, ◌++◌, sym, ◌∙◌, arith}
use mathlib.Core.List.{append-nil, append_assoc}
use leverx.Prelude.Tests.{leb}
use leverx.Keeper.Types.{Text, TaskResult}
use leverx.Keeper.Ptb.{Transaction}
use leverx.Keeper.Effects.{Event, M}
use leverx.Keeper.Effects.Rules.{Ensures, bind_rule, return_rule, weaken_rule}
use leverx.Keeper.Sui.{Sui, Simulation, sim_ok, sim_failed, is_sim_ok}
use leverx.Keeper.Sui.Guard.{Confirms, Inspected, execute_rule}
use leverx.Keeper.Tasks.{execute_if_ok}
use leverx.Keeper.Tasks.Results.{
  gained, push, successes, successes-push, reported_digests, gained_digests, reported_digests-push,
}

-- If the failure path establishes Q, and Q holds of the report once one more transaction is confirmed,
-- then the whole establishes Q.
pub execute_if_ok_rule :
    {W A : Type 0} (sui : Sui W) (ds : List Text) (tx : Transaction) (sim : Simulation)
    {on_failure : String → M W A} {report : Text → A} {Q : A → List Event → Type 0}
    → ((e : String) → Ensures (Confirms ds) (on_failure e) Q (Confirms ds))
    → ((d : Text) (l : List Event) → Confirms (ds ++ (d ∷ [])) l → Q (report d) l)
    → Ensures
        (Inspected ds tx (is_sim_ok sim))
        (execute_if_ok sui tx sim on_failure report)
        Q
        (Confirms ds)
unfolding execute_if_ok
execute_if_ok_rule sui ds tx (sim_failed e) fails gains =
    weaken_rule (λ l p. p.counts) (λ a l p. p) (λ l p. p) (fails e)
execute_if_ok_rule sui ds tx sim_ok fails gains =
    bind_rule (λ d. Confirms (ds ++ (d ∷ []))) (execute_rule sui ds tx)
      λ d. return_rule _ λ l p. gains d l p

-- The same log, with the digests written in another way.
pub recount : {m ds : List Text} (l : List Event) → m ≡ ds → Confirms m l → Confirms ds l
recount l e p = record { guarded = p.guarded; digests = p.digests ∙ e }

-- An attempt that reports no success confirms nothing.
pub no_gain : (ds : List Text) (l : List Event) → Confirms ds l → Confirms (ds ++ []) l
no_gain ds l p = recount l (sym (append-nil ds)) p

-- The digests after one more attempt.
pub pushed_digests :
    (ds : List Text) (rs : List TaskResult) (o : Option TaskResult)
    → (ds ++ reported_digests rs) ++ gained_digests o ≡ ds ++ reported_digests (push rs o)
pushed_digests ds rs o =
    rw (reported_digests-push rs o) (append_assoc ds (reported_digests rs) (gained_digests o))

-- The results of a run of at most `limit` successes. The digests that were confirmed after `ds` are
-- exactly those of the successful results, in their order.
pub record Accounted (ds : List Text) (limit : ℕ) (rs : List TaskResult) (l : List Event)
    : Type 0 where
  pub counts : Confirms (ds ++ reported_digests rs) l
  pub bounded : successes rs ≤ limit

gained-le-one : (o : Option TaskResult) → gained o ≤ 1
gained-le-one none = omega arith
gained-le-one (some r) = ground arith

-- One attempt after `results`, if the limit is not reached yet.
pub push_rule :
    {W : Type 0} (ds : List Text) (limit : ℕ) (results : List TaskResult)
    {m : M W (Option TaskResult)}
    → leb limit (successes results) ≡ false
    → ((k : List Text) → Ensures (Confirms k) m (λ r. Confirms (k ++ gained_digests r)) (λ l. ⊥))
    → Ensures (Accounted ds limit results) m (λ r. Accounted ds limit (push results r)) (λ l. ⊥)
push_rule ds limit results below attempt =
    weaken_rule (λ l p. p.counts) (λ r l p. pushed r l p) (λ l p. p)
      (attempt (ds ++ reported_digests results))
  where
    pushed :
        (r : Option TaskResult) (l : List Event)
        → Confirms ((ds ++ reported_digests results) ++ gained_digests r) l
        → Accounted ds limit (push results r) l
    pushed r l p = record {
      counts = recount l (pushed_digests ds results r) p;
      bounded = ground (arith, gained-le-one r, successes-push results r, below);
    }

pub none-Accounted :
    (ds : List Text) (limit : ℕ) (rs : List TaskResult) (l : List Event)
    → successes rs ≡ 0
    → reported_digests rs ≡ []
    → Confirms ds l
    → Accounted ds limit rs l
none-Accounted ds limit rs l e none_reported p = record {
  counts = rw none_reported (no_gain ds l p);
  bounded = omega (arith, e);
}
