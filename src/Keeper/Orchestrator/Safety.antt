-- ===== src/Keeper/Orchestrator/Safety.antt =====
-- keeper/src/tasks/keeper-orchestrator.service.ts: what a run submits and reports.
use leverx.Prelude.{
  ℕ, ◌+◌, ◌*◌, ◌≤◌, ◌≡◌, refl, Bool, true, false, not, List, [], ◌∷◌, ◌++◌, ◌∙◌, ap, arith,
}
use mathlib.Core.List.{append-nil, append_assoc}
use leverx.Keeper.Types.{Text, TaskResult, logged}
use leverx.Keeper.Effects.{Reply, returned, thrown, Event, M, Session, return}
use leverx.Keeper.Effects.Rules.{
  Post, Ensures, bind_rule, seq_rule, catch_rule, outside_rule, return_rule, reading_rule,
  weaken_rule, branch_rule,
}
use leverx.Keeper.Sui.Guard.{Confirms, Confirms-Extends, Extends, IsGuarded, confirmations}
use leverx.Keeper.Tasks.Results.{
  successes, successes-append, reported_digests, reported_digests-append,
}
use leverx.Keeper.Tasks.LimitOrders.{run}
use leverx.Keeper.Tasks.Liquidations.{run_liquidations}
use leverx.Keeper.Tasks.ForceCloses.{run_force_closes}
use leverx.Keeper.Tasks.LimitOrders.Safety.{Reported}
use leverx.Keeper.Tasks.Submit.{Accounted, no_gain}
use leverx.Keeper.Tasks.LimitOrders.Safety as LimitOrdersSafety
use leverx.Keeper.Tasks.Triggers.Safety as TriggersSafety
use leverx.Keeper.Tasks.Liquidations.Safety as LiquidationsSafety
use leverx.Keeper.Tasks.ForceCloses.Safety as ForceClosesSafety
use leverx.Keeper.Orchestrator.{
  KeeperTaskKind, limit_order, liquidation, trigger, force_close, all, PerKind, includes, collect,
  run_failure, phase, phase_if, when_paused, Orchestrator, refresh, run_trigger_phase, run_tasks,
  notify_results, run_kind,
}

-- The first digests stand among the others, in the same order and as often.
pub data Within : List Text → List Text → Type 0 where
  done : Within [] []
  keep : {xs ys : List Text} → (x : Text) → Within xs ys → Within (x ∷ xs) (x ∷ ys)
  skip : {xs ys : List Text} → (y : Text) → Within xs ys → Within xs (y ∷ ys)

none-Within : (ys : List Text) → Within [] ys
none-Within [] = done
none-Within (y ∷ ys) = skip y (none-Within ys)

all-Within : (xs : List Text) → Within xs xs
all-Within [] = done
all-Within (x ∷ xs) = keep x (all-Within xs)

append-Within :
    {xs ys us vs : List Text} → Within xs ys → Within us vs → Within (xs ++ us) (ys ++ vs)
append-Within done q = q
append-Within (keep x p) q = keep x (append-Within p q)
append-Within (skip y p) q = skip y (append-Within p q)

-- Results of a guarded run: at most `most` successes, whose digests are, in their order, among those that
-- were confirmed after `ds`.
pub record Honest (ds : List Text) (most : ℕ) (rs : List TaskResult) (l : List Event) : Type 0 where
  pub guarded : IsGuarded l
  pub later : List Text
  pub digests : confirmations l ≡ ds ++ later
  pub confirmed : Within (reported_digests rs) later
  pub bounded : successes rs ≤ most

-- Digests that go on after others.
joined :
    {now m : List Text} (ds later more : List Text)
    → m ≡ ds ++ later
    → now ≡ m ++ more
    → now ≡ ds ++ (later ++ more)
joined ds later more before after_ =
    after_ ∙ ap (λ t. t ++ more) before ∙ append_assoc ds later more

both-Within :
    (results rs : List TaskResult) {later more : List Text}
    → Within (reported_digests results) later
    → Within (reported_digests rs) more
    → Within (reported_digests (results ++ rs)) (later ++ more)
both-Within results rs p q = rw (reported_digests-append results rs) (append-Within p q)

module _ {W : Type 0} (ds : List Text) where
  -- The next phase, from any confirmations: it adds at most `more` successes.
  module _ (kind : KeeperTaskKind) (results : List TaskResult) {task : M W (List TaskResult)}
      {go_on : List TaskResult → M W (List TaskResult)} (k more next most : ℕ)
      (task_honest : (m : List Text) → Ensures (Confirms m) task (Honest m more) (Extends m))
      (rest : (rs : List TaskResult)
        → Ensures (Honest ds next rs) (go_on rs) (Honest ds most) (λ l. ⊥))
      (adds : k + more ≡ next) (fits : k ≤ most) where
    after :
        (m later : List Text) (r : Reply (List TaskResult) × Session W)
        → m ≡ ds ++ later
        → Within (reported_digests results) later
        → successes results ≤ k
        → Post (Honest m more) (Extends m) r
        → Post (Honest ds most) (λ l. ⊥) (collect kind results go_on r)
    unfolding return
    after m later (returned rs, s) e h b p = (rest (results ++ rs)).holds s (record {
      guarded = p.guarded;
      later = later ++ p.later;
      digests = joined ds later p.later e p.digests;
      confirmed = both-Within results rs h p.confirmed;
      bounded = omega (arith, b, adds, p.bounded, successes-append results rs);
    })
    after m later (thrown err, s) e h b p = record {
      guarded = p.guarded;
      later = later ++ p.later;
      digests = joined ds later p.later e p.digests;
      confirmed =
          both-Within results (run_failure kind (logged "keeper run failed" [] err) ∷ []) h
            (none-Within p.later);
      bounded = omega (
        arith,
        b,
        fits,
        successes-append results (run_failure kind (logged "keeper run failed" [] err) ∷ []),
      );
    }

    phase_rule :
        Ensures (Honest ds k results) (phase kind results task go_on) (Honest ds most) (λ l. ⊥)
    unfolding phase
    phase_rule = record {
      holds = λ s p.
          after (confirmations s.log) p.later (task s) p.digests p.confirmed p.bounded
            ((task_honest _).holds s (record { guarded = p.guarded; digests = refl }));
    }

    phase_if_rule :
        (wanted : Bool)
        → Ensures
            (Honest ds k results)
            (phase_if wanted kind results task go_on)
            (Honest ds most)
            (λ l. ⊥)
    unfolding phase_if
    phase_if_rule wanted =
        branch_rule wanted (λ e. phase_rule)
          λ e.
            weaken_rule
              (λ l p. record {
                guarded = p.guarded;
                later = p.later;
                digests = p.digests;
                confirmed = p.confirmed;
                bounded = omega (arith, p.bounded, adds);
              })
              (λ rs l p. p) (λ l p. p) (rest results)

honest :
    (m : List Text) (limit : ℕ) (rs : List TaskResult) (l : List Event)
    → Accounted m limit rs l
    → Honest m limit rs l
honest m limit rs l p = record {
  guarded = p.counts.guarded;
  later = reported_digests rs;
  digests = p.counts.digests;
  confirmed = all-Within (reported_digests rs);
  bounded = p.bounded;
}

none_lost : (m : List Text) (l : List Event) → Confirms m l → Extends m l
none_lost m l p = Confirms-Extends m [] l (no_gain m l p)

-- Nothing is reported yet.
nothing_yet :
    (m : List Text) (most : ℕ) (rs : List TaskResult) (l : List Event)
    → successes rs ≡ 0
    → reported_digests rs ≡ []
    → Confirms m l
    → Honest m most rs l
nothing_yet m most rs l none_won none_reported p = record {
  guarded = p.guarded;
  later = [];
  digests = (no_gain m l p).digests;
  confirmed = rw none_reported done;
  bounded = omega (arith, none_won);
}

reported_digests-when_paused :
    (kind : KeeperTaskKind) (rs : List TaskResult)
    → reported_digests (when_paused kind rs) ≡ reported_digests rs
reported_digests-when_paused limit_order rs = refl
reported_digests-when_paused liquidation rs = refl
reported_digests-when_paused trigger rs =
    reported_digests-append rs _ ∙ append-nil (reported_digests rs)
reported_digests-when_paused force_close rs = refl
reported_digests-when_paused all rs = refl

successes-when_paused :
    (kind : KeeperTaskKind) (rs : List TaskResult) → successes (when_paused kind rs) ≡ successes rs
successes-when_paused limit_order rs = refl
successes-when_paused liquidation rs = refl
successes-when_paused trigger rs = omega (arith, successes-append rs _)
successes-when_paused force_close rs = refl
successes-when_paused all rs = refl

module _ {W : Type 0} (o : Orchestrator W) where
  open o use {services, limits}

  abbrev before_triggers : ℕ
  before_triggers = limits.limit_fills * 2 + limits.liquidations + limits.force_closes

  -- The successes that one run may have.
  abbrev pub most_successes : ℕ
  most_successes = before_triggers + limits.triggers

  refresh_rule : (m : List Text) → Ensures (Confirms m) (refresh o) (Honest m 0) (Extends m)
  unfolding refresh
  refresh_rule m =
      seq_rule (Confirms m) (outside_rule _ (λ l p a. p) (λ l p. none_lost m l p))
        (return_rule _ λ l p. nothing_yet m 0 [] l refl refl p)

  limit_orders_rule :
      (allow : Bool) (m : List Text)
      → Ensures
          (Confirms m)
          (run services limits.limit_fills allow)
          (Honest m (limits.limit_fills * 2))
          (Extends m)
  limit_orders_rule allow m =
      weaken_rule (λ l p. p)
        (λ rs l p. record {
          guarded = p.counts.guarded;
          later = reported_digests rs;
          digests = p.counts.digests;
          confirmed = all-Within (reported_digests rs);
          bounded = omega (arith, p.fills_bounded, p.expiries_bounded);
        })
        (λ l p. p) (LimitOrdersSafety.run_rule services m limits.limit_fills allow)

  trigger_phase_rule :
      (ds : List Text) (kind : KeeperTaskKind) (paused : Bool) (rs : List TaskResult)
      → Ensures
          (Honest ds before_triggers rs)
          (run_trigger_phase o kind paused rs)
          (Honest ds most_successes)
          (λ l. ⊥)
  unfolding run_trigger_phase
  trigger_phase_rule ds kind true rs = return_rule _ λ l p. record {
    guarded = p.guarded;
    later = p.later;
    digests = p.digests;
    confirmed = rw (reported_digests-when_paused kind rs) p.confirmed;
    bounded = omega (arith, p.bounded, successes-when_paused kind rs);
  }
  trigger_phase_rule ds kind false rs =
      phase_if_rule ds kind rs before_triggers limits.triggers most_successes most_successes
        (λ m.
          weaken_rule (λ l p. p) (λ rs l p. honest m _ rs l p) (λ l p. none_lost m l p)
            (TriggersSafety.run_rule services m limits.triggers))
        (λ rs. return_rule _ λ l p. p) refl (omega arith) (includes kind trigger)

  run_tasks_rule :
      (kind : KeeperTaskKind) (ds : List Text)
      → Ensures (Confirms ds) (run_tasks o kind) (Honest ds most_successes) (λ l. ⊥)
  unfolding run_tasks
  run_tasks_rule kind ds =
      weaken_rule (λ l p. nothing_yet ds 0 [] l refl refl p) (λ rs l p. p) (λ l p. p)
        (phase_rule ds kind [] 0 0 0 most_successes refresh_rule
          (λ r₀. reading_rule _ λ paused.
            phase_if_rule ds kind r₀ 0 (limits.limit_fills * 2) (limits.limit_fills * 2)
              most_successes (limit_orders_rule (not paused))
              (λ r₁.
                phase_if_rule ds kind r₁ (limits.limit_fills * 2) limits.liquidations
                  (limits.limit_fills * 2 + limits.liquidations) most_successes liquidations_rule
                  (λ r₂.
                    phase_if_rule ds kind r₂ (limits.limit_fills * 2 + limits.liquidations)
                      limits.force_closes before_triggers most_successes force_closes_rule
                      (λ r₃. trigger_phase_rule ds kind paused r₃) (omega arith) (omega arith)
                      (includes kind force_close))
                  (omega arith) (omega arith) (includes kind liquidation))
              (omega arith) (omega arith) (includes kind limit_order))
          (omega arith) (omega arith))
    where
      liquidations_rule :
          (m : List Text)
          → Ensures
              (Confirms m)
              (run_liquidations services limits.liquidations)
              (Honest m limits.liquidations)
              (Extends m)
      liquidations_rule m =
          weaken_rule (λ l p. p) (λ rs l p. honest m _ rs l p) (λ l p. none_lost m l p)
            (LiquidationsSafety.run_rule services m limits.liquidations)

      force_closes_rule :
          (m : List Text)
          → Ensures
              (Confirms m)
              (run_force_closes services limits.force_closes)
              (Honest m limits.force_closes)
              (Extends m)
      force_closes_rule m =
          weaken_rule (λ l p. p) (λ rs l p. honest m _ rs l p) (λ l p. p)
            (ForceClosesSafety.run_rule services m limits.force_closes)

  run_kind_rule :
      (kind : KeeperTaskKind) (running : PerKind Bool) (ds : List Text)
      → Ensures (Confirms ds) (run_kind o kind running) (Honest ds most_successes) (λ l. ⊥)
  unfolding run_kind notify_results
  run_kind_rule kind running ds =
      branch_rule _ (λ e. return_rule _ λ l p. nothing_yet ds _ _ l refl refl p)
        λ e. bind_rule (Honest ds most_successes) (run_tasks_rule kind ds) λ rs.
          seq_rule (Honest ds most_successes rs)
            (branch_rule _
              (λ f.
                catch_rule (Honest ds most_successes rs) (outside_rule _ (λ l p a. p) (λ l p. p))
                  λ err. return_rule _ λ l p. p)
              λ f. return_rule _ λ l p. p)
            (return_rule _ λ l p. p)

  -- A run of the orchestrator never rejects, whichever of its tasks, reads or submissions fail. From a
  -- guarded log it keeps it guarded: each submission follows a successful simulation of the same
  -- transaction, with nothing between the two but unconfirmed attempts to submit it. The digests of the
  -- successes that it reports are, in their order, among those that the node confirmed during the run, and
  -- there are at most two per limit order of its limit and one per unit of the other limits.
  pub run_kind-Honest :
      (kind : KeeperTaskKind) (running : PerKind Bool) (s : Session W)
      → IsGuarded s.log
      → Post (Honest (confirmations s.log) most_successes) (λ l. ⊥) (run_kind o kind running s)
  run_kind-Honest kind running s guarded =
      (run_kind_rule kind running (confirmations s.log)).holds s
        (record { guarded = guarded; digests = refl })
