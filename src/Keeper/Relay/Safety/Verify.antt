-- ===== src/Keeper/Relay/Safety/Verify.antt =====
-- `verifyTradeRequest`: an intent that passes is authorised, and nothing was simulated or submitted.
use leverx.Prelude.{
  ℕ, ◌≡◌, refl, sym, subst, ◌∙◌, Bool, true, false, List, Option, none, some, inl, inr,
}
use leverx.Prelude.Tests.{Bool-cases}
use leverx.Prelude.Texts.{Text}
use leverx.Keeper.Effects.{Event, M, Reply, returned, Session}
use leverx.Keeper.Effects
use leverx.Keeper.Effects.Rules.{
  Post, Post-then_, Post-weaken, reading_result_rule, Ensures, bind_rule, return_rule, catch_rule,
  reading_rule, outside_rule, outside_result_rule, weaken_rule, assume_rule,
}
use leverx.Keeper.Replay.{Store, is_replayed}
use leverx.Keeper.Relay.{
  Served, served, rejected, AppAuthPayload, AuthMethod, IntentKind, parse_intent_message,
  read_signed, nonblank, intent_replay_key,
}
use leverx.Keeper.Relay.Auth.{
  Relay, S, ◌>>=◌, token_for, serve_next, check_token, verify_signed_intent, resolve_with,
  resolve_intent_auth, first_of, assert_intent_not_replayed, mark_intent_used, verify_checked,
  verify_trade_request, as_bad_request,
}
use leverx.Keeper.Relay.Auth.Sound.{
  IsAuthorised, Served-cases, parse_intent_message_sound, read_signed_sound,
}
use leverx.Keeper.Relay.Safety.{OnServed, serve_next_rule, serve_rule}

abbrev pub Same : List Event → List Event → Type 0
Same before l = l ≡ before

as_bad_request_sound :
    {A : Type 0} (v : Served A) (a : A) → as_bad_request v ≡ served a → v ≡ served a
as_bad_request_sound (served b) a h = cc
as_bad_request_sound (rejected r) a h = cc

-- As Ensures, from a state whose clock shows the time.
pub record EnsuresAt {W A : Type 0} (relay : Relay W) (now : ℕ) (P : List Event → Type 0)
    (m : M W A) (Q : A → List Event → Type 0) (E : List Event → Type 0) : Type 0 where
  pub holds : (s : Session W) → relay.sui.now s.world ≡ now → P s.log → Post Q E (m s)

module _ {W : Type 0} (relay : Relay W) (now : ℕ) where
  -- Code that reads the clock first reads that time.
  clock_rule :
      {A : Type 0} {P E : List Event → Type 0} {Q : A → List Event → Type 0} (k : ℕ → M W A)
      → Ensures P (k now) Q E
      → EnsuresAt relay now P (Effects.reading relay.sui.now k) Q E
  unfolding Effects.reading
  clock_rule {P = P} {E = E} {Q = Q} k h = record {
    holds = λ s e p. (subst (λ n. Ensures P (k n) Q E) (sym e) h).holds s p;
  }

  bind_at_rule :
      {A B : Type 0} {P E : List Event → Type 0} (R : A → List Event → Type 0)
      {Q : B → List Event → Type 0} {m : M W A} {f : A → M W B}
      → EnsuresAt relay now P m R E
      → ((a : A) → Ensures (R a) (f a) Q E)
      → EnsuresAt relay now P (Effects.◌>>=◌ m f) Q E
  unfolding Effects.◌>>=◌
  bind_at_rule {E = E} R {Q = Q} {m = m} {f = f} h k = record {
    holds = λ s e p. Post-then_ R Q E f k (m s) (h.holds s e p);
  }

  pub weaken_at_rule :
      {A : Type 0} {P E F : List Event → Type 0} {Q R : A → List Event → Type 0} {m : M W A}
      → ((a : A) (l : List Event) → Q a l → R a l)
      → ((l : List Event) → E l → F l)
      → EnsuresAt relay now P m Q E
      → EnsuresAt relay now P m R F
  weaken_at_rule {E = E} {F = F} {Q = Q} {R = R} {m = m} q f h = record {
    holds = λ s e p. Post-weaken Q R E F q f (m s) (h.holds s e p);
  }

  pub serve_at_rule :
      {A B : Type 0} {P E F : List Event → Type 0} (R : A → List Event → Type 0)
      {Q : B → List Event → Type 0} {m : S W A} {f : A → S W B}
      → EnsuresAt relay now P m (OnServed R F) E
      → ((a : A) → Ensures (R a) (f a) (OnServed Q F) E)
      → EnsuresAt relay now P (m >>= f) (OnServed Q F) E
  unfolding ◌>>=◌
  serve_at_rule {A = A} {E = E} {F = F} R {Q = Q} {f = f} h k = bind_at_rule (OnServed R F) h after
    where
      after : (v : Served A) → Ensures (OnServed R F v) (serve_next f v) (OnServed Q F) E
      after (served a) = k a
      after (rejected r) = return_rule _ λ l p. p

  any_time_rule :
      {A : Type 0} {P E : List Event → Type 0} {Q : A → List Event → Type 0} {m : M W A}
      → Ensures P m Q E
      → EnsuresAt relay now P m Q E
  any_time_rule h = record { holds = λ s e p. h.holds s p }

  branch_at_rule :
      {A : Type 0} {P E : List Event → Type 0} {Q : A → List Event → Type 0} (b : Bool)
      {x y : M W A}
      → EnsuresAt relay now P x Q E
      → EnsuresAt relay now P y Q E
      → EnsuresAt relay now P (Effects.branch b x y) Q E
  unfolding Effects.branch
  branch_at_rule true h k = h
  branch_at_rule false h k = k

module _ {W T : Type 0} (relay : Relay W) (kind : IntentKind T) (payload : AppAuthPayload)
    (bearer : Option Text) (now : ℕ) (before : List Event) where
  -- An authorised intent, and the log as it was.
  abbrev pub Passed : T → List Event → Type 0
  Passed intent l = Same before l × IsAuthorised relay kind payload bearer now intent

  verify_signed_intent_rule :
      EnsuresAt relay now
        (Same before)
        (verify_signed_intent relay kind payload)
        (OnServed Passed (Same before))
        (Same before)
  unfolding verify_signed_intent
  verify_signed_intent_rule = clock_rule relay now _ (
      serve_next_rule (read_signed relay.host kind payload now)
        (λ (claimed, bytes, intent) e.
          let (carried, same) =
            read_signed_sound relay.host kind payload now (claimed, bytes, intent) e in
          reading_result_rule _ _ λ at.
            catch_rule (Same before)
              (bind_rule _ (outside_result_rule _) λ u. return_rule _ λ l (p, (w, verified)). (
                p,
                record {
                  bytes = bytes;
                  carried = carried;
                  vouched = inr (at, w, rw same verified);
                },
              ))
              λ err. return_rule _ λ l p. p)
        λ l p. p)

  -- The way of authorisation goes with the intent.
  abbrev pub PassedBy : T × AuthMethod → List Event → Type 0
  PassedBy (intent, method) = Passed intent

  resolve_with_rule :
      (token : Option Text)
      → first_of (nonblank payload.token) (nonblank bearer) ≡ token
      → EnsuresAt relay now
          (Same before)
          (resolve_with relay kind payload token)
          (OnServed PassedBy (Same before))
          (Same before)
  unfolding resolve_with
  resolve_with_rule (some token) given = clock_rule relay now _ (
      serve_next_rule (check_token relay token payload.address now)
        (λ u checked.
          serve_next_rule (as_bad_request (parse_intent_message relay.host kind payload now))
            (λ intent e.
              let (bytes, carried) =
                parse_intent_message_sound relay.host kind payload now intent
                  (as_bad_request_sound _ intent e) in
              return_rule _ λ l p. (
                p,
                record { bytes = bytes; carried = carried; vouched = inl (token, given, checked) },
              ))
            λ l p. p)
        λ l p. p)
  resolve_with_rule none given =
      branch_at_rule relay now _
        (bind_at_rule relay now (OnServed Passed (Same before)) verify_signed_intent_rule after)
        (any_time_rule relay now (return_rule _ λ l p. p))
    where
      after :
          (v : Served T)
          → Ensures {W = W}
              (OnServed Passed (Same before) v)
              (serve_next (λ i. Effects.return (served (i, AuthMethod.signed))) (as_bad_request v))
              (OnServed PassedBy (Same before))
              (Same before)
      after (served i) = return_rule _ λ l p. p
      after (rejected r) = return_rule _ λ l p. p

  store_rule :
      {A B : Type 0} {Q : B → List Event → Type 0} (f : W → Reply A × W) {k : A → S W B}
      → ((a : A) → Ensures (Same before) (k a) (OnServed Q (Same before)) (Same before))
      → Ensures
          (Same before)
          (Effects.◌>>=◌ (Effects.outside f) k)
          (OnServed Q (Same before))
          (Same before)
  store_rule f h = bind_rule (λ a. Same before) (outside_rule f (λ l p a. p) (λ l p. p)) h

  mark_intent_used_rule :
      (expires_at : ℕ)
      → Ensures
          (Same before)
          (mark_intent_used relay payload expires_at)
          (OnServed (λ u. Same before) (Same before))
          (Same before)
  unfolding mark_intent_used
  mark_intent_used_rule expires_at =
      serve_next_rule (intent_replay_key relay.host payload)
        (λ key e. store_rule _ λ u. return_rule _ λ l p. p) λ l p. p

  abbrev pub PassedWith : T × Option Text → List Event → Type 0
  PassedWith (intent, auth) = Passed intent

  -- What follows the look-up in the replay store.
  abbrev unreplayed : S W (T × Option Text)
  unreplayed = resolve_intent_auth relay kind payload bearer >>= λ (intent, method).
      mark_intent_used relay payload (kind.expires_of intent) >>= λ u.
      Effects.reading relay.sui.now
        λ now. Effects.return (served (intent, token_for relay method (kind.address_of intent) now))

  unreplayed_rule :
      EnsuresAt relay now (Same before) unreplayed (OnServed PassedWith (Same before)) (Same before)
  unfolding resolve_intent_auth ◌>>=◌
  unreplayed_rule =
      bind_at_rule relay now (OnServed PassedBy (Same before)) (resolve_with_rule _ refl) after
    where
      after :
          (v : Served (T × AuthMethod))
          → Ensures
              (OnServed PassedBy (Same before) v)
              (serve_next
                (λ (intent, method).
                  mark_intent_used relay payload (kind.expires_of intent) >>= λ u.
                  Effects.reading relay.sui.now λ now.
                    Effects.return
                      (served (intent, token_for relay method (kind.address_of intent) now)))
                v)
              (OnServed PassedWith (Same before))
              (Same before)
      after (served (intent, method)) =
          assume_rule (λ l p. p.1)
            λ authorised.
              weaken_rule (λ l p. p.0) (λ a l p. p) (λ l p. p)
                (serve_rule (λ u. Same before) (mark_intent_used_rule (kind.expires_of intent))
                  λ u. reading_rule _ λ now. return_rule _ λ l p. (p, authorised))
      after (rejected r) = return_rule _ λ l p. p

  -- The look-up changes the store alone, so that the clock still shows the time.
  verify_checked_rule :
      ((w : W) (used : Store) → relay.sui.now (relay.put_used used w) ≡ relay.sui.now w)
      → EnsuresAt relay now
          (Same before)
          (verify_checked relay kind payload bearer)
          (OnServed PassedWith (Same before))
          (Same before)
  unfolding verify_checked assert_intent_not_replayed ◌>>=◌ Effects.◌>>=◌ Effects.reading
      Effects.outside Effects.branch Effects.return
  verify_checked_rule ticks = record {
    holds = λ s e p. elim (Served-cases (intent_replay_key relay.host payload)) [
      | inl (r, unkeyed) ↦ rw unkeyed p
      | inr (key, keyed) ↦
          elim (Bool-cases (is_replayed key (relay.sui.now s.world) (relay.used s.world)).0) [
            | inl again ↦ rw (keyed, again) p
            | inr fresh ↦ rw (keyed, fresh) (unreplayed_rule.holds _ (ticks s.world _ ∙ e) p)
          ]
    ];
  }

  pub verify_trade_request_rule :
      ((w : W) (used : Store) → relay.sui.now (relay.put_used used w) ≡ relay.sui.now w)
      → EnsuresAt relay now
          (Same before)
          (verify_trade_request relay kind payload bearer)
          (OnServed PassedWith (Same before))
          (Same before)
  unfolding verify_trade_request
  verify_trade_request_rule ticks =
      bind_at_rule relay now (OnServed PassedWith (Same before)) (verify_checked_rule ticks) after
    where
      after :
          (v : Served (T × Option Text))
          → Ensures {W = W}
              (OnServed PassedWith (Same before) v)
              (Effects.return (as_bad_request v))
              (OnServed PassedWith (Same before))
              (Same before)
      after (served i) = return_rule _ λ l p. p
      after (rejected r) = return_rule _ λ l p. p
