-- ===== src/Keeper/Relay/Safety.antt =====
-- keeper/src/trade/trade.service.ts: what is submitted for a request, and for whom.
pub mod Verify
pub mod Submit
pub mod Relays
use Prim.Native.String.{String}
use leverx.Prelude.{ℕ, ◌≡◌, refl, Bool, true, false, List, [], ◌∷◌, Option, none, some}
use leverx.Keeper.Effects.{Event, M, Reply}
use leverx.Keeper.Effects
use leverx.Keeper.Effects.Rules.{Ensures, bind_rule, return_rule, weaken_rule}
use leverx.Keeper.Relay.{Refusal, Served, served, rejected}
use leverx.Keeper.Relay.Auth.{S, serve_next, ◌>>=◌}

-- A condition on an answer and the log, and one on the log of a rejection.
abbrev pub OnServed :
    {A : Type 0}
    → (A → List Event → Type 0)
    → (List Event → Type 0)
    → Served A
    → List Event
    → Type 0
OnServed Q F (served a) = Q a
OnServed Q F (rejected r) = F

module _ {W : Type 0} where
  pub serve_next_rule :
      {A B : Type 0} {P E F : List Event → Type 0} {Q : B → List Event → Type 0} {f : A → S W B}
      (v : Served A)
      → ((a : A) → v ≡ served a → Ensures P (f a) (OnServed Q F) E)
      → ((l : List Event) → P l → F l)
      → Ensures P (serve_next f v) (OnServed Q F) E
  serve_next_rule (served a) h k = h a refl
  serve_next_rule (rejected r) h k = return_rule _ k

  pub serve_rule :
      {A B : Type 0} {P E F : List Event → Type 0} (R : A → List Event → Type 0)
      {Q : B → List Event → Type 0} {m : S W A} {f : A → S W B}
      → Ensures P m (OnServed R F) E
      → ((a : A) → Ensures (R a) (f a) (OnServed Q F) E)
      → Ensures P (m >>= f) (OnServed Q F) E
  unfolding ◌>>=◌
  serve_rule {A = A} {E = E} {F = F} R {Q = Q} {f = f} h k = bind_rule (OnServed R F) h after
    where
      after : (v : Served A) → Ensures (OnServed R F v) (serve_next f v) (OnServed Q F) E
      after (served a) = k a
      after (rejected r) = return_rule _ λ l p. p

  -- More may be asked of the log before, and less promised of an answer and its log.
  pub serve_weaken_rule :
      {A : Type 0} {P P' E F E' F' : List Event → Type 0} {Q R : A → List Event → Type 0}
      {m : S W A}
      → ((l : List Event) → P' l → P l)
      → ((a : A) (l : List Event) → Q a l → R a l)
      → ((l : List Event) → F l → F' l)
      → ((l : List Event) → E l → E' l)
      → Ensures P m (OnServed Q F) E
      → Ensures P' m (OnServed R F') E'
  serve_weaken_rule {A = A} {F = F} {F' = F'} {Q = Q} {R = R} p q f e h = weaken_rule p cases e h
    where
      cases : (v : Served A) (l : List Event) → OnServed Q F v l → OnServed R F' v l
      cases (served a) l = q a l
      cases (rejected r) l = f l
