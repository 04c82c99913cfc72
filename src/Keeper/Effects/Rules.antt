-- ===== src/Keeper/Effects/Rules.antt =====
-- Rules for the sequential code of the keeper over its log of simulations and submissions.
use Prim.Native.String.{String}
use leverx.Prelude.{◌≡◌, refl, ap, Bool, true, false, List, ◌∷◌}
use leverx.Prelude.Tests.{if◌then◌else◌}
use leverx.Keeper.Effects.{
  Reply, returned, thrown, Event, Session, M, then_, recover, keep_log, ◌>>=◌, ◌>>◌, try_catch,
  outside, note, return, throw, reading, branch,
}

module _ {W : Type 0} where
  abbrev pub Post :
      {A : Type 0}
      → (A → List Event → Type 0)
      → (List Event → Type 0)
      → Reply A × Session W
      → Type 0
  Post Q E (returned a, s) = Q a s.log
  Post Q E (thrown e, s) = E s.log

  -- From a log with P the code resolves with Q of its result and log, or rejects with E of the log.
  pub record Ensures {A : Type 0} (P : List Event → Type 0) (m : M W A)
      (Q : A → List Event → Type 0) (E : List Event → Type 0) : Type 0 where
    pub holds : (s : Session W) → P s.log → Post Q E (m s)

  pub Post-then_ :
      {A B : Type 0} (R : A → List Event → Type 0) (Q : B → List Event → Type 0)
      (E : List Event → Type 0) (f : A → M W B)
      → ((a : A) → Ensures (R a) (f a) Q E)
      → (r : Reply A × Session W) → Post R E r
      → Post Q E (then_ f r)
  Post-then_ R Q E f h (returned a, s) p = (h a).holds s p
  Post-then_ R Q E f h (thrown e, s) p = p

  pub bind_rule :
      {A B : Type 0} {P : List Event → Type 0} (R : A → List Event → Type 0)
      {Q : B → List Event → Type 0} {E : List Event → Type 0} {m : M W A} {f : A → M W B}
      → Ensures P m R E
      → ((a : A) → Ensures (R a) (f a) Q E)
      → Ensures P (m >>= f) Q E
  unfolding ◌>>=◌
  bind_rule R {Q} {E} {m} {f} h k = record {
    holds = λ s p. Post-then_ R Q E f k (m s) (h.holds s p);
  }

  pub seq_rule :
      {B : Type 0} {P : List Event → Type 0} (R : List Event → Type 0) {Q : B → List Event → Type 0}
      {E : List Event → Type 0} {m : M W (Unit {0})} {k : M W B}
      → Ensures P m (λ _. R) E
      → Ensures R k Q E
      → Ensures P (m >> k) Q E
  unfolding ◌>>◌
  seq_rule R {Q} {E} {m} {k} h g = record {
    holds = λ s p. Post-then_ (λ _. R) Q E (λ _. k) (λ _. g) (m s) (h.holds s p);
  }

  Post-recover :
      {A : Type 0} (Q : A → List Event → Type 0) (R E : List Event → Type 0) (h : String → M W A)
      → ((e : String) → Ensures R (h e) Q E)
      → (r : Reply A × Session W) → Post Q R r
      → Post Q E (recover h r)
  Post-recover Q R E h k (returned a, s) p = p
  Post-recover Q R E h k (thrown e, s) p = (k e).holds s p

  pub catch_rule :
      {A : Type 0} {P : List Event → Type 0} (R : List Event → Type 0) {Q : A → List Event → Type 0}
      {E : List Event → Type 0} {m : M W A} {h : String → M W A}
      → Ensures P m Q R
      → ((e : String) → Ensures R (h e) Q E)
      → Ensures P (try_catch m h) Q E
  unfolding try_catch
  catch_rule R {Q} {E} {m} {h} b k = record {
    holds = λ s p. Post-recover Q R E h k (m s) (b.holds s p);
  }

  Post-keep_log :
      {A : Type 0} (Q : A → List Event → Type 0) (E : List Event → Type 0) (l : List Event)
      → ((a : A) → Q a l)
      → E l
      → (r : Reply A × W) → Post Q E (keep_log l r)
  Post-keep_log Q E l q e (returned a, w) = q a
  Post-keep_log Q E l q e (thrown m, w) = e

  -- A step of the outside world leaves the log alone.
  pub outside_rule :
      {A : Type 0} {P E : List Event → Type 0} {Q : A → List Event → Type 0} (f : W → Reply A × W)
      → ((l : List Event) → P l → (a : A) → Q a l)
      → ((l : List Event) → P l → E l)
      → Ensures P (outside f) Q E
  unfolding outside
  outside_rule {E = E} {Q = Q} f q e = record {
    holds = λ s p. Post-keep_log Q E s.log (q s.log p) (e s.log p) (f s.world);
  }

  pub return_rule :
      {A : Type 0} {P E : List Event → Type 0} {Q : A → List Event → Type 0} (a : A)
      → ((l : List Event) → P l → Q a l)
      → Ensures P (return a) Q E
  unfolding return
  return_rule a h = record { holds = λ s p. h s.log p }

  pub throw_rule :
      {A : Type 0} {P E : List Event → Type 0} {Q : A → List Event → Type 0} (e : String)
      → ((l : List Event) → P l → E l)
      → Ensures P (throw {A = A} e) Q E
  unfolding throw
  throw_rule e h = record { holds = λ s p. h s.log p }

  pub note_rule :
      {P E : List Event → Type 0} {Q : Unit {0} → List Event → Type 0} (e : Event)
      → ((l : List Event) → P l → Q tt (e ∷ l))
      → Ensures P (note e) Q E
  unfolding note
  note_rule e h = record { holds = λ s p. h s.log p }

  -- The code reads the world at once; what it does then depends on the value read.
  pub reading_rule :
      {A B : Type 0} {P E : List Event → Type 0} {Q : B → List Event → Type 0} (f : W → A)
      {k : A → M W B}
      → ((a : A) → Ensures P (k a) Q E)
      → Ensures P (reading f k) Q E
  unfolding reading
  reading_rule f h = record { holds = λ s p. (h (f s.world)).holds s p }

  -- The same, where the value is that of some state.
  pub reading_result_rule :
      {A B : Type 0} {P E : List Event → Type 0} {Q : B → List Event → Type 0} (f : W → A)
      (k : A → M W B)
      → ((w : W) → Ensures P (k (f w)) Q E)
      → Ensures P (reading f k) Q E
  unfolding reading
  reading_result_rule f k h = record { holds = λ s p. (h s.world).holds s p }

  pub Post-weaken :
      {A : Type 0} (Q R : A → List Event → Type 0) (E F : List Event → Type 0)
      → ((a : A) (l : List Event) → Q a l → R a l)
      → ((l : List Event) → E l → F l)
      → (r : Reply A × Session W) → Post Q E r
      → Post R F r
  Post-weaken Q R E F q e (returned a, s) p = q a s.log p
  Post-weaken Q R E F q e (thrown m, s) p = e s.log p

  pub weaken_rule :
      {A : Type 0} {P P' : List Event → Type 0} {Q R : A → List Event → Type 0}
      {E F : List Event → Type 0} {m : M W A}
      → ((l : List Event) → P' l → P l)
      → ((a : A) (l : List Event) → Q a l → R a l)
      → ((l : List Event) → E l → F l)
      → Ensures P m Q E
      → Ensures P' m R F
  weaken_rule {Q = Q} {R = R} {E = E} {F = F} {m = m} p q e h = record {
    holds = λ s i. Post-weaken Q R E F q e (m s) (h.holds s (p s.log i));
  }

  pub if_rule :
      {A : Type 0} {P E : List Event → Type 0} {Q : A → List Event → Type 0} (b : Bool)
      (x y : M W A)
      → (b ≡ true → Ensures P x Q E)
      → (b ≡ false → Ensures P y Q E)
      → Ensures P (if b then x else y) Q E
  if_rule true x y h k = h refl
  if_rule false x y h k = k refl

  pub branch_rule :
      {A : Type 0} {P E : List Event → Type 0} {Q : A → List Event → Type 0} (b : Bool)
      {x y : M W A}
      → (b ≡ true → Ensures P x Q E)
      → (b ≡ false → Ensures P y Q E)
      → Ensures P (branch b x y) Q E
  unfolding branch
  branch_rule true h k = h refl
  branch_rule false h k = k refl

  -- A fact that the log's condition shows may be used for the code.
  pub assume_rule :
      {A : Type 0} {P E : List Event → Type 0} {Q : A → List Event → Type 0} {m : M W A}
      {F : Type 0}
      → ((l : List Event) → P l → F)
      → (F → Ensures P m Q E)
      → Ensures P m Q E
  assume_rule h k = record { holds = λ s p. (k (h s.log p)).holds s p }

  -- A step of the outside world that resolved did so in some state.
  pub outside_result_rule :
      {A : Type 0} {P : List Event → Type 0} (f : W → Reply A × W)
      → Ensures P (outside f) (λ a l. P l × ((w : W) × ((f w).0 ≡ returned a))) P
  unfolding outside
  outside_result_rule {A = A} {P = P} f = record {
    holds = λ s p. resolved s.world s.log p (f s.world) refl;
  }
    where
      resolved :
          (w : W) (l : List Event)
          → P l
          → (r : Reply A × W) → f w ≡ r
          → Post (λ a l. P l × ((w : W) × ((f w).0 ≡ returned a))) P (keep_log l r)
      resolved w l p (returned a, w') e = (p, (w, ap (λ r. r.0) e))
      resolved w l p (thrown m, w') e = p
