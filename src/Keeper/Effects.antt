-- ===== src/Keeper/Effects.antt =====
-- Asynchronous code of the keeper as explicit state passing. A promise that resolves is `returned`,
-- one that rejects is `thrown`. The outside world is an abstract state; beside it the log keeps the
-- simulations and submissions of transactions, newest first; a submission is confirmed, with a digest, if
-- the node answers that it succeeded. Nothing in the model reads the log.
pub mod Rules
use Prim.Native.String.{String}
use leverx.Prelude.{Bool, true, false, List, ◌∷◌}
use leverx.Prelude.Texts.{Text}
use leverx.Keeper.Ptb.{Transaction}

pub data Reply {ℓ} (A : Type ℓ) : Type ℓ where
  returned : A → Reply A
  thrown : String → Reply A

pub data Event : Type 0 where
  simulated : Transaction → Bool → Event
  submitted : Transaction → Event
  confirmed : Transaction → Text → Event

pub record Session (W : Type 0) : Type 0 where
  pub world : W
  pub log : List Event

abbrev pub M : Type 0 → Type 0 → Type 0
M W A = Session W → Reply A × Session W

unfoldable pub return : {W A : Type 0} → A → M W A
return a s = (returned a, s)

unfoldable pub throw : {W A : Type 0} → String → M W A
throw e s = (thrown e, s)

abbrev pub then_ : {W A B : Type 0} → (A → M W B) → Reply A × Session W → Reply B × Session W
then_ f (returned a, s) = f a s
then_ f (thrown e, s) = (thrown e, s)

infixl 5 ◌>>=◌ ◌>>◌
unfoldable pub ◌>>=◌ : {W A B : Type 0} → M W A → (A → M W B) → M W B
◌>>=◌ m f s = then_ f (m s)

unfoldable pub ◌>>◌ : {W B : Type 0} → M W (Unit {0}) → M W B → M W B
◌>>◌ m k s = then_ (λ _. k) (m s)

abbrev pub recover : {W A : Type 0} → (String → M W A) → Reply A × Session W → Reply A × Session W
recover h (returned a, s) = (returned a, s)
recover h (thrown e, s) = h e s

-- `try { m } catch (err) { h(err) }`
unfoldable pub try_catch : {W A : Type 0} → M W A → (String → M W A) → M W A
try_catch m h s = recover h (m s)

unfoldable pub note : {W : Type 0} → Event → M W (Unit {0})
note e s = (returned tt, record s { log = e ∷ s.log })

abbrev pub keep_log : {W A : Type 0} → List Event → Reply A × W → Reply A × Session W
keep_log l (r, w) = (r, record { world = w; log = l })

-- A step of the outside world.
unfoldable pub outside : {W A : Type 0} → (W → Reply A × W) → M W A
outside f s = keep_log s.log (f s.world)

-- A synchronous read of the world, such as `Date.now()` or a field of a service.
unfoldable pub reading : {W A B : Type 0} → (W → A) → (A → M W B) → M W B
reading f k s = k (f s.world) s

-- `if (b) { x } else { y }`
unfoldable pub branch : {W A : Type 0} → Bool → M W A → M W A → M W A
branch true x y = x
branch false x y = y
