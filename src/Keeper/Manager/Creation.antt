-- ===== src/Keeper/Manager/Creation.antt =====
-- keeper/src/manager/manager.service.ts: how often a manager is created.
use leverx.Prelude.{ℕ, ◌+◌, ◌≤◌, ◌≡◌, refl, Bool, true, false, Option, none, some, inl, inr, arith}
use leverx.Prelude.Tests.{Bool-cases, if◌then◌else◌}
use leverx.Prelude.Texts.{Text}
use leverx.Keeper.Messages.{is_address, normalised}
use leverx.Keeper.Manager.{
  save, Creations, Step, learn, join, begin, resolve, resolve_none, look_up, look_up_none, refuses,
  executes, execute_fails, store, store_fails, release, Reachable, at_start, next,
}

abbrev count_if : Bool → ℕ
count_if b = if b then 1 else 0

abbrev count_some : Option Text → ℕ
count_some none = 0
count_some (some id) = 1

-- How many creations are under way.
abbrev pub under_way : Creations → ℕ
under_way s = s.resolving + s.looking_up + s.executing + s.recording + s.settled

-- One creation at most holds the lock; one that was recorded left its manager in the repository, after
-- which none goes on to executes.
abbrev Sound : Creations → Type 0
Sound s =
    (under_way s ≡ count_if s.has_lock)
    × (s.created + s.looking_up + s.executing + s.recording ≤ 1)
    × (s.created ≤ count_some s.manager_id)
    × (s.submitted ≡ s.created + s.recording + s.lost)

locked-le-one : (b : Bool) → count_if b ≤ 1
locked-le-one true = omega arith
locked-le-one false = omega arith

save_keeps : (id : Text) (stored : Option Text) → count_some stored ≤ count_some (save id stored)
unfolding save
save_keeps id stored = elim (Bool-cases (is_address (normalised id))) [
  | inl valid ↦ rw valid (some-le-one stored)
  | inr other ↦ rw other (omega arith)
]
  where
    some-le-one : (stored : Option Text) → count_some stored ≤ 1
    some-le-one none = omega arith
    some-le-one (some id) = omega arith

save_stores :
    (id : Text) (stored : Option Text)
    → is_address (normalised id) ≡ true
    → count_some (save id stored) ≡ 1
unfolding save
save_stores id stored valid = rw valid refl

Step-Sound : {s t : Creations} → Step s t → Sound s → Sound t
Step-Sound (learn s id) (way, once, kept, sent) =
    (way, once, omega (arith, save_keeps id s.manager_id), sent)
Step-Sound (join s e) sound = sound
Step-Sound (begin s e) (way, once, kept, sent) =
    let idle : under_way s ≡ 0 = ground (arith, way, e) in (omega arith, once, kept, sent)
Step-Sound (resolve s h) (way, once, kept, sent) = (omega arith, once, kept, sent)
Step-Sound (resolve_none s h e) (way, once, kept, sent) =
    let fresh : s.created ≤ 0 = ground (arith, kept, e) in
    let alone = locked-le-one s.has_lock in (omega arith, omega arith, kept, sent)
Step-Sound (look_up s id h) (way, once, kept, sent) =
    (omega arith, omega arith, omega (arith, save_keeps id s.manager_id), sent)
Step-Sound (look_up_none s h) (way, once, kept, sent) = (omega arith, omega arith, kept, sent)
Step-Sound (refuses s h) (way, once, kept, sent) = (omega arith, omega arith, kept, sent)
Step-Sound (executes s h) (way, once, kept, sent) = (omega arith, omega arith, kept, omega arith)
Step-Sound (execute_fails s h) (way, once, kept, sent) =
    (omega arith, omega arith, kept, omega arith)
Step-Sound (store s id h valid) (way, once, kept, sent) =
    (omega arith, omega arith, omega (arith, save_stores id s.manager_id valid), omega arith)
Step-Sound (store_fails s h) (way, once, kept, sent) = (omega arith, omega arith, kept, omega arith)
Step-Sound (release s h) (way, once, kept, sent) =
    let alone = locked-le-one s.has_lock in (omega arith, once, kept, sent)

Reachable-Sound : {s : Creations} → Reachable s → Sound s
Reachable-Sound (at_start stored) = (refl, omega arith, omega arith, refl)
Reachable-Sound (next before step) = Step-Sound step (Reachable-Sound before)

-- However requests for one address overlap, one creation at most is under way, one manager at most is
-- recorded as created, and `execute` is called no more than once beside the calls that were lost.
pub created-le-one :
    {s : Creations} → Reachable s → (under_way s ≤ 1) × (s.created ≤ 1) × (s.submitted ≤ 1 + s.lost)
created-le-one {s} reached =
    let (way, once, kept, sent) = Reachable-Sound reached in
    let alone = locked-le-one s.has_lock in (omega arith, omega arith, omega arith)
