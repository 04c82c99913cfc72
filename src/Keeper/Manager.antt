-- ===== src/Keeper/Manager.antt =====
-- keeper/src/manager/manager.service.ts: the requests for the manager of one address that overlap in time.
-- The map `creationLocks`, the repository and the indexer are keyed by the address, so that requests of
-- different addresses do not meet.
pub mod Creation
pub mod Tests
use leverx.Prelude.{ℕ, ◌+◌, ◌-◌, ◌<◌, ◌≡◌, Bool, true, false, Option, none, some}
use leverx.Prelude.Tests.{if◌then◌else◌}
use leverx.Prelude.Texts.{Text}
use leverx.Keeper.Messages.{is_address, normalised}

-- `set` of keeper/src/manager/user-manager.repository.ts, which passes over a text that is no object id.
unfoldable pub save : Text → Option Text → Option Text
unfolding is_address normalised
save id stored = if is_address (normalised id) then some (normalised id) else stored

-- The repository's manager of the address, whether `creationLocks` has it, and how many calls of
-- createManagerForAddress wait for the repository, for the indexer, for `execute`, and for the record of the
-- manager, and how many are settled but not yet taken out of the map. Then how many creations were
-- handed to `execute`, whose retries count as one, how many were recorded as created, and how many were
-- lost: handed over without being recorded.
pub record Creations : Type 0 where
  pub manager_id : Option Text
  pub has_lock : Bool
  pub resolving : ℕ
  pub looking_up : ℕ
  pub executing : ℕ
  pub recording : ℕ
  pub settled : ℕ
  pub submitted : ℕ
  pub created : ℕ
  pub lost : ℕ

abbrev pub no_requests : Option Text → Creations
no_requests stored = record {
  manager_id = stored;
  has_lock = false;
  resolving = 0;
  looking_up = 0;
  executing = 0;
  recording = 0;
  settled = 0;
  submitted = 0;
  created = 0;
  lost = 0;
}

-- What happens between two waits. A work fails where the repository, the readiness test, the execution or
-- the look-up of the created object throws.
pub data Step : Creations → Creations → Type 0 where
  -- resolveManagerId, of any request, found the manager in the indexer and saves it
  learn : (s : Creations) (id : Text) → Step s (record s { manager_id = save id s.manager_id })
  -- a verified request finds a creation under way and waits for it
  join : (s : Creations) → s.has_lock ≡ true → Step s s
  -- a verified request finds none and begins one
  begin :
      (s : Creations)
      → s.has_lock ≡ false
      → Step s (record s { has_lock = true; resolving = s.resolving + 1 })
  -- the repository has the manager after all, or throws
  resolve :
      (s : Creations)
      → 0 < s.resolving
      → Step s (record s { resolving = s.resolving - 1; settled = s.settled + 1 })
  -- the repository has none
  resolve_none :
      (s : Creations)
      → 0 < s.resolving
      → s.manager_id ≡ none
      → Step s (record s { resolving = s.resolving - 1; looking_up = s.looking_up + 1 })
  -- the indexer has the manager, which is saved
  look_up :
      (s : Creations) (id : Text)
      → 0 < s.looking_up
      → Step s (record s {
        manager_id = save id s.manager_id;
        looking_up = s.looking_up - 1;
        settled = s.settled + 1;
      })
  -- the indexer has none or fails, whatever the repository has by now
  look_up_none :
      (s : Creations)
      → 0 < s.looking_up
      → Step s (record s { looking_up = s.looking_up - 1; executing = s.executing + 1 })
  -- the keeper is not ready, so that nothing is submitted
  refuses :
      (s : Creations)
      → 0 < s.executing
      → Step s (record s { executing = s.executing - 1; settled = s.settled + 1 })
  executes :
      (s : Creations)
      → 0 < s.executing
      → Step s (record s {
        executing = s.executing - 1;
        recording = s.recording + 1;
        submitted = s.submitted + 1;
      })
  -- the submitted transaction fails, or its answer is lost
  execute_fails :
      (s : Creations)
      → 0 < s.executing
      → Step s (record s {
        executing = s.executing - 1;
        settled = s.settled + 1;
        submitted = s.submitted + 1;
        lost = s.lost + 1;
      })
  -- the manager is saved and reported as created; on chain its id is 0x and 64 digits
  store :
      (s : Creations) (id : Text)
      → 0 < s.recording
      → is_address (normalised id) ≡ true
      → Step s (record s {
        manager_id = save id s.manager_id;
        recording = s.recording - 1;
        settled = s.settled + 1;
        created = s.created + 1;
      })
  -- the created object is not found in the effects, or it is not stored
  store_fails :
      (s : Creations)
      → 0 < s.recording
      → Step s
          (record s { recording = s.recording - 1; settled = s.settled + 1; lost = s.lost + 1 })
  -- the request that began the work takes it out of the map
  release :
      (s : Creations)
      → 0 < s.settled
      → Step s (record s { has_lock = false; settled = s.settled - 1 })

pub data Reachable : Creations → Type 0 where
  at_start : (stored : Option Text) → Reachable (no_requests stored)
  next : {s t : Creations} → Reachable s → Step s t → Reachable t
