-- ===== src/Keeper/Orchestrator/Locks.antt =====
-- keeper/src/tasks/keeper-orchestrator.service.ts: runs that overlap in time.
use leverx.Prelude.{ℕ, ◌+◌, ◌*◌, ◌≡◌, ◌≤◌, Bool, true, false, arith}
use leverx.Prelude.Tests.{if◌then◌else◌}
use leverx.Keeper.Orchestrator.{
  KeeperTaskKind, limit_order, liquidation, trigger, force_close, all, PerKind, at, put, is_running,
  is_locked, includes,
}

-- The set `runningKinds`, and how many runs of each kind are under way.
pub record Runs : Type 0 where
  pub running_kinds : PerKind Bool
  pub under_way : PerKind ℕ

abbrev pub start : Runs
start = record {
  running_kinds = record {
    limit_order = false;
    liquidation = false;
    trigger = false;
    force_close = false;
    all = false;
  };
  under_way = record { limit_order = 0; liquidation = 0; trigger = 0; force_close = 0; all = 0 };
}

-- A run that is not locked out takes its lock before it first waits, and gives it back at its end,
-- however it ends; one that is locked out changes nothing.
pub data Step : Runs → Runs → Type 0 where
  begin :
      (r : Runs) (kind : KeeperTaskKind)
      → is_locked r.running_kinds kind ≡ false
      → Step r (record {
        running_kinds = put kind true r.running_kinds;
        under_way = put kind (at r.under_way kind + 1) r.under_way;
      })
  skip : (r : Runs) (kind : KeeperTaskKind) → is_locked r.running_kinds kind ≡ true → Step r r
  finish :
      (r : Runs) (kind : KeeperTaskKind) (before : ℕ)
      → at r.under_way kind ≡ before + 1
      → Step r (record {
        running_kinds = put kind false r.running_kinds;
        under_way = put kind before r.under_way;
      })

pub data Reachable : Runs → Type 0 where
  at_start : Reachable start
  next : {r r' : Runs} → Reachable r → Step r r' → Reachable r'

abbrev count_if : Bool → ℕ
count_if b = if b then 1 else 0

-- How many runs that include the task are under way.
abbrev pub runs_of : KeeperTaskKind → PerKind ℕ → ℕ
runs_of task n =
    (if includes limit_order task then n.limit_order else 0)
    + (if includes liquidation task then n.liquidation else 0)
    + (if includes trigger task then n.trigger else 0)
    + (if includes force_close task then n.force_close else 0)
    + (if includes all task then n.all else 0)

-- Each lock is held by exactly one run, and no other run is under way with a run of all tasks.
abbrev Locked : Runs → Type 0
Locked r =
    (r.under_way.limit_order ≡ count_if r.running_kinds.limit_order)
    × (r.under_way.liquidation ≡ count_if r.running_kinds.liquidation)
    × (r.under_way.trigger ≡ count_if r.running_kinds.trigger)
    × (r.under_way.force_close ≡ count_if r.running_kinds.force_close)
    × (r.under_way.all ≡ count_if r.running_kinds.all)
    × (r.under_way.all
          * (r.under_way.limit_order + r.under_way.liquidation + r.under_way.trigger
              + r.under_way.force_close)
        ≡ 0)

Step-Locked : {r r' : Runs} → Step r r' → Locked r → Locked r'
unfolding is_locked is_running
Step-Locked (begin r limit_order free) p = ground arith
Step-Locked (begin r liquidation free) p = ground arith
Step-Locked (begin r trigger free) p = ground arith
Step-Locked (begin r force_close free) p = ground arith
Step-Locked (begin r all free) p = ground arith
Step-Locked (skip r kind held) p = p
Step-Locked (finish r limit_order before e) p = ground arith
Step-Locked (finish r liquidation before e) p = ground arith
Step-Locked (finish r trigger before e) p = ground arith
Step-Locked (finish r force_close before e) p = ground arith
Step-Locked (finish r all before e) p = ground arith

Reachable-Locked : {r : Runs} → Reachable r → Locked r
Reachable-Locked at_start = ground arith
Reachable-Locked (next h s) = Step-Locked s (Reachable-Locked h)

-- Whatever runs begin and finish in whatever order, no task is under way in two runs at a time.
pub runs_of-le-one : (r : Runs) (task : KeeperTaskKind) → Reachable r → runs_of task r.under_way ≤ 1
runs_of-le-one r limit_order h = let p = Reachable-Locked h in ground arith
runs_of-le-one r liquidation h = let p = Reachable-Locked h in ground arith
runs_of-le-one r trigger h = let p = Reachable-Locked h in ground arith
runs_of-le-one r force_close h = let p = Reachable-Locked h in ground arith
runs_of-le-one r all h = let p = Reachable-Locked h in ground arith

abbrev pub total : PerKind ℕ → ℕ
total n = n.limit_order + n.liquidation + n.trigger + n.force_close + n.all

-- No lock is left behind: while no run is under way, a run of any kind may begin.
pub is_locked-idle :
    (r : Runs) (kind : KeeperTaskKind)
    → Reachable r
    → total r.under_way ≡ 0
    → is_locked r.running_kinds kind ≡ false
unfolding is_locked is_running
is_locked-idle r limit_order h e = let p = Reachable-Locked h in ground arith
is_locked-idle r liquidation h e = let p = Reachable-Locked h in ground arith
is_locked-idle r trigger h e = let p = Reachable-Locked h in ground arith
is_locked-idle r force_close h e = let p = Reachable-Locked h in ground arith
is_locked-idle r all h e = let p = Reachable-Locked h in ground arith
