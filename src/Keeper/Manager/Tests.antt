-- ===== src/Keeper/Manager/Tests.antt =====
-- keeper/src/manager/manager.service.ts: one run of overlapping requests.
use leverx.Prelude.{◌+◌, ◌≤◌, refl, true, none, ◌++◌, arith}
use leverx.Prelude.Texts.{Text, text, trim}
use leverx.Keeper.Messages.{is_address, normalised}
use leverx.Keeper.Manager.{
  save, Creations, no_requests, join, begin, resolve_none, look_up_none, executes, store,
  store_fails, release, Reachable, at_start, next,
}
use leverx.Keeper.Manager.Creation.{under_way, created-le-one}

abbrev eight : Text → Text
eight t = t ++ (t ++ (t ++ (t ++ (t ++ (t ++ (t ++ t))))))

abbrev manager : Text
manager = text "0x" ++ eight (text "0123abcd")

-- The first creation is lost, and the second one is recorded while another request waits for it.
abbrev created_once : Creations
created_once = record {
  manager_id = save manager none;
  has_lock = true;
  resolving = 0;
  looking_up = 0;
  executing = 0;
  recording = 0;
  settled = 1;
  submitted = 2;
  created = 1;
  lost = 1;
}

attempt : Reachable (record (no_requests none) { has_lock = true; recording = 1; submitted = 1 })
attempt =
    next
      (next (next (next (at_start none) (begin _ refl)) (resolve_none _ (omega arith) refl))
        (look_up_none _ (omega arith)))
      (executes _ (omega arith))

created_once-Reachable : Reachable created_once
unfolding is_address normalised trim
created_once-Reachable =
    let lost = next (next attempt (store_fails _ (omega arith))) (release _ (omega arith)) in
    let again =
      next (next (next lost (begin _ refl)) (resolve_none _ (omega arith) refl))
        (look_up_none _ (omega arith)) in
    next (next (next again (executes _ (omega arith))) (join _ refl))
      (store _ manager (omega arith) refl)

created-le-one_example :
    (under_way created_once ≤ 1)
    × (created_once.created ≤ 1)
    × (created_once.submitted ≤ 1 + created_once.lost)
created-le-one_example = created-le-one created_once-Reachable
