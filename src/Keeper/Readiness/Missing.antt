-- ===== src/Keeper/Readiness/Missing.antt =====
-- keeper/src/sui/sui.service.ts, `getTaskReadiness`: the report of what is missing.
use Prim.Native.String.{String}
use leverx.Prelude.{
  ◌≡◌, ◌≢◌, refl, ◌↔◌, ◌⊎◌, inl, inr, Bool, true, false, List, [], ◌∷◌, ◌++◌, arith,
}
use leverx.Prelude.Tests.{Bool-cases}
use leverx.Prelude.Texts.{Text, trim}
use leverx.Keeper.Types.{KeeperConfig}
use leverx.Keeper.Ptb.Allowed.{IsConfigured}
use leverx.Keeper.Readiness.{is_set, require_all, core_values, task_readiness}

-- Nothing is pushed, or something is.
Pushed : List String → Bool × List String → Type 0
Pushed missing r = ((r.0 ≡ true) × (r.1 ≡ missing)) ⊎ ((r.0 ≡ false) × (r.1 ≢ []))

append-ne-nil : (xs : List String) (x : String) → xs ++ (x ∷ []) ≢ []
append-ne-nil [] x = λ e. absurd (ground arith)
append-ne-nil (y ∷ ys) x = λ e. absurd (ground arith)

require_all-Pushed :
    (values : List (Text × String)) (missing : List String)
    → Pushed missing (require_all values missing)
unfolding Pushed require_all
require_all-Pushed [] missing = inl (refl, refl)
require_all-Pushed ((value, label) ∷ rest) missing = elim (Bool-cases (is_set value)) [
  | inl e ↦ rw e (require_all-Pushed rest missing)
  | inr e ↦ rw e (inr (refl, append-ne-nil missing label))
]

package_alone :
    (cfg : KeeperConfig) (missing : List String)
    → (require_all (core_values cfg) missing).0 ≡ true
    → require_all ((cfg.package_id, "packageId") ∷ []) missing ≡ (true, missing)
unfolding require_all
package_alone cfg missing h = elim (Bool-cases (is_set cfg.package_id)) [
  | inl e ↦ rw e refl
  | inr e ↦ absurd (ground (arith, e, h))
]

-- Once something is pushed, something stays missing.
package_keeps :
    (cfg : KeeperConfig) (missing : List String)
    → missing ≢ []
    → (require_all ((cfg.package_id, "packageId") ∷ []) missing).1 ≢ []
unfolding require_all
package_keeps cfg missing h = elim (Bool-cases (is_set cfg.package_id)) [
  | inl e ↦ rw e h
  | inr e ↦ rw e (append-ne-nil missing "packageId")
]

cons-ne-nil : (x : String) (xs : List String) → (x ∷ xs) ≢ []
cons-ne-nil x xs = λ e. absurd (ground arith)

-- Transactions can be signed exactly if nothing is reported missing, and every task is then ready.
pub task_readiness-missing_iff :
    (cfg : KeeperConfig) (has_keypair : Bool)
    → let r = task_readiness cfg has_keypair in
      ((r.tx_ready ≡ true) ↔ (r.missing ≡ []))
      × ((r.tx_ready ≡ false)
          ⊎ ((r.limit_order ≡ true)
              × (r.liquidation ≡ true)
              × (r.trigger ≡ true)
              × (r.force_close ≡ true)))
unfolding task_readiness Pushed
task_readiness-missing_iff cfg true = elim (require_all-Pushed (core_values cfg) []) [
  | inl (e, f) ↦
      rw (e, f, package_alone cfg [] e) ((λ h. refl, λ h. refl), inr (refl, refl, refl, refl))
  | inr (e, f) ↦
      rw e ((λ h. absurd (ground arith), λ h. absurd (package_keeps cfg _ f h)), inl refl)
]
task_readiness-missing_iff cfg false =
    let key : List String = "KEEPER_PRIVATE_KEY" ∷ [] in
    elim (require_all-Pushed (core_values cfg) key) [
      | inl (e, f) ↦
          rw (e, f, package_alone cfg key e)
            ((λ h. absurd (ground arith), λ h. absurd (cons-ne-nil _ _ h)), inl refl)
      | inr (e, f) ↦
          rw e ((λ h. absurd (ground arith), λ h. absurd (package_keeps cfg _ f h)), inl refl)
    ]

set-ne-nil : (value : Text) → is_set value ≡ true → value ≢ []
unfolding is_set trim
set-ne-nil [] h = absurd (ground arith)
set-ne-nil (c ∷ cs) h = λ e. absurd (ground arith)

-- Once transactions can be signed, both packages are configured.
pub task_readiness-IsConfigured :
    (cfg : KeeperConfig) (has_keypair : Bool)
    → (task_readiness cfg has_keypair).tx_ready ≡ true
    → IsConfigured cfg
unfolding task_readiness require_all
task_readiness-IsConfigured cfg has_keypair ready = record {
  package_set = set-ne-nil cfg.package_id (ground arith);
  predict_package_set = set-ne-nil cfg.predict_package_id (ground arith);
}
