-- ===== src/Keeper/Tasks/Results.antt =====
-- keeper/src/tasks: counting the successes among a task's results.
use leverx.Prelude.{ℕ, ◌+◌, ◌≡◌, Option, none, some, List, [], ◌∷◌, ◌++◌, refl, sym, ap, arith}
use mathlib.Core.List.{append-nil, append_assoc}
use leverx.Prelude.Tests.{if◌then◌else◌}
use leverx.Keeper.Types.{Text, TaskResult}

-- `results.filter((r) => r.success).length`
abbrev pub successes : List TaskResult → ℕ
successes [] = 0
successes (r ∷ rs) = (if r.success then 1 else 0) + successes rs

-- The successes that one attempt adds.
abbrev pub gained : Option TaskResult → ℕ
gained none = 0
gained (some r) = if r.success then 1 else 0

-- The digests of the successful results, in their order.
abbrev pub reported_digest : TaskResult → List Text
reported_digest r = if r.success then listed r.digest else []
  where
    listed : Option Text → List Text
    listed none = []
    listed (some d) = d ∷ []

abbrev pub reported_digests : List TaskResult → List Text
reported_digests [] = []
reported_digests (r ∷ rs) = reported_digest r ++ reported_digests rs

abbrev pub gained_digests : Option TaskResult → List Text
gained_digests none = []
gained_digests (some r) = reported_digest r

-- `results.push`, if there is a result
abbrev pub push : List TaskResult → Option TaskResult → List TaskResult
push rs none = rs
push rs (some r) = rs ++ (r ∷ [])

pub successes-append :
    (xs ys : List TaskResult) → successes (xs ++ ys) ≡ successes xs + successes ys
successes-append [] ys = omega arith
successes-append (x ∷ xs) ys = omega (arith, successes-append xs ys)

pub successes-push :
    (rs : List TaskResult) (o : Option TaskResult) → successes (push rs o) ≡ successes rs + gained o
successes-push rs none = omega arith
successes-push rs (some r) = omega (arith, successes-append rs (r ∷ []))

pub reported_digests-append :
    (xs ys : List TaskResult)
    → reported_digests (xs ++ ys) ≡ reported_digests xs ++ reported_digests ys
reported_digests-append [] ys = refl
reported_digests-append (x ∷ xs) ys =
    rw (reported_digests-append xs ys)
      (sym (append_assoc (reported_digest x) (reported_digests xs) (reported_digests ys)))

pub reported_digests-push :
    (rs : List TaskResult) (o : Option TaskResult)
    → reported_digests (push rs o) ≡ reported_digests rs ++ gained_digests o
reported_digests-push rs none = sym (append-nil (reported_digests rs))
reported_digests-push rs (some r) =
    rw (reported_digests-append rs (r ∷ []))
      (ap (λ t. reported_digests rs ++ t) (append-nil (reported_digest r)))
