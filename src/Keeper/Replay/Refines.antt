-- ===== src/Keeper/Replay/Refines.antt =====
-- keeper/src/trade/trade-replay.store.ts: the store, whose entries have an order, implements a memory that
-- has none: a function from signatures to expiries.
use leverx.Prelude.{
  ℕ, ◌≡◌, refl, ap, ◌∙◌, subst, Bool, not, Option, none, some, List, [], ◌∷◌, inl, inr,
}
use leverx.Prelude.Tests.{ltb, if◌then◌else◌, Bool-cases, Option-cases}
use leverx.Prelude.Texts.{Text, text_eq, text_eq_sound, trim}
use leverx.Prelude.Maps.{
  get, set, get-set_same, get-set_other, get-keep_if, get-keep_if_dropped, keep_if-absent, Unique,
  set-Unique, keep_if-Unique,
}
use leverx.Keeper.Replay.Protects.{after_uses-Unique}
use leverx.Keeper.Replay.{
  Store, empty_store, prune, is_live, is_replayed, mark_used, Use, check, mark, after_uses,
}

abbrev pub Memory : Type 0
Memory = Text → Option ℕ

abbrev pub forgets_below : ℕ → Option ℕ → Option ℕ
forgets_below now none = none
forgets_below now (some expires_at) = if ltb expires_at now then none else some expires_at

-- A check forgets what has expired; a mark remembers one signature.
abbrev pub step : Use → Memory → Memory
step (check signature now) memory = λ key. forgets_below now (memory key)
step (mark signature expires_at) memory =
    λ key. if text_eq (trim signature) key then some expires_at else memory key

abbrev pub steps : List Use → Memory → Memory
steps [] memory = memory
steps (use_ ∷ uses) memory = steps uses (step use_ memory)

-- The memory that a store stands for.
abbrev pub memory_of : Store → Memory
memory_of used = λ key. get key used

pruned_lem :
    (now : ℕ) (key : Text) (used : Store)
    → Unique used
    → get key (prune now used) ≡ forgets_below now (get key used)
unfolding prune
pruned_lem now key used unique =
    let live : ℕ → Bool = λ expires_at. not (ltb expires_at now) in
    elim (Option-cases (get key used)) [
      | inl absent ↦ rw (absent, keep_if-absent live key used absent) refl
      | inr (expires_at, found) ↦ elim (Bool-cases (ltb expires_at now)) [
        | inl late ↦
            rw
              (
                found,
                late,
                get-keep_if_dropped live key expires_at used unique found (rw late refl),
              )
              refl
        | inr early ↦
            rw (found, early, get-keep_if live key expires_at used found (rw early refl)) refl
      ]
    ]

marked_lem :
    (signature : Text) (expires_at : ℕ) (key : Text) (used : Store)
    → get key (mark_used signature expires_at used)
      ≡ (if text_eq (trim signature) key then some expires_at else get key used)
unfolding mark_used
marked_lem signature expires_at key used = elim (Bool-cases (text_eq (trim signature) key)) [
  | inl same ↦ rw same (
      subst (λ k. get k (set (trim signature) expires_at used) ≡ some expires_at)
        (text_eq_sound (trim signature) key same) (get-set_same (trim signature) expires_at used))
  | inr other ↦ rw other (get-set_other (trim signature) key expires_at used other)
]

after_uses_memory :
    (uses : List Use) (used : Store)
    → Unique used
    → memory_of (after_uses uses used) ≡ steps uses (memory_of used)
unfolding after_uses is_replayed
after_uses_memory [] used unique = refl
after_uses_memory (check signature now ∷ uses) used unique =
    after_uses_memory uses _ (keep_if-Unique _ used unique)
    ∙ ap (steps uses) (λ i key. pruned_lem now key used unique i)
after_uses_memory (mark signature expires_at ∷ uses) used unique =
    after_uses_memory uses _ (set-Unique (trim signature) expires_at used unique)
    ∙ ap (steps uses) (λ i key. marked_lem signature expires_at key used i)

-- The store implements the memory: after any uses of an empty store, it stands for the memory after the
-- same uses of an empty memory, and a check then answers whether that memory holds the signature with an
-- expiry that has not passed.
pub after_uses_refines :
    (uses : List Use) (signature : Text) (now : ℕ)
    → (memory_of (after_uses uses empty_store) ≡ steps uses (λ key. none))
      × ((is_replayed signature now (after_uses uses empty_store)).0
          ≡ is_live now (forgets_below now (steps uses (λ key. none) (trim signature))))
unfolding is_replayed get
after_uses_refines uses signature now =
    let used = after_uses uses empty_store in
    let same : memory_of used ≡ steps uses (λ key. none) =
      after_uses_memory uses empty_store tt ∙ ap (steps uses) empty in
    (
      same,
      rw (pruned_lem now (trim signature) used (after_uses-Unique uses empty_store tt))
          (ap (λ memory. is_live now (forgets_below now (memory (trim signature)))) same),
    )
  where
    empty : memory_of empty_store ≡ (λ key. none)
    empty = refl
