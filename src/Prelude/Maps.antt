-- ===== src/Prelude/Maps.antt =====
-- A `Map` of JavaScript with string keys, as the list of its entries in the order of insertion.
use leverx.Prelude.Tests.{if◌then◌else◌, Bool-cases}
use leverx.Prelude.Texts.{Text, text_eq, text_eq_sound, text_eq_refl}
use mathlib.Core.Path.{◌≡◌, refl, ap, subst, ◌∙◌}
use mathlib.Core.Bool.{Bool, true, false}
use mathlib.Core.Logic.{inl, inr}
use mathlib.Core.List.{List, [], ◌∷◌}
use mathlib.Core.Option.{Option, none, some}
use native.Mathlib.Omega.{arith}

abbrev pub Map : Type 0 → Type 0
Map V = List (Text × V)

text_eq_congr : (a b other : Text) → text_eq a b ≡ true → text_eq a other ≡ text_eq b other
text_eq_congr a b other e = ap (λ t. text_eq t other) (text_eq_sound a b e)

text_eq_sym : (a b : Text) → text_eq b a ≡ true → text_eq a b ≡ true
text_eq_sym a b e = rw (text_eq_sound b a e) (text_eq_refl a)

module _ {V : Type 0} where
  unfoldable pub get : Text → Map V → Option V
  get key [] = none
  get key ((k, v) ∷ entries) = let rest = get key entries in if text_eq k key then some v else rest

  -- The value of a key that is there is replaced in place.
  unfoldable pub set : Text → V → Map V → Map V
  set key value [] = (key, value) ∷ []
  set key value ((k, v) ∷ entries) =
      let rest = set key value entries in
      if text_eq k key then (k, value) ∷ entries else (k, v) ∷ rest

  -- The deletion of the entries that fail a test.
  unfoldable pub keep_if : (V → Bool) → Map V → Map V
  keep_if test [] = []
  keep_if test ((k, v) ∷ entries) =
      let rest = keep_if test entries in if test v then (k, v) ∷ rest else rest

  pub get-set_same : (key : Text) (value : V) (m : Map V) → get key (set key value m) ≡ some value
  unfolding get set
  get-set_same key value [] = rw (text_eq_refl key) refl
  get-set_same key value ((k, v) ∷ entries) = elim (Bool-cases (text_eq k key)) [
    | inl e ↦ rw (e, e) refl
    | inr e ↦ rw (e, e) (get-set_same key value entries)
  ]

  pub get-set_other :
      (key other : Text) (value : V) (m : Map V)
      → text_eq key other ≡ false
      → get other (set key value m) ≡ get other m
  unfolding get set
  get-set_other key other value [] h = rw h refl
  get-set_other key other value ((k, v) ∷ entries) h = elim (Bool-cases (text_eq k key)) [
    | inl e ↦ rw (e, text_eq_congr k key other e, h) refl
    | inr e ↦ rw e (ground (arith, get-set_other key other value entries h))
  ]

  -- A value that passes the test stays what the key has.
  pub get-keep_if :
      (test : V → Bool) (key : Text) (value : V) (m : Map V)
      → get key m ≡ some value
      → test value ≡ true
      → get key (keep_if test m) ≡ some value
  unfolding get keep_if
  get-keep_if test key value [] h t = h
  get-keep_if test key value ((k, v) ∷ entries) h t =
      ground (arith, get-keep_if test key value entries)

  -- What is left passes the test.
  pub get-keep_if_sound :
      (test : V → Bool) (key : Text) (value : V) (m : Map V)
      → get key (keep_if test m) ≡ some value
      → test value ≡ true
  unfolding get keep_if
  get-keep_if_sound test key value [] h = cc
  get-keep_if_sound test key value ((k, v) ∷ entries) h =
      ground (arith, get-keep_if_sound test key value entries)

  pub keep_if-absent :
      (test : V → Bool) (key : Text) (m : Map V)
      → get key m ≡ none
      → get key (keep_if test m) ≡ none
  unfolding get keep_if
  keep_if-absent test key [] h = refl
  keep_if-absent test key ((k, v) ∷ entries) h = ground (arith, keep_if-absent test key entries)

  -- Each key stands once.
  abbrev pub Unique : Map V → Type 0
  Unique [] = Unit
  Unique ((k, v) ∷ entries) = (get k entries ≡ none) × Unique entries

  pub set-Unique : (key : Text) (value : V) (m : Map V) → Unique m → Unique (set key value m)
  unfolding get set
  set-Unique key value [] u = (refl, tt)
  set-Unique key value ((k, v) ∷ entries) (a, u) = elim (Bool-cases (text_eq k key)) [
    | inl e ↦ rw e (a, u)
    | inr e ↦ rw e (
      get-set_other key k value entries (ground (arith, text_eq_sym k key)) ∙ a,
      set-Unique key value entries u,
    )
  ]

  pub keep_if-Unique : (test : V → Bool) (m : Map V) → Unique m → Unique (keep_if test m)
  unfolding get keep_if
  keep_if-Unique test [] u = u
  keep_if-Unique test ((k, v) ∷ entries) (a, u) = elim (Bool-cases (test v)) [
    | inl e ↦ rw e (keep_if-absent test k entries a, keep_if-Unique test entries u)
    | inr e ↦ rw e (keep_if-Unique test entries u)
  ]

  -- A value that fails the test is gone.
  pub get-keep_if_dropped :
      (test : V → Bool) (key : Text) (value : V) (m : Map V)
      → Unique m
      → get key m ≡ some value
      → test value ≡ false
      → get key (keep_if test m) ≡ none
  unfolding get keep_if
  get-keep_if_dropped test key value [] u h t = refl
  get-keep_if_dropped test key value ((k, v) ∷ entries) (a, u) h t =
      elim (Bool-cases (text_eq k key)) [
        | inl e ↦ ground (arith, keep_if-absent test key entries (get_congr k key entries e a))
        | inr e ↦ ground (arith, get-keep_if_dropped test key value entries u)
      ]
    where
      get_congr : (a b : Text) (m : Map V) → text_eq a b ≡ true → get a m ≡ none → get b m ≡ none
      get_congr a b m e h = subst (λ c. get c m ≡ none) (text_eq_sound a b e) h
