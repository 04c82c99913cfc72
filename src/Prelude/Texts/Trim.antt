-- ===== src/Prelude/Texts/Trim.antt =====
-- A text without white space is its own `trim`.
use leverx.Prelude.Texts.{Text, trim, trim_start, trim_end, cons_unless_blank, is_whitespace}
use Prim.Native.Nat.{ℕ}
use mathlib.Core.Path.{◌≡◌, refl}
use mathlib.Core.Bool.{Bool, true, false, not, ◌&&◌}
use mathlib.Core.List.{[], ◌∷◌, ◌++◌}

abbrev pub no_blank : Text → Bool
no_blank [] = true
no_blank (c ∷ cs) = not (is_whitespace c) && no_blank cs

-- The parts of a test that holds.
not_and : (a b : Bool) → (not a && b) ≡ true → (a ≡ false) × (b ≡ true)
not_and false true h = (refl, refl)
not_and false false h = cc
not_and true b h = cc

cons_unless_blank_lem : (c : ℕ) (t : Text) → is_whitespace c ≡ false → cons_unless_blank c t ≡ c ∷ t
cons_unless_blank_lem c [] h = rw h refl
cons_unless_blank_lem c (d ∷ ds) h = refl

trim_end_lem : (t : Text) → no_blank t ≡ true → trim_end t ≡ t
trim_end_lem [] h = refl
trim_end_lem (c ∷ cs) h =
    let (solid, rest) = not_and (is_whitespace c) (no_blank cs) h in
    rw (trim_end_lem cs rest) (cons_unless_blank_lem c cs solid)

trim_start_lem : (t : Text) → no_blank t ≡ true → trim_start t ≡ t
trim_start_lem [] h = refl
trim_start_lem (c ∷ cs) h = rw (not_and (is_whitespace c) (no_blank cs) h).0 refl

pub trim-no_blank : (t : Text) → no_blank t ≡ true → trim t ≡ t
unfolding trim
trim-no_blank t h = rw (trim_start_lem t h) (trim_end_lem t h)

pub no_blank-append :
    (a b : Text) → no_blank a ≡ true → no_blank b ≡ true → no_blank (a ++ b) ≡ true
no_blank-append [] b h k = k
no_blank-append (c ∷ cs) b h k =
    let (solid, rest) = not_and (is_whitespace c) (no_blank cs) h in
    rw (solid, no_blank-append cs b rest k) refl
