-- ===== src/Prelude/Texts/Split.antt =====
-- `split`, `join` and `indexOf` with one separating code unit.
use leverx.Prelude.Tests.{◌==◌, if◌then◌else◌}
use leverx.Prelude.Texts.{Text}
use Prim.Native.Nat.{ℕ}
use mathlib.Core.Path.{◌≡◌, refl}
use mathlib.Core.List.{List, [], ◌∷◌, ◌++◌}
use mathlib.Core.Option.{Option, none, some}
use mathlib.Core.Bool.{Bool, true, not, ◌&&◌}
use native.Mathlib.Omega.{arith}

abbrev pub cons_first : ℕ → List Text → List Text
cons_first c [] = (c ∷ []) ∷ []
cons_first c (t ∷ ts) = (c ∷ t) ∷ ts

unfoldable pub split : ℕ → Text → List Text
split sep [] = [] ∷ []
split sep (c ∷ cs) = let rest = split sep cs in if c == sep then [] ∷ rest else cons_first c rest

unfoldable pub join : ℕ → List Text → Text
join sep [] = []
join sep (t ∷ []) = t
join sep (t ∷ u ∷ ts) = t ++ (sep ∷ join sep (u ∷ ts))

abbrev pub cons_key : ℕ → Option (Text × Text) → Option (Text × Text)
cons_key c none = none
cons_key c (some (key, value)) = some (c ∷ key, value)

-- `line.slice(0, eq)` and `line.slice(eq + 1)` for `eq = line.indexOf(sep)`; none when that is -1.
unfoldable pub cut : ℕ → Text → Option (Text × Text)
cut sep [] = none
cut sep (c ∷ cs) = let rest = cut sep cs in if c == sep then some ([], cs) else cons_key c rest

-- The code unit does not occur in the text.
abbrev pub lacks : ℕ → Text → Bool
lacks sep [] = true
lacks sep (c ∷ cs) = not (c == sep) && lacks sep cs

abbrev pub all_lack : ℕ → List Text → Bool
all_lack sep [] = true
all_lack sep (t ∷ ts) = lacks sep t && all_lack sep ts

split_rest :
    (sep : ℕ) (t rest : Text)
    → lacks sep t ≡ true
    → split sep (t ++ (sep ∷ rest)) ≡ t ∷ split sep rest
unfolding split
split_rest sep [] rest h = ground arith
split_rest sep (c ∷ cs) rest h = ground (arith, split_rest sep cs rest)

split_last : (sep : ℕ) (t : Text) → lacks sep t ≡ true → split sep t ≡ t ∷ []
unfolding split
split_last sep [] h = refl
split_last sep (c ∷ cs) h = ground (arith, split_last sep cs)

-- Lines without the separator are read back.
pub split-join :
    (sep : ℕ) (t : Text) (ts : List Text)
    → all_lack sep (t ∷ ts) ≡ true
    → split sep (join sep (t ∷ ts)) ≡ t ∷ ts
unfolding join
split-join sep t [] h = ground (arith, split_last sep t)
split-join sep t (u ∷ ts) h =
    ground (arith, split_rest sep t (join sep (u ∷ ts)), split-join sep u ts)

-- A key without the separator is cut off.
pub cut_lem :
    (sep : ℕ) (key value : Text)
    → lacks sep key ≡ true
    → cut sep (key ++ (sep ∷ value)) ≡ some (key, value)
unfolding cut
cut_lem sep [] value h = ground arith
cut_lem sep (c ∷ cs) value h = ground (arith, cut_lem sep cs value)

pub lacks-append :
    (sep : ℕ) (a b : Text) → lacks sep a ≡ true → lacks sep b ≡ true → lacks sep (a ++ b) ≡ true
lacks-append sep [] b h k = k
lacks-append sep (c ∷ cs) b h k = ground (arith, lacks-append sep cs b)
