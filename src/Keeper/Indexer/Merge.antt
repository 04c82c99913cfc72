-- ===== src/Keeper/Indexer/Merge.antt =====
-- keeper/src/indexer/indexer.service.ts: the merged candidates for liquidation.
use leverx.Prelude.{◌≡◌, refl, ap, true, false, not, ◌&&◌, List, [], ◌∷◌, map, arith, inl, inr}
use leverx.Prelude.Tests.{Bool-cases}
use leverx.Prelude.Texts.{text_eq, text_eq_sound, text_eq_refl}
use leverx.Keeper.Types.{Text, LeveragedPosition}
use leverx.Keeper.Indexer.{seen_before, position_target, merge_candidates}

seen_before_congr :
    (a b : Text) (seen : List Text) → text_eq a b ≡ true → seen_before a seen ≡ seen_before b seen
seen_before_congr a b seen h = ap (λ k. seen_before k seen) (text_eq_sound a b h)

abbrev pub keys : List LeveragedPosition → List Text
keys = map position_target

-- No key stands twice.
abbrev pub Distinct : List LeveragedPosition → Type 0
Distinct [] = Unit
Distinct (p ∷ ps) = (seen_before (position_target p) (keys ps) ≡ false) × Distinct ps

keys-merge :
    (k : Text) (seen : List Text) (ps : List LeveragedPosition)
    → seen_before k (keys (merge_candidates seen ps))
      ≡ (seen_before k (keys ps) && not (seen_before k seen))
unfolding merge_candidates
keys-merge k seen [] = refl
keys-merge k seen (p ∷ ps) = elim (Bool-cases (seen_before (position_target p) seen)) [
  | inl e ↦
      rw e (ground (arith, keys-merge k seen ps, seen_before_congr (position_target p) k seen))
  | inr e ↦ rw e (
      ground (
        arith,
        keys-merge k (position_target p ∷ seen) ps,
        seen_before_congr (position_target p) k seen,
      ))
]

merge-Distinct :
    (seen : List Text) (ps : List LeveragedPosition) → Distinct (merge_candidates seen ps)
unfolding merge_candidates
merge-Distinct seen [] = tt
merge-Distinct seen (p ∷ ps) = elim (Bool-cases (seen_before (position_target p) seen)) [
  | inl e ↦ rw e (merge-Distinct seen ps)
  | inr e ↦ rw e (
    ground (
      arith,
      keys-merge (position_target p) (position_target p ∷ seen) ps,
      text_eq_refl (position_target p),
    ),
    merge-Distinct (position_target p ∷ seen) ps,
  )
]

-- The merged list holds every key of the two lists, no other key, and no key twice.
pub merge_candidates_lem :
    (ps : List LeveragedPosition)
    → Distinct (merge_candidates [] ps)
      × ((k : Text) → seen_before k (keys (merge_candidates [] ps)) ≡ seen_before k (keys ps))
merge_candidates_lem ps = (merge-Distinct [] ps, λ k. ground (arith, keys-merge k [] ps))
