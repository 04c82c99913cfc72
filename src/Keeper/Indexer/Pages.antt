-- ===== src/Keeper/Indexer/Pages.antt =====
-- keeper/src/indexer/indexer.service.ts, `fetchAllPages`.
use leverx.Prelude.{
  ℕ, zero, suc, ◌+◌, ◌-◌, ◌≤◌, ◌<◌, ◌≡◌, refl, sym, ap, ◌∙◌, true, false, not, ◌||◌, List, [], ◌∷◌,
  ◌++◌, arith, inl, inr,
}
use native.Mathlib.Nat.{zero-add}
use leverx.Prelude.Tests.{ltb, Bool-cases, ltb→lt}
use leverx.Prelude.Lists.{length, take, drop, length-take}
use leverx.Keeper.Effects.{Reply, returned, Session, Event, return, outside, then_, ◌>>=◌}
use leverx.Keeper.Effects.Rules.{Ensures, bind_rule, outside_rule, return_rule}
use leverx.Keeper.Indexer.{Page, is_empty, pages_loop, fetch_all_pages}

module _ {ℓ} {A : Type ℓ} where
  take_nil : (n : ℕ) → take {A = A} n [] ≡ []
  take_nil zero = refl
  take_nil (suc n) = refl

  take-append-take-drop :
      (o p : ℕ) (xs : List A) → take o xs ++ take p (drop o xs) ≡ take (o + p) xs
  take-append-take-drop zero p xs = rw zero-add
  take-append-take-drop (suc o) p [] = take_nil p ∙ sym (take_nil (suc o + p))
  take-append-take-drop (suc o) p (x ∷ xs) =
      let e : suc o + p ≡ suc (o + p) = omega arith in
      rw e (ap (◌∷◌ x) (take-append-take-drop o p xs))

  take_all : (n : ℕ) (xs : List A) → length xs ≤ n → take n xs ≡ xs
  take_all zero [] h = refl
  take_all zero (x ∷ xs) h = absurd (omega arith)
  take_all (suc n) [] h = refl
  take_all (suc n) (x ∷ xs) h = ap (◌∷◌ x) (take_all n xs (omega arith))

  take-take : (m n : ℕ) (xs : List A) → m ≤ n → take m (take n xs) ≡ take m xs
  take-take zero n xs h = refl
  take-take (suc m) zero xs h = absurd (omega arith)
  take-take (suc m) (suc n) [] h = refl
  take-take (suc m) (suc n) (x ∷ xs) h = ap (◌∷◌ x) (take-take m n xs (omega arith))

  length-drop : (n : ℕ) (xs : List A) → length (drop n xs) ≡ length xs - n
  length-drop zero xs = omega arith
  length-drop (suc n) [] = omega arith
  length-drop (suc n) (x ∷ xs) = omega (arith, length-drop n xs)

not_empty : {T : Type 0} (xs : List T) → 0 < length xs → is_empty xs ≡ false
not_empty [] h = absurd (omega arith)
not_empty (x ∷ xs) h = refl

-- The page of a list, as the indexer's interface promises it.
abbrev page_of : {T : Type 0} → List T → ℕ → ℕ → Page T
page_of xs offset limit = record {
  items = take limit (drop offset xs);
  limit = limit;
  offset = offset;
  has_more = ltb (offset + limit) (length xs);
}

module _ {W T : Type 0} (fetch_page : ℕ → ℕ → W → Reply (Page T) × W) where
  -- Paging is silent: it only talks to the indexer.
  pages_loop_rule :
      (P : List Event → Type 0) (fuel page_size max_items : ℕ) (items : List T) (offset : ℕ)
      → Ensures P (pages_loop fetch_page fuel page_size max_items items offset) (λ _. P) P
  unfolding pages_loop
  pages_loop_rule P zero page_size max_items items offset = return_rule _ λ l p. p
  pages_loop_rule P (suc fuel) page_size max_items items offset =
      elim (Bool-cases (ltb (length items) max_items)) [
        | inr e ↦ rw e (return_rule _ λ l p. p)
        | inl e ↦ rw e (
            bind_rule (λ _. P) (outside_rule _ (λ l p a. p) (λ l p. p))
              λ page. elim (Bool-cases (not page.has_more || is_empty page.items)) [
                | inl f ↦ rw f (return_rule _ λ l p. p)
                | inr f ↦ rw f (pages_loop_rule P fuel page_size max_items _ _)
              ])
      ]

  pub fetch_all_pages_rule :
      (P : List Event → Type 0) (page_size max_items : ℕ)
      → Ensures P (fetch_all_pages fetch_page page_size max_items) (λ _. P) P
  unfolding fetch_all_pages
  fetch_all_pages_rule P page_size max_items =
      bind_rule (λ _. P) (pages_loop_rule P max_items page_size max_items [] 0)
        λ items. return_rule _ λ l p. p

  module _ (xs : List T) (page_size : ℕ)
      (faithful : (offset : ℕ) (w : W)
        → fetch_page offset page_size w ≡ (returned (page_of xs offset page_size), w))
      (positive : 0 < page_size) (max_items : ℕ) where
    more :
        (offset : ℕ)
        → ltb (offset + page_size) (length xs) ≡ true
        → 0 < length (take page_size (drop offset xs))
    more offset f =
        ground (arith, length-take page_size (drop offset xs), length-drop offset xs, ltb→lt _ _ f)

    loop_complete :
        (fuel offset : ℕ) (s : Session W)
        → max_items ≤ fuel + offset
        → (r : List T) × (pages_loop fetch_page fuel page_size max_items (take offset xs) offset s
            ≡ (returned r, s))
          × (take max_items r ≡ take max_items xs)
    unfolding pages_loop return outside ◌>>=◌
    loop_complete zero offset s h =
        (take offset xs, refl, take-take max_items offset xs (omega arith))
    loop_complete (suc fuel) offset s h =
        elim (Bool-cases (ltb (length (take offset xs)) max_items)) [
          | inr e ↦ rw e (
            take offset xs,
            refl,
            take-take max_items offset xs (ground (arith, length-take offset xs)),
          )
          | inl e ↦
              rw (e, faithful offset s.world)
                (elim (Bool-cases (ltb (offset + page_size) (length xs))) [
                  | inr f ↦
                      rw (f, take-append-take-drop offset page_size xs)
                        (
                          take (offset + page_size) xs,
                          refl,
                          ap (take max_items) (take_all (offset + page_size) xs (ground arith)),
                        )
                  | inl f ↦
                      rw
                        (
                          f,
                          not_empty _ (more offset f),
                          take-append-take-drop offset page_size xs,
                          then_,
                        )
                        (loop_complete fuel (offset + page_size) s (omega arith))
                ])
        ]

    -- If the indexer serves the pages of one list, paging returns its first `max_items` items, all of
    -- them if there are no more, whatever the positive page size.
    pub fetch_all_pages_complete :
        (s : Session W)
        → fetch_all_pages fetch_page page_size max_items s ≡ (returned (take max_items xs), s)
    unfolding fetch_all_pages ◌>>=◌ return
    fetch_all_pages_complete s =
        let (r, run, same) = loop_complete max_items 0 s (omega arith) in rw (run, same)
