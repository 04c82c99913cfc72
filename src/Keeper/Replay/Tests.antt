-- ===== src/Keeper/Replay/Tests.antt =====
-- keeper/src/trade/trade-replay.store.ts at concrete inputs.
use leverx.Prelude.{◌≡◌, refl, true, false, none, List, [], ◌∷◌, arith}
use leverx.Prelude.Texts.{Text, trim}
use leverx.Keeper.Replay.{
  empty_store, is_replayed, mark_used, is_live, expiry_ok, assert_trade_intent_expiry, Use, check,
  mark, after_uses,
}
use leverx.Keeper.Replay.Refines.{after_uses_refines, memory_of, steps, forgets_below}
use leverx.Keeper.Replay.Protects.{is_replayed-mark_used, is_replayed-within_skew}

abbrev signature : Text
signature = b's' ∷ b'i' ∷ b'g' ∷ []

-- A check in between, and another signature.
abbrev between : List Use
between = check signature 150_000 ∷ mark (b'o' ∷ []) 300_000 ∷ []

is_replayed-mark_used_example :
    (is_replayed signature 200_000 (after_uses between (mark_used signature 200_000 empty_store))).0
    ≡ true
unfolding trim
is_replayed-mark_used_example =
    is_replayed-mark_used signature 200_000 between empty_store 200_000 (omega arith, (refl, tt))
      (omega arith)

is_replayed-within_skew_example :
    (assert_trade_intent_expiry 200_000 210_000 ≡ expiry_ok)
    × ((is_replayed signature 210_000
          (mark_used signature 200_000 (after_uses between empty_store))).0
        ≡ false)
is_replayed-within_skew_example =
    is_replayed-within_skew signature 200_000 between 210_000 (omega arith) (omega arith)

after_uses_refines_example :
    (memory_of (after_uses between empty_store) ≡ steps between (λ key. none))
    × ((is_replayed signature 200_000 (after_uses between empty_store)).0
        ≡ is_live 200_000 (forgets_below 200_000 (steps between (λ key. none) (trim signature))))
after_uses_refines_example = after_uses_refines between signature 200_000
