-- ===== src/Keeper/Relay/Replays.antt =====
-- keeper/src/trade/trade.service.ts: a request whose intent was used before.
use leverx.Prelude.{ℕ, ◌≤◌, ◌≡◌, refl, sym, subst, true, not, Option, some, List, arith}
use leverx.Prelude.Tests.{ltb}
use leverx.Prelude.Lists.{All}
use leverx.Prelude.Maps.{get, get-keep_if}
use leverx.Prelude.Texts.{Text, text}
use leverx.Keeper.Effects.{Reply, returned, Session}
use leverx.Keeper.Effects
use leverx.Keeper.Replay.{Store, Use, after_uses, mark_used, is_replayed, prune}
use leverx.Keeper.Replay.Protects.{Spares, is_replayed-mark_used}
use leverx.Keeper.Relay.{
  Served, served, rejected, bad_request, AppAuthPayload, IntentKind, intent_replay_key,
}
use leverx.Keeper.Relay.Auth
use leverx.Keeper.Relay.Auth.{
  Relay, verify_trade_request, verify_checked, assert_intent_not_replayed,
}
use leverx.Keeper.Relay.Trades.{
  mint_kind, redeem_kind, settle_kind, recover_manager_kind, relay_mint, relay_redeem, relay_settle,
  relay_recover_manager,
}

-- The request is refused as replayed, nothing is simulated or submitted, and the other key is still stored
-- with its expiry.
abbrev pub IsRefused :
    {W A : Type 0} → Relay W → Session W → Text → ℕ → Reply (Served A) × Session W → Type 0
IsRefused relay s other other_expires_at r =
    (r.0 ≡ returned (rejected (bad_request (text "intent_replayed"))))
    × (r.1.log ≡ s.log)
    × (get other (relay.used r.1.world) ≡ some other_expires_at)

prune_keeps :
    (now : ℕ) (key : Text) (expires_at : ℕ) (used : Store)
    → now ≤ expires_at
    → get key used ≡ some expires_at
    → get key (prune now used) ≡ some expires_at
unfolding prune
prune_keeps now key expires_at used early found =
    get-keep_if (λ t. not (ltb t now)) key expires_at used found (ground arith)

module _ {W : Type 0} (relay : Relay W) (body : AppAuthPayload) (bearer : Option Text)
    (s : Session W) where
  abbrev pruned_session : Text → Session W
  pruned_session key = record s {
    world = relay.put_used (is_replayed key (relay.sui.now s.world) (relay.used s.world)).1 s.world;
  }

  replayed_request :
      {T : Type 0} (kind : IntentKind T) (key : Text)
      → intent_replay_key relay.host body ≡ served key
      → (is_replayed key (relay.sui.now s.world) (relay.used s.world)).0 ≡ true
      → verify_trade_request relay kind body bearer s
        ≡ (returned (rejected (bad_request (text "intent_replayed"))), pruned_session key)
  unfolding verify_trade_request verify_checked assert_intent_not_replayed Auth.◌>>=◌ Effects.◌>>=◌
      Effects.reading Effects.outside Effects.branch Effects.return
  replayed_request kind key keyed replayed = rw (keyed, replayed) refl

  -- Let the store be read as it was written, and be what it became after the intent's key was marked with
  -- an expiry, by checks up to that expiry and marks of other keys. Up to the expiry all four relays then
  -- refuse a request with that key, without a simulation or a submission, and every other key that is
  -- stored and not expired is still stored.
  pub relays-used :
      (key : Text) (expires_at : ℕ) (uses : List Use) (before : Store) (other : Text)
      (other_expires_at : ℕ)
      → ((w : W) (used : Store) → relay.used (relay.put_used used w) ≡ used)
      → intent_replay_key relay.host body ≡ served key
      → relay.used s.world ≡ after_uses uses (mark_used key expires_at before)
      → All (Spares key expires_at) uses
      → relay.sui.now s.world ≤ expires_at
      → get other (relay.used s.world) ≡ some other_expires_at
      → relay.sui.now s.world ≤ other_expires_at
      → IsRefused relay s other other_expires_at (relay_mint relay body bearer s)
        × IsRefused relay s other other_expires_at (relay_redeem relay body bearer s)
        × IsRefused relay s other other_expires_at (relay_settle relay body bearer s)
        × IsRefused relay s other other_expires_at (relay_recover_manager relay body bearer s)
  unfolding relay_mint relay_redeem relay_settle relay_recover_manager is_replayed Auth.◌>>=◌
      Effects.◌>>=◌ Effects.return
  relays-used key expires_at uses before other other_expires_at reads keyed history spared early
        stored other_early =
      let now = relay.sui.now s.world in
      let replayed : (is_replayed key now (relay.used s.world)).0 ≡ true =
        subst (λ u. (is_replayed key now u).0 ≡ true) (sym history)
          (is_replayed-mark_used key expires_at uses before now spared early) in
      let kept = prune_keeps now other other_expires_at (relay.used s.world) other_early stored in
      let still : get other (relay.used (relay.put_used (prune now (relay.used s.world)) s.world))
          ≡ some other_expires_at =
        rw (reads s.world (prune now (relay.used s.world))) kept in
      (
        rw (replayed_request mint_kind key keyed replayed) (refl, refl, still),
        rw (replayed_request redeem_kind key keyed replayed) (refl, refl, still),
        rw (replayed_request settle_kind key keyed replayed) (refl, refl, still),
        rw (replayed_request recover_manager_kind key keyed replayed) (refl, refl, still),
      )
