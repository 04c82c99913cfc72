-- ===== src/Keeper/Relay/Outcomes.antt =====
-- keeper/src/trade/trade.service.ts: the outcome of each relay, from any state.
use leverx.Prelude.{ℕ, ◌≡◌, Option, List}
use leverx.Prelude.Texts.{Text}
use leverx.Keeper.Effects.{Event, Reply, Session}
use leverx.Keeper.Effects.Rules.{Post}
use leverx.Keeper.Replay.{Store}
use leverx.Keeper.Types.{KeeperConfig}
use leverx.Keeper.Ptb.{Transaction}
use leverx.Keeper.Messages.Trade.{IntentBase}
use leverx.Keeper.Relay.{Served, AppAuthPayload, IntentKind}
use leverx.Keeper.Relay.Auth.{Relay}
use leverx.Keeper.Relay.Safety.{OnServed}
use leverx.Keeper.Relay.Safety.Submit.{tries, IsUnconfirmed}
use leverx.Keeper.Relay.Safety.Relays.{Relayed}
use leverx.Keeper.Relay.Trades.{TradeRelayResponse}

-- What becomes of a request at that time. An answer carries the digest of a transaction that the node
-- confirmed: the one built from an intent that the body carries and that is authorised, on an account that
-- is owned. A refusal and an error come with no confirmation.
abbrev pub OnRelay :
    {W T : Type 0}
    → Relay W
    → IntentKind T
    → (T → IntentBase)
    → (KeeperConfig → T → Transaction)
    → AppAuthPayload
    → Option Text
    → ℕ
    → List Event
    → Reply (Served TradeRelayResponse) × Session W
    → Type 0
OnRelay relay kind base_of build body bearer now before =
    Post
      (OnServed (λ r. Relayed relay kind base_of build body bearer now before r.digest)
        (IsUnconfirmed (tries relay) before))
      (IsUnconfirmed (tries relay) before)

module _ {W : Type 0} (relay : Relay W)
    (ticks : (w : W) (used : Store) → relay.sui.now (relay.put_used used w) ≡ relay.sui.now w)
    (bearer : Option Text) (s : Session W) where
  abbrev now : ℕ
  now = relay.sui.now s.world
