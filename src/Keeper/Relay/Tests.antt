-- ===== src/Keeper/Relay/Tests.antt =====
-- The relays at a concrete request, with a host whose signatures all verify and whose base64 is plain
-- text. The state is the time and the replay store.
use leverx.Prelude.Tests.{if◌then◌else◌, ◌==◌}
use leverx.Prelude.Lists.{length}
use leverx.Prelude.{ℕ, ◌+◌, refl, false, true, none, some, List, [], ◌∷◌, arith}
use leverx.Prelude.Int.{pos}
use leverx.Prelude.Texts.{Text, text, trim}
use leverx.Prelude.Maps.{get, keep_if, set}
use leverx.Keeper.Relay.Replays.{IsRefused, relays-used}
use leverx.Keeper.Replay.{Store, Use, check, mark, after_uses, mark_used, is_replayed, prune}
use leverx.Keeper.Jwt.{whole}
use leverx.Keeper.Jwt.Sessions.Tests.{crypto}
use leverx.Keeper.Effects.{Reply, returned, Session}
use leverx.Keeper.RpcFailover.{answered, failed_with}
use leverx.Keeper.Sui.{Sui}
use leverx.Keeper.Samples
use leverx.Keeper.Relay.{AppAuthPayload, Host, intent_replay_key, nonblank}
use leverx.Keeper.Relay.Auth.{Relay}
use leverx.Keeper.Relay.Trades.{relay_mint, relay_redeem, relay_settle, relay_recover_manager}
use leverx.Client.Intents.{
  build_mint_intent_message, build_redeem_intent_message, build_settle_intent_message,
  build_recover_manager_intent_message,
}
use leverx.Client.Intents.Tests.{mint, redeem, settle, recover, owner, loose_owner}

pub record World : Type 0 where
  pub time : ℕ
  pub store : Store

abbrev timed : {A : Type 0} → Store → Reply A × ℕ → Reply A × World
timed store (r, t) = (r, record { time = t; store = store })

abbrev lift : {A : Type 0} → (ℕ → Reply A × ℕ) → World → Reply A × World
lift f w = timed w.store (f w.time)

abbrev sui : Sui World
sui = record {
  now = λ w. w.time;
  get_config = λ w. Samples.config;
  get_task_readiness = λ w. Samples.sui.get_task_readiness w.time;
  get_final_window_ms = λ w. 1_800_000;
  is_trading_paused = λ w. false;
  refresh_protocol_state = lift Samples.sui.refresh_protocol_state;
  refuses = Samples.sui.refuses;
  inspect = λ tx. lift (Samples.sui.inspect tx);
  inspect_bool = λ tx. lift (Samples.sui.inspect_bool tx);
  inspect_u64 = λ tx w. (returned (some (if length tx == 1 then 2_000_000 else 0)), w);
  inspect_u64_pair = λ tx. lift (Samples.sui.inspect_u64_pair tx);
  inspect_u64_quad = λ tx. lift (Samples.sui.inspect_u64_quad tx);
  inspect_id = λ tx. lift (Samples.sui.inspect_id tx);
  rpc_settings = Samples.sui.rpc_settings;
  get_rpc = λ w. Samples.sui.get_rpc w.time;
  put_rpc = λ st w. w;
  sleep = λ ms w. record w { time = w.time + ms };
  has_keypair = λ w. true;
  sign_and_execute = λ endpoint tx w. (
    if w.time == 1_699_999_900_000
        then failed_with (record { message = text "fetch failed"; status = none })
        else answered (b'd' ∷ []),
    w,
  );
  error_message = λ err. "rpc error";
}

abbrev host : Host World
host = record {
  crypto = crypto;
  secret = [];
  sha256_hex = λ t. t;
  from_base64 = some;
  text_decoder = λ bytes. bytes;
  verify_personal_message_signature = λ bytes signature address network w. (returned tt, w);
}

abbrev relay : Relay World
relay = record {
  sui = sui;
  host = host;
  describe = λ e. none;
  network = λ w. text "testnet";
  signer = λ w. none;
  keeper_address = λ w. none;
  fetch_accounts = λ address limit w.
      (returned (record { account_id = owner; predict_manager_id = some owner } ∷ []), w);
  used = λ w. w.store;
  put_used = λ store w. record w { store = store };
}

abbrev body : AppAuthPayload
body = record {
  address = some loose_owner;
  expires_at_ms = some (whole (pos 1_700_000_000_000));
  message_bytes = some (build_mint_intent_message mint);
  signature = some (text "sig");
  token = none;
}

abbrev session : Session World
session = record { world = record { time = 1_699_999_900_000; store = [] }; log = [] }

abbrev body_of : Text → AppAuthPayload
body_of message = record body { message_bytes = some message }

abbrev redeem_body : AppAuthPayload
redeem_body = body_of (build_redeem_intent_message redeem)

abbrev settle_body : AppAuthPayload
settle_body = body_of (build_settle_intent_message settle)

abbrev recover_body : AppAuthPayload
recover_body = body_of (build_recover_manager_intent_message recover)

-- The same request again, after its intent was marked, and then another one's.
abbrev between : List Use
between = check (text "sig") 1_699_999_940_000 ∷ mark (text "other") 1_700_000_100_000 ∷ []

abbrev later : Session World
later = record {
  world = record {
    time = 1_699_999_950_000;
    store = after_uses between (mark_used (text "sig") 1_700_000_000_000 []);
  };
  log = [];
}

relays-used_example :
    IsRefused relay later (text "other") 1_700_000_100_000 (relay_mint relay body none later)
    × IsRefused relay later (text "other") 1_700_000_100_000 (relay_redeem relay body none later)
    × IsRefused relay later (text "other") 1_700_000_100_000 (relay_settle relay body none later)
    × IsRefused relay later
        (text "other")
        1_700_000_100_000
        (relay_recover_manager relay body none later)
unfolding intent_replay_key nonblank trim is_replayed prune keep_if get after_uses mark_used set
relays-used_example =
    relays-used relay body none later (text "sig") 1_700_000_000_000 between [] (text "other")
      1_700_000_100_000 (λ w used. refl) refl refl (omega arith, (refl, tt)) (omega arith) refl
      (omega arith)
