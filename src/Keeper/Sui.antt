-- ===== src/Keeper/Sui.antt =====
-- keeper/src/sui/sui.service.ts as its callers see it: the operations that they await, over an
-- abstract world, and the two of them that leave a trace in the log.
pub mod Guard
use Prim.Native.String.{String}
use leverx.Prelude.{ℕ, Bool, true, false, List, [], ◌∷◌, Option, none, some}
use leverx.Keeper.Types.{Text, KeeperConfig}
use leverx.Keeper.Ptb.{Transaction, Built, built, invalid_u64, unsafe_u64}
use leverx.Keeper.RpcErrors.{RpcError}
use leverx.Keeper.RpcFailover.{
  Endpoint, Outcome, answered, failed_with, Failover, State, Invoked, resolved, rejected, invoke,
}
use leverx.Keeper.Effects.{
  Reply, returned, thrown, Event, simulated, submitted, confirmed, Session, M, reading, branch,
  return, throw, note, outside, ◌>>=◌, ◌>>◌,
}

pub data Simulation : Type 0 where
  sim_ok : Simulation
  sim_failed : String → Simulation

pub data BoolRead : Type 0 where
  bool_ok : Bool → BoolRead
  bool_failed : String → BoolRead

pub record TaskReadiness : Type 0 where
  pub tx_ready : Bool
  pub limit_order : Bool
  pub liquidation : Bool
  pub trigger : Bool
  pub force_close : Bool
  pub missing : List String

-- What the constructor of the failover is given, and the fields that it changes.
pub record RpcSettings : Type 0 where
  pub has_fallback : Bool
  pub rest_ms : ℕ
  pub min_interval_ms : ℕ
  pub max_retries : ℕ
  pub retry_base_ms : ℕ
  pub retry_max_ms : ℕ

pub record RpcState : Type 0 where
  pub active : Endpoint
  pub fallback_until_ms : Option ℕ
  pub last_call_ms : ℕ

-- The outside operations. Reading the clock and the service's fields is immediate.
pub record Sui (W : Type 0) : Type 0 where
  pub now : W → ℕ
  pub get_config : W → KeeperConfig
  pub get_task_readiness : W → TaskReadiness
  pub get_final_window_ms : W → ℕ
  pub is_trading_paused : W → Bool
  pub refresh_protocol_state : W → Reply (Unit {0}) × W
  -- the SDK refuses an argument that it cannot serialise
  pub refuses : Transaction → Option String
  pub inspect : Transaction → W → Reply Simulation × W
  pub inspect_bool : Transaction → W → Reply BoolRead × W
  pub inspect_u64 : Transaction → W → Reply (Option ℕ) × W
  pub inspect_u64_pair : Transaction → W → Reply (Option (ℕ × ℕ)) × W
  pub inspect_u64_quad : Transaction → W → Reply (Option (ℕ × ℕ × ℕ × ℕ)) × W
  pub inspect_id : Transaction → W → Reply (Option Text) × W
  -- the endpoints of the RPC failover, its settings, and `setTimeout`
  pub rpc_settings : RpcSettings
  pub get_rpc : W → RpcState
  pub put_rpc : RpcState → W → W
  pub sleep : ℕ → W → W
  pub has_keypair : W → Bool
  -- one attempt: gas sponsorship, or building and signing and the status in the answer
  pub sign_and_execute : Endpoint → Transaction → W → Outcome Text × W
  pub error_message : RpcError → String

abbrev pub is_sim_ok : Simulation → Bool
is_sim_ok sim_ok = true
is_sim_ok (sim_failed e) = false

abbrev pub serialise : {W : Type 0} → Transaction → Option String → M W Transaction
serialise tx none = return tx
serialise tx (some e) = throw e

module _ {W : Type 0} (sui : Sui W) where
  -- The synchronous construction of a transaction, which may throw.
  unfoldable pub transaction : Built Transaction → M W Transaction
  transaction (built tx) = serialise tx (sui.refuses tx)
  transaction (invalid_u64 label) = throw "invalid_u64"
  transaction (unsafe_u64 label) = throw "unsafe_u64"

  unfoldable pub try_dev_inspect : Transaction → M W Simulation
  try_dev_inspect tx = do r ← outside (sui.inspect tx); note (simulated tx (is_sim_ok r)); return r

  unfoldable pub dev_inspect : Transaction → M W Bool
  unfolding try_dev_inspect
  dev_inspect tx = do r ← try_dev_inspect tx; return (is_sim_ok r)

  -- One attempt is submitted, and confirmed if the node answers with a digest. Of an attempt that fails it
  -- is not known whether it was executed.
  abbrev pub after_submission :
      Transaction → List Event → Outcome Text × W → Outcome Text × Session W
  after_submission tx l (answered digest, w) =
      (answered digest, record { world = w; log = confirmed tx digest ∷ l })
  after_submission tx l (failed_with err, w) = (failed_with err, record { world = w; log = l })

  abbrev pub submit_once : Transaction → Endpoint → Session W → Outcome Text × Session W
  submit_once tx endpoint s =
      after_submission tx (submitted tx ∷ s.log) (sui.sign_and_execute endpoint tx s.world)

  -- `invokeRpc` of an attempt: the retries of the failover, over the session.
  abbrev pub rpc_of : Transaction → Failover (Session W) Text
  rpc_of tx = record {
    has_fallback = sui.rpc_settings.has_fallback;
    rest_ms = sui.rpc_settings.rest_ms;
    min_interval_ms = sui.rpc_settings.min_interval_ms;
    max_retries = sui.rpc_settings.max_retries;
    retry_base_ms = sui.rpc_settings.retry_base_ms;
    retry_max_ms = sui.rpc_settings.retry_max_ms;
    now = λ s. sui.now s.world;
    sleep = λ ms s. record s { world = sui.sleep ms s.world };
    call = submit_once tx;
  }

  abbrev pub rpc_state : Session W → State (Session W)
  rpc_state s = record {
    active = (sui.get_rpc s.world).active;
    fallback_until_ms = (sui.get_rpc s.world).fallback_until_ms;
    last_call_ms = (sui.get_rpc s.world).last_call_ms;
    world = s;
    calls = [];
  }

  -- The session after the invocation, with the failover as it was left.
  abbrev pub session_after : State (Session W) → Session W
  session_after st = record {
    world =
        sui.put_rpc
          (record {
            active = st.active;
            fallback_until_ms = st.fallback_until_ms;
            last_call_ms = st.last_call_ms;
          })
          st.world.world;
    log = st.world.log;
  }

  abbrev pub reply_of : Invoked Text × State (Session W) → Reply Text × Session W
  reply_of (resolved digest, st) = (returned digest, session_after st)
  reply_of (rejected (some err), st) = (thrown (sui.error_message err), session_after st)
  reply_of (rejected none, st) = (thrown "undefined", session_after st)

  unfoldable pub submit_with_retries : Transaction → M W Text
  unfolding invoke
  submit_with_retries tx s = reply_of (invoke (rpc_of tx) (rpc_state s))

  unfoldable pub execute : Transaction → M W Text
  unfolding submit_with_retries
  execute tx =
      reading sui.has_keypair
        λ ready. branch ready (submit_with_retries tx) (throw "keeper signer not configured")
