-- ===== src/Keeper/Samples.antt =====
-- A configuration, a position, an order and a world that answers every request, for the tests.
use leverx.Prelude.{ℕ, ◌+◌, true, false, none, some, List, [], ◌∷◌}
use leverx.Prelude.Tests.{ltb}
use leverx.Prelude.Lists.{length, take, drop}
use leverx.Keeper.Types.{
  KeeperConfig, LeveragedPosition, LimitMintOrder, PositionKeyArgs, open_status,
}
use leverx.Keeper.Ptb.{Arg, pure_u64, Transaction}
use leverx.Prelude.Int.{pos}
use leverx.Keeper.TradeMath.{cost_from_premium_per_unit}
use leverx.Keeper.Effects.{Reply, returned, Session}
use leverx.Keeper.RpcFailover.{primary, answered}
use leverx.Keeper.Sui.{Sui, sim_ok, bool_ok}
use leverx.Keeper.Indexer.{Indexer, Page}
use leverx.Keeper.Tasks.{Services}
use leverx.Keeper.Orchestrator.{Orchestrator}

abbrev pub config : KeeperConfig
config = record {
  package_id = 1 ∷ [];
  registry_id = 2 ∷ [];
  vault_id = 3 ∷ [];
  fee_collector_id = 4 ∷ [];
  predict_id = 5 ∷ [];
  predict_package_id = 6 ∷ [];
  quote_type = 7 ∷ [];
}

-- A leveraged position that expires at 10,000,000.
abbrev pub position : LeveragedPosition
position = record {
  position_key = 8 ∷ [];
  account_id = 9 ∷ [];
  predict_manager_id = some (10 ∷ []);
  oracle_id = 11 ∷ [];
  expiry_ms = 10_000_000;
  strike = 100;
  higher_strike = 0;
  is_up = true;
  is_range = false;
  open_quantity = 3_000_000;
  margin_quote = 1_000_000;
  borrow_quote = 1_000_000;
  status = open_status;
  close_surplus_quote = 0;
  close_source = none;
  leverx_custody_complete = none;
  external_redeem_payout_quote = none;
  custody_recovered_quote = none;
  action_hints = none;
}

abbrev pub order : LimitMintOrder
order = record {
  position_key = 8 ∷ [];
  account_id = 9 ∷ [];
  oracle_id = 11 ∷ [];
  expiry_ms = 10_000_000;
  strike = 100;
  higher_strike = 0;
  is_up = true;
  is_range = false;
  quantity = 1_000_000;
  leverage_bps = 10_000;
  limit_premium_per_unit = 600_000_000;
  slippage_bps = 100;
}

abbrev pub key : PositionKeyArgs
key = record {
  oracle_id = 11 ∷ [];
  expiry_ms = 10_000_000;
  strike = 100;
  higher_strike = 0;
  is_up = true;
  is_range = false;
}

-- The fourth argument of the second command, which is the quantity of a request for an ask.
abbrev pub asked_quantity : Transaction → ℕ
asked_quantity (m ∷ c ∷ cs) = fourth c.arguments
  where
    fourth : List Arg → ℕ
    fourth (a ∷ b ∷ d ∷ pure_u64 (pos n) ∷ rest) = n
    fourth _ = 0
asked_quantity _ = 0

-- The world is the time. Every unit is asked and bid at half a dollar, every simulation succeeds and
-- every submission is confirmed.
abbrev pub sui : Sui ℕ
sui = record {
  now = λ t. t;
  get_config = λ t. config;
  get_task_readiness = λ t. record {
    tx_ready = true;
    limit_order = true;
    liquidation = true;
    trigger = true;
    force_close = true;
    missing = [];
  };
  get_final_window_ms = λ t. 1_800_000;
  is_trading_paused = λ t. false;
  refresh_protocol_state = λ t. (returned tt, t);
  refuses = λ tx. none;
  inspect = λ tx t. (returned sim_ok, t);
  inspect_bool = λ tx t. (returned (bool_ok true), t);
  inspect_u64 = λ tx t. (returned (some 2_000_000), t);
  inspect_u64_pair = λ tx t. (
    returned (some (500_000_000, cost_from_premium_per_unit 500_000_000 (asked_quantity tx))),
    t,
  );
  inspect_u64_quad = λ tx t. (returned (some (450_000_000, 0, 100, 0)), t);
  inspect_id = λ tx t. (returned (some (10 ∷ [])), t);
  rpc_settings = record {
    has_fallback = true;
    rest_ms = 60_000;
    min_interval_ms = 0;
    max_retries = 3;
    retry_base_ms = 500;
    retry_max_ms = 8_000;
  };
  get_rpc = λ t. record { active = primary; fallback_until_ms = none; last_call_ms = 0 };
  put_rpc = λ st t. t;
  sleep = λ ms t. t + ms;
  has_keypair = λ t. true;
  sign_and_execute = λ endpoint tx t. (answered (b'd' ∷ []), t + 1);
  error_message = λ err. "rpc error";
}

-- One page of a list.
abbrev pub serve : {A : Type 0} → List A → ℕ → ℕ → ℕ → Reply (Page A) × ℕ
serve xs offset limit t = (
  returned (record {
    items = take limit (drop offset xs);
    limit = limit;
    offset = offset;
    has_more = ltb (offset + limit) (length xs);
  }),
  t,
)

abbrev pub indexer : Indexer ℕ
indexer = record {
  fetch_positions = λ q. serve (position ∷ []);
  fetch_limit_orders = λ q. serve (order ∷ []);
  fetch_account_manager = λ account t. (returned none, t);
}

abbrev pub services : Services ℕ
services = record {
  sui = sui;
  indexer = indexer;
  describe = λ e. none;
  oracle_state = λ oracle t. (returned (some false), t);
}

abbrev pub orchestrator : Orchestrator ℕ
orchestrator = record {
  services = services;
  limits = record { limit_fills = 5; liquidations = 5; force_closes = 5; triggers = 5 };
  notifies = false;
  notify = λ kind results t. (returned tt, t);
}

abbrev pub session : Session ℕ
session = record { world = 4_000_000; log = [] }
