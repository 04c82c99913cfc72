-- ===== src/Lib.antt =====
-- LeverX is a leveraged trading protocol for prediction markets on Sui. This library models its keeper
-- (keeper/src), the service that maintains positions: it fills and expires limit orders, liquidates,
-- closes debt around an expiry, fires take-profit and stop-loss triggers, and relays trades that users
-- signed. Paths below are from the root of the repository.
--
-- Parts, in the order in which they use one another:
--
-- Prelude: shared names. Prelude/Tests has Boolean tests and conditionals, Prelude/Lists lists over the
-- native numbers, Prelude/Int signed integers, Prelude/Texts strings as lists of bytes with `trim`, `split`
-- and `join`, Prelude/Decimal the printing and reading of naturals, Prelude/Numbers the `Number(text)` of
-- JavaScript with its rounding, Prelude/Maps the `Map` of JavaScript.
--
-- Keeper/Constants and Keeper/Types: keeper/src/config/constants.ts, and the records of
-- keeper/src/indexer/indexer.types.ts, keeper/src/keeper/keeper.types.ts and
-- keeper/src/config/keeper.config.ts that the modelled code reads.
--
-- Keeper/TradeMath: keeper/src/config/trade-math.ts, function by function (applySlippageBps is
-- apply_slippage_bps, and so on); Sizing, Window and Debt hold its theorems.
--
-- Keeper/Ptb: keeper/src/sui/ptb-builder.service.ts. A transaction is the list of its Move calls; Maintenance
-- has the transactions of the tasks, Relay those of relayed trades, Reads those that are only inspected,
-- Targets the list of keeper/src/sui/move-targets.ts. Request names the transactions that are signed, for
-- the theorems in Allowed and Scope.
--
-- Keeper/Effects: asynchronous code as explicit state passing. A session is an abstract world and a log of
-- simulations, submissions and confirmations; a promise resolves (returned) or rejects (thrown).
-- Effects/Rules has the program logic.
--
-- Keeper/Sui: the operations of keeper/src/sui/sui.service.ts that callers await. tryDevInspect, devInspect
-- and execute are defined over the log, and execute makes its attempts inside the retries of the RPC failover
-- (Keeper/RpcFailover), so that an attempt whose answer is lost may be followed by another one; whether it was
-- executed is not known to the keeper. The inspections that decode a value, the clock and the fields of the
-- service are operations of the world, a record that every theorem takes as a parameter. Sui/Guard says what
-- it means that a submission follows a successful simulation, and which digests are confirmed. Keeper/Readiness is getTaskReadiness
-- of the same service, and Keeper/Inspections how it decodes the bytes that an inspection returned; in
-- Keeper/Sui these reads are operations of the world, already decoded.
--
-- Keeper/Indexer: paging and the liquidation candidates of keeper/src/indexer/indexer.service.ts. The
-- requests are operations of the world.
--
-- Keeper/Quotes: keeper/src/sui/predict-quote.service.ts.
--
-- Keeper/Tasks: the services of keeper/src/tasks. LimitOrders is limit-order.service.ts (run), Triggers is
-- trigger.service.ts (run_triggers), Liquidations is liquidation.service.ts (run_liquidations), ForceCloses
-- is force-close.service.ts (run_force_closes). The body of a loop is a definition of its own, try_fill for
-- instance, with `none` for an iteration that reports nothing.
--
-- Keeper/Orchestrator: keeper/src/tasks/keeper-orchestrator.service.ts; run_kind is run, and Locks has the runs
-- that overlap in time as a step relation.
--
-- Keeper/RpcErrors and Keeper/RpcFailover: keeper/src/sui/sui-rpc-errors.ts and
-- keeper/src/sui/sui-rpc-failover.ts, with invoke, its retries and its two endpoints (Rules has what an invocation keeps of the world). Keeper/Custody:
-- keeper/src/indexer/position-custody.ts. Keeper/Protocol: keeper/src/config/protocol-resolvers.ts; the
-- overrides are applied to the configuration as getConfig of sui.service.ts does.
--
-- Keeper/Replay: keeper/src/trade/trade-replay.store.ts, with assertTradeIntentExpiry of
-- keeper/src/trade/trade-message.ts; Protects has what it protects, Refines its view as a memory without
-- order. Keeper/RateLimit: keeper/src/auth/rate-limit.service.ts.
--
-- Keeper/Messages: the signed messages of keeper/src/trade/trade-message.ts (Trade reads them, Build prints
-- them, Lines has their lines and fields) and of keeper/src/manager/manager-message.ts (Manager).
--
-- Keeper/Jwt: keeper/src/auth/app-jwt.service.ts and parse-bearer-token.ts. HMAC, base64url, the parser of
-- JSON and the comparison of bytes are the operations of a record.
--
-- Keeper/Relay: the relay of signed trades. Relay/Auth is keeper/src/auth/app-intent-auth.ts,
-- keeper/src/trade/trade-auth.ts and verifyTradeRequest of keeper/src/trade/trade.service.ts; Relay/Trades
-- is the rest of that service, with relay_mint, relay_redeem, relay_settle and relay_recover_manager. An HTTP
-- exception is an answer (rejected). Auth/Sound and Safety build up to Outcomes; Replays has requests whose intent was
-- used before.
--
-- Keeper/Manager: keeper/src/manager/manager.service.ts, the creations of one address's manager that overlap,
-- as a step relation between the waits of the code, with `set` of
-- keeper/src/manager/user-manager.repository.ts.
--
-- Client/Intents: app/src/lib/leverx/trade-intent-message.ts and manager-intent-message.ts, with what the
-- keeper reads in them. Client/TradeMath: app/src/lib/leverx/trade-math.ts, the functions on `bigint` and the
-- texts of amounts in dollars.
--
-- Keeper/Samples has the data of the tests; the Tests modules run definitions and apply the theorems.
--
-- Numbers: amounts, times and basis points are naturals; u64 wrap-around does not arise, since `bigint` and
-- safe integers are exact, and the range of an argument is checked by the SDK (Sui.refuses). Where a
-- difference may be negative it is an integer of Prelude/Int. A field of a message that the keeper reads with
-- `Number` is rounded as a double is, and one beyond the largest double is infinite. Times are whole
-- milliseconds. The paging loop has fuel max_items, which is enough since every round but the last adds an
-- item; the retries of an invocation are max_retries; the loop that sizes a mint has the 12 attempts of the
-- code.
--
-- Not modelled: the Move contracts (contracts), the indexer (indexer, in Rust), the user interface and the
-- market data of app, Telegram, the assistant, gas sponsorship, guards and framework wiring. Of the keeper:
-- the answers to requests for a manager, the lookup of abort messages (a parameter of
-- the tasks and the relay), log lines and timestamps. Concurrency is modelled where runs overlap
-- (Orchestrator/Locks) and where requests for a manager do (Manager); within a run the code awaits one operation
-- at a time, except for the two requests for candidates and the two reads before a recovery, which are taken
-- in order.
pub mod Prelude
pub mod Keeper
pub mod Client
