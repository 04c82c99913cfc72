-- ===== src/Keeper.antt =====
-- keeper/src: the keeper service.
pub mod Messages
pub mod Relay
pub mod Jwt
pub mod Constants
pub mod Types
pub mod TradeMath
pub mod Ptb
pub mod Effects
pub mod Sui
pub mod Manager
pub mod Inspections
pub mod Indexer
pub mod Quotes
pub mod Tasks
pub mod Orchestrator
pub mod Replay
pub mod RateLimit
pub mod RpcErrors
pub mod RpcFailover
pub mod Protocol
pub mod Custody
pub mod Readiness
pub mod Samples
pub mod Tests
