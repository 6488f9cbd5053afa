-- ===== src/HubServer.antt =====
-- packages/hub-server/src: the hub's reference store and the parts of its request path that keep
-- state.
pub mod MemoryStore
pub mod Registry
pub mod SequenceId
pub mod Wake
pub mod RateLimit
mod Tests
mod LimitTests
