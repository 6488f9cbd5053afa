-- ===== src/Rpc.antt =====
-- packages/rpc/src: the group peer's decisions on the commit log.
pub mod Classify
pub mod Outbox
pub mod CommitFrame
pub mod Handshake
pub mod LaneMessage
pub mod Walk
pub mod RecoveryCache
pub mod Confirmation
mod Tests
mod FrameTests
mod WalkTests
mod RecoveryTests
