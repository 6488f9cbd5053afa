-- ===== src/Mls.antt =====
-- packages/mls/src: the group's control plane: the ledger fold, the roster and the commit policy.
pub mod Fold
pub mod Roster
pub mod Extensions
pub mod Policy
pub mod Device
pub mod Registry
pub mod Control
pub mod Envelope
pub mod Head
pub mod SecretTree
mod Tests
mod ControlTests
mod TreeTests
