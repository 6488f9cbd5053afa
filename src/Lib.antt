-- ===== src/Lib.antt =====
-- Verification library of kumiai, a group messaging stack over MLS.
--
-- The hub (packages/hub-server) stores and forwards frames that it cannot read. A topic's log keeps
-- its log-class frames for readers that may not exist yet; a mailbox frame lives until its last
-- recipient acknowledges it. A publish may be conditional on the topic's head, which makes the log a
-- chain of commits. Group members (packages/mls) fold a signed ledger into a roster, and judge each
-- commit by the roster before and after it. A peer (packages/rpc) walks the commit log, classifies
-- each frame by epoch, committer and digest, and asks for a heal where it fell out of the group's line.
--
-- Shared: lists, texts, insertion-ordered maps and Boolean tests over the native numbers.
-- HubServer/MemoryStore: packages/hub-server/src/memoryStore.ts. The maps that `createMemoryStore`
--   closes over are the fields of `Store`. Publish is `publish`; Read is `fetch` and `fetchTopic`;
--   Retention is `trim`, `ack` and `purge`; Subscriptions and KeyPackages are the methods of those
--   names. A method takes the store and returns its result with the next store; a thrown error is
--   `err` with the store at the throw. History has the methods as calls and runs sequences of them.
--   The other files prove invariants of every history.
-- HubServer/SequenceId: `formatSequenceID` of the same file.
-- HubServer/Registry: packages/hub-server/src/registry.ts. Registry/History has its methods as calls.
-- HubServer/Wake: packages/hub-server/src/wake.ts. `notify`, `online` and `dispose` keep their names;
--   `fire` is a window's timer, and a ping is a record in place of a call of `send`.
-- HubServer/RateLimit: packages/hub-server/src/rateLimit.ts. `tryConsume` is `try_consume`; the rate
--   and the burst count parts of a token, and the source's floating-point sums are exact.
-- Mls/Fold, Mls/Roster, Mls/Extensions, Mls/Policy: packages/mls/src/fold.ts, roster.ts and
--   policy.ts. `foldLedger` is `fold_ledger`, with the drops that its observer is told; `foldRoster`
--   is `fold_roster`; `defaultCommitPolicy` is `default_commit_policy`.
-- Mls/Device, Mls/Registry, Mls/Control: packages/mls/src/registry.ts. `isDeviceValue` is
--   `is_device_value`, `registryApply` is `registry_apply`, `authority` and `isDenied` keep their
--   names, and `foldControl` is `fold_control`, with the drops that its observer is told.
-- Mls/Envelope: packages/mls/src/envelope-fold.ts. `foldEnvelope` is `fold_envelope`.
-- Mls/Head: packages/mls/src/head.ts, the chain and codec of the ledger head. `computeHead` is
--   `compute_head`; a hash function is an argument.
-- Mls/SecretTree: packages/mls/src/secret-tree.ts. `mergeReceiveSecretTree` is
--   `merge_receive_secret_tree`.
-- Rpc/Classify: packages/rpc/src/classify.ts; Rpc/Classify/Lane: the part of packages/rpc/src/peer.ts
--   that acts on a disposition. `classifyCommit` is `classify_commit`, and `drain` is the loop over the
--   frames of the fetched pages.
-- Rpc/CommitFrame: packages/rpc/src/commit-frame.ts, the frame of a commit and its sealed entries.
-- Rpc/Handshake: packages/rpc/src/handshake.ts and frame-size.ts, the header of a frame.
-- Rpc/LaneMessage: how `walkCommits` reads a message down to its commit, as `lane_content` of its bytes
--   and `lane_frame` of the message.
-- Rpc/Walk: the paging of `walkCommits` in packages/rpc/src/peer.ts, as `walk_commits` over the hub
--   store of HubServer/MemoryStore: a page is what `fetch_topic` answers, and its frames are settled
--   as in Rpc/Classify/Lane. `assertForwardPage` of packages/rpc/src/cursor.ts is `is_forward_page`.
-- Rpc/RecoveryCache, Rpc/Confirmation: packages/rpc/src/recovery-confirmation.ts. The methods of
--   `createRecoveryCache` are `remove_key`, `get_entry`, `set_entry` and `clear_cache`;
--   `waitForRecoveryConfirmation` is a step on the events that reach the wait.
-- Rpc/Outbox: packages/rpc/src/app-outbox.ts. `accept` is `begin_accept`, up to the durable write,
--   and `end_accept`, after it.
--
-- DIDs, topics and digests are numbers, since the code only tests them for equality. The hub's
-- sequence IDs are the counters that `formatSequenceID` prints with 12 digits, on the assumption that
-- they stay below 10 ^ 12; the positions of the classifier are texts with the order of JavaScript's
-- strings. Clock readings are arguments. Time and counters are natural numbers of any size, as the
-- source's stay far below 2 ^ 53.
--
-- Every loop is structural recursion over a list, or over the number of rounds that are left: the
-- depth bound's loop over the excess of the log, the key package loop over the pool. Only the walk of
-- the commit log has fuel, which counts its pages: one page more than the log holds frames past the
-- cursor is enough. The level of a tree node counts at most 31 bits, the width of the source's shifts;
-- node indices stay below 2 ^ 31.
--
-- Parameters: `normalizeDID` of the token library, SHA-256, and the JSON decoding of the group anchor.
-- What a lifecycle proof does to the device registry goes through the controller library, and is the
-- parameter `lifecycle_apply`; no theorem assumes anything of it. The answer of the MLS port to an
-- applicable frame, or that it throws, is part of the frame that the lane reads. A verdict's text and
-- the tag that a confirmation must bear are parameters of the recovery wait.
--
-- Not modelled: the SQL hub store, transports, senders and schemas, which are I/O; the MLS protocol
-- and the cryptography, which are third-party code; the peer's journal, recovery requests and
-- application lanes, and its disposal but under an apply; controller logs and lifecycle proofs; and
-- the hand-off between waiting sends.
pub mod HubServer
pub mod Mls
pub mod Rpc
pub mod Shared
