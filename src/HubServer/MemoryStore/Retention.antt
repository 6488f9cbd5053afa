-- ===== src/HubServer/MemoryStore/Retention.antt =====
-- packages/hub-server/src/memoryStore.ts: `trim`, `ack` and `purge`.
use kumiai.Shared.{
  ℕ, ◌+◌, ◌*◌, Bool, ◌&&◌, ◌||◌, Option, none, some, List, [], ◌∷◌, ltb, leb, has, add,
  if◌then◌else◌, max,
}
use kumiai.Shared.Map
use kumiai.Shared.Map.{Map}
use kumiai.HubServer.MemoryStore.{
  LogEntry, is_log, Store, is_log_id, remove_entry, remove_entries, drop_deliveries,
}
use kumiai.HubServer.MemoryStore.Publish.{log_ids}

-- The loop walks a copy of the topic's IDs, and reads the store as it goes.
unfoldable pub trim_ids : ℕ → List ℕ → Store → Store
trim_ids before [] s = s
trim_ids before (id ∷ ids) s =
    trim_ids before ids (if ltb id before && is_log_id s.entries id then remove_entry id s else s)

unfoldable pub trim : ℕ → ℕ → Store → Store
unfolding trim_ids log_ids
trim topic before s = trim_ids before (log_ids topic s) s

unfoldable pub ack : ℕ → List ℕ → Store → Store
ack did ids s = drop_deliveries did ids s

unfoldable pub longest : ℕ → Map ℕ → ℕ
longest retention [] = retention
longest retention ((did, requested) ∷ m) =
    longest (if ltb retention requested then requested else retention) m

-- The longest retention that any subscriber asked for, over the default and the caller's floor.
unfoldable pub retention_of : ℕ → ℕ → Store → ℕ
unfolding longest
retention_of topic floor s = elim (Map.get topic s.subscriptions) [
  | none ↦ max floor s.default_retention
  | some m ↦ longest (max floor s.default_retention) m
]

-- `storedAt <= now - retention * 1000`, with the subtraction moved over.
unfoldable pub is_aged : ℕ → ℕ → LogEntry → Store → Bool
unfolding retention_of
is_aged floor now e s = leb (e.stored_at + retention_of e.topic_id floor s * 1000) now

-- The scan in insertion order: once a log frame of a topic stays, so do the later ones.
unfoldable pub purge_scan : ℕ → ℕ → Store → List ℕ → Map LogEntry → List ℕ
unfolding is_aged
purge_scan floor now s retained [] = []
purge_scan floor now s retained ((id, e) ∷ m) =
    let skip = is_log e.retain && has e.topic_id retained in
    let aged = is_aged floor now e s in
    let kept = if is_log e.retain then add e.topic_id retained else retained in
    let rest = purge_scan floor now s (if skip || aged then retained else kept) m in
    if skip then rest else if aged then id ∷ rest else rest

-- `emitted` is the payload of the `purge` event, if it is emitted.
pub record PurgeOutcome : Type 0 where
  pub purged_ids : List ℕ
  pub emitted : Option (List ℕ)

abbrev event_for : List ℕ → Option (List ℕ)
event_for [] = none
event_for (id ∷ ids) = some (id ∷ ids)

unfoldable pub purge : ℕ → ℕ → Store → PurgeOutcome × Store
unfolding purge_scan
purge older_than now s =
    let ids = purge_scan older_than now s [] s.entries in
    (record { purged_ids = ids; emitted = event_for ids }, remove_entries ids s)
