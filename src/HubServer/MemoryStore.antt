-- ===== src/HubServer/MemoryStore.antt =====
-- packages/hub-server/src/memoryStore.ts: the state of the in-memory hub store and the removal
-- primitives that every operation shares. DIDs, topics, publish IDs and key packages are numbers,
-- since the code only tests them for equality; a sequence ID is the counter that
-- `formatSequenceID` prints with 12 digits. Date.now() is the argument `now`.
pub mod Publish
pub mod Read
pub mod Retention
pub mod Subscriptions
pub mod KeyPackages
pub mod Induction
pub mod CallInduction
pub mod Accounting
pub mod History
pub mod Frame
pub mod Order
pub mod Replay
pub mod Heads
pub mod NoSilentLoss
pub mod LogReaders
pub mod LogHeads
pub mod Pages
pub mod Acknowledged
pub mod AckForever
pub mod Depth
pub mod PackagePool
pub mod DepthBound
pub mod OldestFirst
mod Tests
use kumiai.Shared.{
  ℕ, Bool, true, false, Option, none, some, List, [], ◌∷◌, ltb, if◌then◌else◌, erase, without,
}
use kumiai.Shared.Map
use kumiai.Shared.Map.{Map}

pub data RetentionClass : Type 0 where
  log mailbox : RetentionClass

abbrev pub is_log : RetentionClass → Bool
is_log log = true
is_log mailbox = false

pub record LogEntry : Type 0 where
  pub sequence_id : ℕ
  pub sender_did : ℕ
  pub topic_id : ℕ
  pub payload : List ℕ
  pub stored_at : ℕ
  pub retain : RetentionClass
  pub pending_for : List ℕ

pub record StoredKeyPackage : Type 0 where
  pub key_package : ℕ
  pub not_after : Option ℕ

-- `max_retention` is `none` for POSITIVE_INFINITY.
pub record MemoryStoreOptions : Type 0 where
  pub max_depth : ℕ
  pub default_retention : ℕ
  pub max_retention : Option ℕ
  pub max_key_packages_per_did : ℕ
  pub max_subscriptions_per_did : ℕ

pub record Store : Type 0 where
  pub options : MemoryStoreOptions
  pub open options use *
  pub counter : ℕ
  pub entries : Map LogEntry
  pub topic_logs : Map (List ℕ)
  pub heads : Map ℕ
  pub removed_through : Map ℕ
  pub deliveries : Map (List ℕ)
  pub publish_records : Map ℕ
  pub subscriptions : Map (Map ℕ)
  pub subs_by_did : Map (List ℕ)
  pub key_packages : Map (List StoredKeyPackage)
  pub last_resort_key_packages : Map ℕ

unfoldable pub create_memory_store : MemoryStoreOptions → Store
create_memory_store o = record {
  options = o;
  counter = 0;
  entries = [];
  topic_logs = [];
  heads = [];
  removed_through = [];
  deliveries = [];
  publish_records = [];
  subscriptions = [];
  subs_by_did = [];
  key_packages = [];
  last_resort_key_packages = [];
}

-- The errors of packages/hub-protocol/src/errors.ts that this store throws.
pub data StoreError : Type 0 where
  head_mismatch not_subscribed retention_exceeded subscription_quota_exceeded : StoreError
  key_package_quota_exceeded : StoreError

pub data Result {ℓ} (A : Type ℓ) : Type ℓ where
  ok : A → Result A
  err : StoreError → Result A

pub record StoredMessage : Type 0 where
  pub sequence_id : ℕ
  pub sender_did : ℕ
  pub topic_id : ℕ
  pub payload : List ℕ
  pub log_position : Option ℕ

unfoldable pub as_stored_message : LogEntry → StoredMessage
as_stored_message e = record {
  sequence_id = e.sequence_id;
  sender_did = e.sender_did;
  topic_id = e.topic_id;
  payload = e.payload;
  log_position = if is_log e.retain then some e.sequence_id else none;
}

-- The class of a stored entry, as `entries.get(id)?.retain === 'log'` reads it.
unfoldable pub is_log_id : Map LogEntry → ℕ → Bool
is_log_id entries id = elim (Map.get id entries) [ none ↦ false | some e ↦ is_log e.retain ]

-- `list.splice(list.indexOf(id), 1)` on one recipient's pending deliveries.
unfoldable pub splice_delivery : ℕ → ℕ → Map (List ℕ) → Map (List ℕ)
splice_delivery id did deliveries = elim (Map.get did deliveries) [
  | none ↦ deliveries
  | some list ↦ Map.set did (erase id list) deliveries
]

unfoldable pub splice_deliveries : ℕ → List ℕ → Map (List ℕ) → Map (List ℕ)
splice_deliveries id [] deliveries = deliveries
splice_deliveries id (did ∷ dids) deliveries =
    splice_deliveries id dids (splice_delivery id did deliveries)

-- A list that becomes empty leaves the map.
unfoldable pub put_log : ℕ → List ℕ → Map (List ℕ) → Map (List ℕ)
put_log topic [] logs = Map.delete topic logs
put_log topic (x ∷ xs) logs = Map.set topic (x ∷ xs) logs

unfoldable pub splice_log : ℕ → ℕ → Map (List ℕ) → Map (List ℕ)
unfolding put_log
splice_log id topic logs = elim (Map.get topic logs) [
  | none ↦ logs
  | some ids ↦ put_log topic (erase id ids) logs
]

-- The watermark moves up only.
unfoldable pub raise_removed : ℕ → ℕ → Map ℕ → Map ℕ
raise_removed id topic removed = elim (Map.get topic removed) [
  | none ↦ Map.set topic id removed
  | some r ↦ if ltb r id then Map.set topic id removed else removed
]

unfoldable pub remove_found : ℕ → LogEntry → Store → Store
remove_found id e s = record s {
  removed_through =
      if is_log e.retain then raise_removed id e.topic_id s.removed_through else s.removed_through;
  deliveries = splice_deliveries id e.pending_for s.deliveries;
  topic_logs = splice_log id e.topic_id s.topic_logs;
  entries = Map.delete id s.entries;
}

unfoldable pub remove_entry : ℕ → Store → Store
remove_entry id s = elim (Map.get id s.entries) [ none ↦ s | some e ↦ remove_found id e s ]

-- An entry whose last pending recipient is gone leaves the store, if it is mailbox-class.
unfoldable pub release_entry : ℕ → LogEntry → List ℕ → Store → Store
release_entry id e [] s = if is_log e.retain then s else remove_entry id s
release_entry id e (d ∷ ds) s = s

unfoldable pub drop_found : ℕ → ℕ → LogEntry → Store → Store
unfolding release_entry
drop_found did id e s =
    let rest = without did e.pending_for in
    release_entry id e rest
      (record s { entries = Map.set id (record e { pending_for = rest }) s.entries })

unfoldable pub drop_delivery : ℕ → ℕ → Store → Store
drop_delivery did id s =
    let s' = record s { deliveries = splice_delivery id did s.deliveries } in
    elim (Map.get id s.entries) [ none ↦ s' | some e ↦ drop_found did id e s' ]

unfoldable pub drop_deliveries : ℕ → List ℕ → Store → Store
drop_deliveries did [] s = s
drop_deliveries did (id ∷ ids) s = drop_deliveries did ids (drop_delivery did id s)

unfoldable pub remove_entries : List ℕ → Store → Store
remove_entries [] s = s
remove_entries (id ∷ ids) s = remove_entries ids (remove_entry id s)
