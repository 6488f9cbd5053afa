-- ===== src/HubServer/MemoryStore/Publish.antt =====
-- packages/hub-server/src/memoryStore.ts, `publish`: deduplication, the compare-and-swap on the
-- head, the append with its deliveries, and the depth bound.
use kumiai.Shared.{
  add, ℕ, zero, suc, ◌+◌, ◌-◌, Bool, true, false, Option, none, some, List, [], ◌∷◌, ◌++◌, ◌==◌,
  if◌then◌else◌, or_default, length, select,
}
use kumiai.Shared.Map
use kumiai.Shared.Map.{Map}
use kumiai.HubServer.MemoryStore.{
  RetentionClass, log, mailbox, is_log, LogEntry, Store, head_mismatch, Result, ok, err, is_log_id,
  remove_entry,
}

-- `expected_head` is absent (`none`), null (`some none`) or a sequence ID.
pub record PublishParams : Type 0 where
  pub sender_did : ℕ
  pub topic_id : ℕ
  pub payload : List ℕ
  pub retain : Option RetentionClass
  pub publish_id : Option ℕ
  pub expected_head : Option (Option ℕ)

pub record PublishResult : Type 0 where
  pub sequence_id : ℕ
  pub deduped : Bool

-- The sequence ID that the publish ID was accepted as, if it was.
unfoldable pub accepted_as : Option ℕ → Store → Option ℕ
accepted_as none s = none
accepted_as (some p) s = Map.get p s.publish_records

abbrev pub same_head : Option ℕ → Option ℕ → Bool
same_head none none = true
same_head none (some h) = false
same_head (some h) none = false
same_head (some h) (some k) = h == k

-- An absent expectation is met by every head.
unfoldable pub head_matches : Option (Option ℕ) → Option ℕ → Bool
head_matches none head = true
head_matches (some expected) head = same_head head expected

abbrev pub record_publish : Option ℕ → ℕ → Map ℕ → Map ℕ
record_publish none id records = records
record_publish (some p) id records = Map.set p id records

-- The subscribers but the sender, added to a set one by one.
unfoldable pub collect : ℕ → List ℕ → List ℕ → List ℕ
collect sender [] recipients = recipients
collect sender (did ∷ dids) recipients =
    collect sender dids (if did == sender then recipients else add did recipients)

unfoldable pub recipients_of : ℕ → ℕ → Store → List ℕ
unfolding collect
recipients_of topic sender s =
    collect sender (elim (Map.get topic s.subscriptions) [ none ↦ [] | some m ↦ Map.keys m ]) []

unfoldable pub push_id : ℕ → ℕ → Map (List ℕ) → Map (List ℕ)
push_id key id lists = Map.set key (or_default (Map.get key lists) [] ++ id ∷ []) lists

unfoldable pub push_deliveries : ℕ → List ℕ → Map (List ℕ) → Map (List ℕ)
push_deliveries id [] deliveries = deliveries
push_deliveries id (did ∷ dids) deliveries = push_deliveries id dids (push_id did id deliveries)

unfoldable pub log_ids : ℕ → Store → List ℕ
log_ids topic s = or_default (Map.get topic s.topic_logs) []

-- The log-class IDs of a topic, oldest first.
unfoldable pub log_frames : ℕ → Store → List ℕ
unfolding log_ids is_log_id
log_frames topic s = select (is_log_id s.entries) (log_ids topic s)

unfoldable pub find_log : Map LogEntry → List ℕ → Option ℕ
find_log entries [] = none
find_log entries (id ∷ ids) = if is_log_id entries id then some id else find_log entries ids

-- `while (logDepth > maxDepth)`, on the rounds that are left.
unfoldable pub trim_depth : ℕ → ℕ → Store → Store
unfolding find_log log_ids is_log_id
trim_depth zero topic s = s
trim_depth (suc excess) topic s = elim (find_log s.entries (log_ids topic s)) [
  | none ↦ s
  | some oldest ↦ trim_depth excess topic (remove_entry oldest s)
]

unfoldable pub bound_depth : RetentionClass → ℕ → Store → Store
unfolding trim_depth log_frames
bound_depth mailbox topic s = s
bound_depth log topic s = trim_depth (length (log_frames topic s) - s.max_depth) topic s

-- The sequence ID is minted, the publish recorded, and a log publish moves the head.
unfoldable pub mint : PublishParams → RetentionClass → Store → Store
mint p retain s =
    let id = s.counter + 1 in
    record s {
      counter = id;
      publish_records = record_publish p.publish_id id s.publish_records;
      heads = if is_log retain then Map.set p.topic_id id s.heads else s.heads;
    }

unfoldable pub append : PublishParams → RetentionClass → List ℕ → ℕ → Store → Store
unfolding push_id push_deliveries
append p retain recipients now s = record s {
  entries =
      Map.set s.counter
        (record {
          sequence_id = s.counter;
          sender_did = p.sender_did;
          topic_id = p.topic_id;
          payload = p.payload;
          stored_at = now;
          retain = retain;
          pending_for = recipients;
        })
        s.entries;
  topic_logs = push_id p.topic_id s.counter s.topic_logs;
  deliveries = push_deliveries s.counter recipients s.deliveries;
}

-- A mailbox frame that nobody receives is dropped, after its ID is minted.
unfoldable pub store_frame : PublishParams → RetentionClass → List ℕ → ℕ → Store → Store
unfolding append bound_depth
store_frame p mailbox [] now s = s
store_frame p mailbox (d ∷ ds) now s = append p mailbox (d ∷ ds) now s
store_frame p log recipients now s = bound_depth log p.topic_id (append p log recipients now s)

unfoldable pub accept : PublishParams → RetentionClass → ℕ → Store → Store
unfolding mint recipients_of store_frame
accept p retain now s =
    let s' = mint p retain s in
    store_frame p retain (recipients_of p.topic_id p.sender_did s') now s'

unfoldable pub publish : PublishParams → ℕ → Store → Result PublishResult × Store
unfolding accepted_as head_matches accept
publish p now s = elim (accepted_as p.publish_id s) [
  | some id ↦ (ok (record { sequence_id = id; deduped = true }), s)
  | none ↦
      if head_matches p.expected_head (Map.get p.topic_id s.heads)
      then (
        ok (record { sequence_id = s.counter + 1; deduped = false }),
        accept p (or_default p.retain mailbox) now s,
      )
      else (err head_mismatch, s)
]
