-- ===== src/HubServer/MemoryStore/Subscriptions.antt =====
-- packages/hub-server/src/memoryStore.ts: `subscribe`, `unsubscribe` and `getSubscribers`.
use kumiai.Shared.{
  ℕ, Bool, false, ◌&&◌, not, Option, none, some, List, [], ◌∷◌, ◌==◌, ltb, leb, has, add, without,
  if◌then◌else◌, or_default, length,
}
use kumiai.Shared.Map
use kumiai.Shared.Map.{Map}
use kumiai.HubServer.MemoryStore.{
  LogEntry, Store, retention_exceeded, subscription_quota_exceeded, Result, ok, err, drop_delivery,
}

pub record SubscribeParams : Type 0 where
  pub subscriber_did : ℕ
  pub topic_id : ℕ
  pub retention : Option ℕ

unfoldable pub exceeds : ℕ → Option ℕ → Bool
exceeds requested none = false
exceeds requested (some limit) = ltb limit requested

unfoldable pub held_topics : ℕ → Store → List ℕ
held_topics did s = or_default (Map.get did s.subs_by_did) []

unfoldable pub subscribers_of : ℕ → Store → Map ℕ
subscribers_of topic s = or_default (Map.get topic s.subscriptions) []

unfoldable pub enrol : ℕ → ℕ → ℕ → Store → Store
unfolding held_topics subscribers_of
enrol did topic requested s = record s {
  subscriptions = Map.set topic (Map.set did requested (subscribers_of topic s)) s.subscriptions;
  subs_by_did = Map.set did (add topic (held_topics did s)) s.subs_by_did;
}

unfoldable pub subscribe : SubscribeParams → Store → Result (Unit {0}) × Store
unfolding exceeds enrol
subscribe p s =
    let requested = or_default p.retention s.default_retention in
    let held = held_topics p.subscriber_did s in
    if exceeds requested s.max_retention
    then (err retention_exceeded, s)
    else if not (has p.topic_id held) && leb s.max_subscriptions_per_did (length held)
    then (err subscription_quota_exceeded, s)
    else (ok tt, enrol p.subscriber_did p.topic_id requested s)

abbrev put_subscribers : ℕ → Map ℕ → Map (Map ℕ) → Map (Map ℕ)
put_subscribers topic [] subscriptions = Map.delete topic subscriptions
put_subscribers topic (x ∷ m) subscriptions = Map.set topic (x ∷ m) subscriptions

abbrev put_topics : ℕ → List ℕ → Map (List ℕ) → Map (List ℕ)
put_topics did [] subs = Map.delete did subs
put_topics did (x ∷ xs) subs = Map.set did (x ∷ xs) subs

-- Both directions of the subscription index lose the pair; an emptied side leaves its map.
unfoldable pub withdraw : ℕ → ℕ → Store → Store
withdraw did topic s = record s {
  subscriptions = elim (Map.get topic s.subscriptions) [
    | none ↦ s.subscriptions
    | some m ↦ put_subscribers topic (Map.delete did m) s.subscriptions
  ];
  subs_by_did = elim (Map.get did s.subs_by_did) [
    | none ↦ s.subs_by_did
    | some topics ↦ put_topics did (without topic topics) s.subs_by_did
  ];
}

unfoldable pub is_of_topic : ℕ → Option LogEntry → Bool
is_of_topic topic none = false
is_of_topic topic (some e) = e.topic_id == topic

-- The loop walks a copy of the recipient's pending IDs.
unfoldable pub drop_topic : ℕ → ℕ → List ℕ → Store → Store
unfolding is_of_topic
drop_topic did topic [] s = s
drop_topic did topic (id ∷ ids) s =
    drop_topic did topic ids
      (if is_of_topic topic (Map.get id s.entries) then drop_delivery did id s else s)

unfoldable pub unsubscribe : ℕ → ℕ → Store → Store
unfolding withdraw drop_topic
unsubscribe did topic s =
    drop_topic did topic (or_default (Map.get did s.deliveries) []) (withdraw did topic s)

unfoldable pub get_subscribers : ℕ → Store → List ℕ
unfolding subscribers_of
get_subscribers topic s = Map.keys (subscribers_of topic s)
