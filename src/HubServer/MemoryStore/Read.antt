-- ===== src/HubServer/MemoryStore/Read.antt =====
-- packages/hub-server/src/memoryStore.ts: `fetch` of a recipient's pending deliveries and
-- `fetchTopic` of a topic's log.
use kumiai.Shared.{
  ℕ, Bool, true, false, Option, none, some, List, [], ◌∷◌, ltb, if◌then◌else◌, or_default, select,
  take, length,
}
use kumiai.Shared.Map
use kumiai.Shared.Map.{Map}
use kumiai.HubServer.MemoryStore.{
  LogEntry, Store, StoredMessage, not_subscribed, Result, ok, err, as_stored_message,
  drop_deliveries,
}
use kumiai.HubServer.MemoryStore.Publish.{log_frames}

pub record FetchParams : Type 0 where
  pub recipient_did : ℕ
  pub after : Option ℕ
  pub limit : Option ℕ
  pub ack : List ℕ

pub record FetchResult : Type 0 where
  pub messages : List StoredMessage
  pub cursor : Option ℕ
  pub has_more : Bool

-- `pending.slice(startIndex)`: from the first ID past the cursor on.
unfoldable pub drop_to : ℕ → List ℕ → List ℕ
drop_to after [] = []
drop_to after (id ∷ ids) = if ltb after id then id ∷ ids else drop_to after ids

unfoldable pub past_cursor : Option ℕ → List ℕ → List ℕ
past_cursor none ids = ids
past_cursor (some after) ids = drop_to after ids

unfoldable pub messages_of : Map LogEntry → List ℕ → List StoredMessage
unfolding as_stored_message
messages_of entries [] = []
messages_of entries (id ∷ ids) =
    let rest = messages_of entries ids in
    elim (Map.get id entries) [ none ↦ rest | some e ↦ as_stored_message e ∷ rest ]

-- `messages.at(-1)?.sequenceID ?? null`.
unfoldable pub last_id : List StoredMessage → Option ℕ
last_id [] = none
last_id (m ∷ []) = some m.sequence_id
last_id (m ∷ n ∷ ms) = last_id (n ∷ ms)

unfoldable pub page : FetchParams → List ℕ → Store → FetchResult
unfolding past_cursor drop_to messages_of last_id
page p pending s =
    let available = past_cursor p.after pending in
    let limit = or_default p.limit (length available) in
    let messages = messages_of s.entries (take limit available) in
    record {
      messages = messages;
      cursor = last_id messages;
      has_more = ltb limit (length available);
    }

-- The recipient's pending deliveries, if it has any, are paged.
unfoldable pub serve_pending : FetchParams → Option (List ℕ) → Store → FetchResult
unfolding page
serve_pending p none s = record { messages = []; cursor = none; has_more = false }
serve_pending p (some []) s = record { messages = []; cursor = none; has_more = false }
serve_pending p (some (id ∷ ids)) s = page p (id ∷ ids) s

unfoldable pub fetch : FetchParams → Store → FetchResult × Store
unfolding serve_pending
fetch p s =
    let s' = drop_deliveries p.recipient_did p.ack s in
    (serve_pending p (Map.get p.recipient_did s'.deliveries) s', s')

pub record FetchTopicParams : Type 0 where
  pub subscriber_did : ℕ
  pub topic_id : ℕ
  pub after : Option ℕ
  pub limit : Option ℕ

pub record FetchTopicResult : Type 0 where
  pub messages : List StoredMessage
  pub head : Option ℕ
  pub oldest : Option ℕ
  pub gap : Bool

unfoldable pub is_subscribed : ℕ → ℕ → Store → Bool
is_subscribed did topic s = elim (Map.get topic s.subscriptions) [
  | none ↦ false
  | some m ↦ Map.member did m
]

unfoldable pub beyond : Option ℕ → List ℕ → List ℕ
beyond none ids = ids
beyond (some after) ids = select (λ id. ltb after id) ids

unfoldable pub limited : Option ℕ → List ℕ → List ℕ
limited none ids = ids
limited (some n) ids = take n ids

abbrev pub first : List ℕ → Option ℕ
first [] = none
first (id ∷ ids) = some id

-- A log frame past the cursor was removed.
unfoldable pub has_gap : Option ℕ → Option ℕ → Bool
has_gap none after = false
has_gap (some r) none = true
has_gap (some r) (some after) = ltb after r

unfoldable pub fetch_topic : FetchTopicParams → Store → Result FetchTopicResult
unfolding is_subscribed log_frames beyond limited messages_of has_gap
fetch_topic p s =
    if is_subscribed p.subscriber_did p.topic_id s
    then ok (record {
      messages = messages_of s.entries (limited p.limit (beyond p.after (log_frames p.topic_id s)));
      head = Map.get p.topic_id s.heads;
      oldest = first (log_frames p.topic_id s);
      gap = has_gap (Map.get p.topic_id s.removed_through) p.after;
    })
    else err not_subscribed
