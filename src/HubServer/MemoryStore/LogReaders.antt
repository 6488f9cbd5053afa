-- ===== src/HubServer/MemoryStore/LogReaders.antt =====
-- packages/hub-server/src/memoryStore.ts: what `fetchTopic` serves after any history.
use kumiai.HubServer.MemoryStore.CallInduction.{run-keeps}
use kumiai.HubServer.MemoryStore.Read.{
  has_gap, limited, is_subscribed, fetch_topic, FetchTopicResult, FetchTopicParams, beyond,
  messages_of, first,
}
use kumiai.HubServer.MemoryStore.Publish.{log_frames, PublishResult, publish, PublishParams}
use kumiai.HubServer.MemoryStore.History.{run, Call}
use kumiai.Shared.{
  ==_iff, ℕ, ◌≡◌, refl, ◌⊎◌, inl, inr, Bool, true, false, ◌&&◌, ◌||◌, Option, none, some, List, [],
  ◌∷◌, ◌==◌, ltb, has, Bool-cases, arith, select,
}
use kumiai.Shared.Map
use kumiai.Shared.Map.{Map, get-set}
use kumiai.HubServer.MemoryStore.{
  is_log_id, not_subscribed, LogEntry, as_stored_message, log, Store, StoredMessage, Result, ok,
  err,
}
use kumiai.HubServer.MemoryStore.Accounting.{is_passed, is_log_of, log_of, is_kept, Accounted}
use kumiai.HubServer.MemoryStore.NoSilentLoss.{Accounted-KeptByCalls, publish-Accounted_own}

-- The frame with this sequence ID is among the messages.
abbrev pub delivers : ℕ → List StoredMessage → Bool
delivers id [] = false
delivers id (m ∷ ms) = (m.sequence_id == id) || delivers id ms

delivers-messages_of :
    (t i : ℕ) (entries : Map LogEntry) (ids : List ℕ)
    → has i ids ≡ true
    → is_log_of t i (Map.get i entries) ≡ true
    → delivers i (messages_of entries ids) ≡ true
unfolding messages_of as_stored_message
delivers-messages_of t i entries [] h k = cc
delivers-messages_of t i entries (id ∷ ids) h k = elim (Bool-cases (id == i)) [
  | inl e ↦ rw ((==_iff id i).0 e) (ground (arith, k))
  | inr e ↦ ground (arith, h, delivers-messages_of t i entries ids (ground (arith, h)) k)
]

pub has-select : (q : ℕ → Bool) (i : ℕ) (ids : List ℕ) → has i (select q ids) ≡ (has i ids && q i)
has-select q i [] = refl
has-select q i (id ∷ ids) = elim (Bool-cases (id == i)) [
  | inl e ↦ rw ((==_iff id i).0 e) (ground (arith, has-select q i ids))
  | inr e ↦ ground (arith, has-select q i ids)
]

has-beyond :
    (after : Option ℕ) (i : ℕ) (ids : List ℕ)
    → (elim after [ none ↦ true | some a ↦ ltb a i ]) ≡ true
    → has i ids ≡ true
    → has i (beyond after ids) ≡ true
unfolding beyond
has-beyond none i ids h k = k
has-beyond (some a) i ids h k = rw (has-select (λ id. ltb a id) i ids) (ground arith)

-- The cursor stands before the frame.
abbrev pub is_after : ℕ → Option ℕ → Bool
is_after id none = true
is_after id (some a) = ltb a id

module _ (q : FetchTopicParams) (i : ℕ) (s : Store) (unlimited : q.limit ≡ none)
    (ahead : is_after i q.after ≡ true) where
  pub kept_frame_delivered :
      is_kept q.topic_id i s ≡ true
      → delivers i
          (messages_of s.entries (limited q.limit (beyond q.after (log_frames q.topic_id s))))
        ≡ true
  unfolding is_kept log_frames limited
  kept_frame_delivered h = rw unlimited (
      delivers-messages_of q.topic_id i s.entries _
        (has-beyond q.after i _ ahead (
          rw (has-select (is_log_id s.entries) i (log_of q.topic_id s.topic_logs))
            (unfold is_log_id in ground (arith, h))))
        (ground (arith, h)))

  pub passed_frame_reported :
      is_passed q.topic_id i s ≡ true
      → has_gap (Map.get q.topic_id s.removed_through) q.after ≡ true
  unfolding is_passed has_gap
  passed_frame_reported h = ground (arith, ahead)

-- A subscriber is handed the frame, or told of a gap; anyone else is refused.
abbrev pub IsAnswered : Bool → ℕ → Result FetchTopicResult → Type 0
IsAnswered true i o =
    (r : FetchTopicResult) × (o ≡ ok r) × ((delivers i r.messages ≡ true) ⊎ (r.gap ≡ true))
IsAnswered false i o = o ≡ err not_subscribed

abbrev answered : (q : FetchTopicParams) (s : Store) → FetchTopicResult
answered q s = record {
  messages = messages_of s.entries (limited q.limit (beyond q.after (log_frames q.topic_id s)));
  head = Map.get q.topic_id s.heads;
  oldest = first (log_frames q.topic_id s);
  gap = has_gap (Map.get q.topic_id s.removed_through) q.after;
}

Accounted-frame-IsAnswered :
    (q : FetchTopicParams) (i : ℕ) (s : Store)
    → Accounted q.topic_id i s
    → q.limit ≡ none
    → is_after i q.after ≡ true
    → IsAnswered (is_subscribed q.subscriber_did q.topic_id s) i (fetch_topic q s)
unfolding fetch_topic
Accounted-frame-IsAnswered q i s a u h =
    elim (Bool-cases (is_subscribed q.subscriber_did q.topic_id s)) [
      | inr e ↦ rw e refl
      | inl e ↦ rw e (
        answered q s,
        refl,
        elim (Bool-cases (is_kept q.topic_id i s)) [
          | inl k ↦ inl (kept_frame_delivered q i s u h k)
          | inr k ↦ inr (passed_frame_reported q i s u h (ground (arith, a.accounted)))
        ],
      )
    ]

pub published-Accounted :
    (s : Store) (p : PublishParams) (now : ℕ) (r : PublishResult) (cs : List Call)
    → p.retain ≡ some log
    → (publish p now s).0 ≡ ok r
    → r.deduped ≡ false
    → Accounted p.topic_id r.sequence_id (run (publish p now s).1 cs)
published-Accounted s p now r cs class accepted fresh =
    run-keeps (Accounted-KeptByCalls p.topic_id r.sequence_id) _ cs
      (publish-Accounted_own s p now r class accepted fresh)

-- After a log publish that is accepted and not deduplicated, whatever calls follow: a reader of the
-- topic who asks with no limit, from a cursor before the frame, is handed the frame or told of a
-- gap where the store then holds it subscribed, and is refused exactly as not subscribed where it
-- does not.
pub published_frame-IsServed :
    (s : Store) (p : PublishParams) (now : ℕ) (r : PublishResult) (cs : List Call)
    (q : FetchTopicParams)
    → p.retain ≡ some log
    → (publish p now s).0 ≡ ok r
    → r.deduped ≡ false
    → q.topic_id ≡ p.topic_id
    → q.limit ≡ none
    → is_after r.sequence_id q.after ≡ true
    → let s' = run (publish p now s).1 cs in
      IsAnswered (is_subscribed q.subscriber_did q.topic_id s') r.sequence_id (fetch_topic q s')
published_frame-IsServed s p now r cs q class accepted fresh topic unlimited ahead =
    Accounted-frame-IsAnswered q r.sequence_id _
      (rw topic (published-Accounted s p now r cs class accepted fresh)) unlimited ahead
