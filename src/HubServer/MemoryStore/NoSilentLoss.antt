-- ===== src/HubServer/MemoryStore/NoSilentLoss.antt =====
-- packages/hub-server/src/memoryStore.ts: a reader of a topic's log is never missing a frame
-- without being told. `fetchTopic` hands out every log frame past the cursor, or reports a gap.
use kumiai.HubServer.MemoryStore.Induction.{trim_depth-keeps}
use kumiai.HubServer.MemoryStore.CallInduction.{stored_of_appended, KeptByCalls}
use kumiai.Shared.{
  ℕ, ◌+◌, ◌<◌, ◌≡◌, refl, inl, inr, true, false, ◌||◌, some, List, [], ◌∷◌, ◌++◌, ◌==◌, has-append,
  if◌then◌else◌, Option-cases, Bool-cases, arith, or_default,
}
use kumiai.Shared.Map
use kumiai.Shared.Map.{Map, get-set}
use kumiai.HubServer.MemoryStore.{RetentionClass, log, Store, ok}
use kumiai.HubServer.MemoryStore.Publish.{
  PublishParams, PublishResult, publish, accept, mint, append, push_id, store_frame, bound_depth,
  recipients_of, accepted_as, head_matches,
}
use kumiai.HubServer.MemoryStore.Accounting.{
  Accounted-KeptByRemoval, Accounted, is_kept, is_passed, log_of,
}

pub log_of-push_id :
    (t topic id : ℕ) (logs : Map (List ℕ))
    → log_of t (push_id topic id logs)
      ≡ (if topic == t then log_of t logs ++ id ∷ [] else log_of t logs)
unfolding push_id
log_of-push_id t topic id logs =
    ground (arith, get-set t topic (or_default (Map.get topic logs) [] ++ id ∷ []) logs)

-- Appending under a fresh ID disturbs no frame that was minted before.
append-accounted :
    (t i now : ℕ) (p : PublishParams) (r : RetentionClass) (ds : List ℕ) (s : Store)
    → i < s.counter
    → (is_kept t i s || is_passed t i s) ≡ true
    → (is_kept t i (append p r ds now s) || is_passed t i (append p r ds now s)) ≡ true
unfolding append is_kept is_passed
append-accounted t i now p r ds s fresh h = ground (
  arith,
  get-set i s.counter
      (record {
        sequence_id = s.counter;
        sender_did = p.sender_did;
        topic_id = p.topic_id;
        payload = p.payload;
        stored_at = now;
        retain = r;
        pending_for = ds;
      })
      s.entries,
  log_of-push_id t p.topic_id s.counter s.topic_logs,
  has-append i (log_of t s.topic_logs) (s.counter ∷ []),
)

append-Accounted :
    (t i now : ℕ) (p : PublishParams) (r : RetentionClass) (ds : List ℕ) (s : Store)
    → Accounted t i s
    → Accounted t i (append p r ds now (mint p r s))
unfolding mint is_kept is_passed
append-Accounted t i now p r ds s h = record {
  minted = unfold append in omega (arith, h.minted);
  accounted = append-accounted t i now p r ds (mint p r s) (omega (arith, h.minted)) h.accounted;
}

-- The account of a frame survives every call.
pub Accounted-KeptByCalls : (t i : ℕ) → KeptByCalls (Accounted t i)
unfolding mint is_kept is_passed
Accounted-KeptByCalls t i = record {
  kept = Accounted-KeptByRemoval t i;
  stored =
      stored_of_appended (Accounted-KeptByRemoval t i)
        (λ p r s h. record { minted = omega (arith, h.minted); accounted = h.accounted })
        (λ p r ds now s _ h. append-Accounted t i now p r ds s h);
  untouched = λ s s' same h. record {
    minted = rw (same.same_counter) h.minted;
    accounted = rw (same.same_entries, same.same_logs, same.same_removed) h.accounted;
  };
}

appended_frame :
    (now : ℕ) (p : PublishParams) (ds : List ℕ) (s : Store)
    → is_kept p.topic_id s.counter (append p log ds now s) ≡ true
unfolding append is_kept
appended_frame now p ds s = ground (
  arith,
  get-set s.counter s.counter
      (record {
        sequence_id = s.counter;
        sender_did = p.sender_did;
        topic_id = p.topic_id;
        payload = p.payload;
        stored_at = now;
        retain = log;
        pending_for = ds;
      })
      s.entries,
  log_of-push_id p.topic_id p.topic_id s.counter s.topic_logs,
  has-append s.counter (log_of p.topic_id s.topic_logs) (s.counter ∷ []),
)

-- A log publish that is accepted accounts for its own frame.
pub accept-Accounted_own :
    (now : ℕ) (p : PublishParams) (s : Store)
    → Accounted p.topic_id (s.counter + 1) (accept p log now s)
unfolding accept mint store_frame bound_depth is_kept
accept-Accounted_own now p s =
    trim_depth-keeps (Accounted-KeptByRemoval p.topic_id (s.counter + 1)) _ p.topic_id
      (append p log (recipients_of p.topic_id p.sender_did (mint p log s)) now (mint p log s))
      (record {
        minted = unfold append in omega arith;
        accounted = rw (appended_frame now p _ (mint p log s)) refl;
      })

pub publish-Accounted_own :
    (s : Store) (p : PublishParams) (now : ℕ) (r : PublishResult)
    → p.retain ≡ some log
    → (publish p now s).0 ≡ ok r
    → r.deduped ≡ false
    → Accounted p.topic_id r.sequence_id (publish p now s).1
unfolding publish
publish-Accounted_own s p now r class accepted fresh =
    elim (Option-cases (accepted_as p.publish_id s)) [
      | inr (id, e) ↦ absurd (ground (arith, e))
      | inl e ↦ elim (Bool-cases (head_matches p.expected_head (Map.get p.topic_id s.heads))) [
        | inr m ↦ absurd (ground (arith, e, m))
        | inl m ↦
            let minted : r.sequence_id ≡ s.counter + 1 = ground (arith, e, m) in
            rw (e, m, class, minted, publish) (accept-Accounted_own now p s)
      ]
    ]
