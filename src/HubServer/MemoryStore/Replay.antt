-- ===== src/HubServer/MemoryStore/Replay.antt =====
-- packages/hub-server/src/memoryStore.ts: what each call does to the heads, the publish records and
-- the counter, and the records that answer a replay.
use kumiai.HubServer.MemoryStore.CallInduction.{publish_cases}
use kumiai.HubServer.MemoryStore.Induction.{
  purge-keeps, ack-keeps, trim-keeps, fetch-keeps, drop_topic-keeps,
}
use kumiai.HubServer.MemoryStore.KeyPackages.{
  store_last_resort_key_package, fetch_key_packages, store_key_package,
}
use kumiai.HubServer.MemoryStore.Subscriptions.{subscribe, withdraw, unsubscribe}
use kumiai.HubServer.MemoryStore.History.{
  run_induction, run, stores_last_resort, fetches_packages, stores_package, unsubscribes,
  subscribes, purges, acks, trims, fetches, publishes, Call, step,
}
use kumiai.Shared.{
  ℕ, ◌+◌, ◌≡◌, refl, true, Option, none, some, List, [], if◌then◌else◌, arith, or_default,
}
use kumiai.Shared.Map
use kumiai.Shared.Map.{Map, get-set}
use kumiai.HubServer.MemoryStore.{RetentionClass, mailbox, is_log, Store, ok}
use kumiai.HubServer.MemoryStore.Publish.{
  PublishParams, PublishResult, publish, accept, mint, accepted_as, record_publish, recipients_of,
}
use kumiai.HubServer.MemoryStore.Frame.{
  SameRest-refl, SameRest-KeptByRemoval, SameRest, store_frame-SameRest,
}

-- What a call leaves of the head register, the publish records and the counter.
pub record SameRegister (s s' : Store) : Type 0 where
  pub same_counter : s'.counter ≡ s.counter
  pub same_heads : s'.heads ≡ s.heads
  pub same_records : s'.publish_records ≡ s.publish_records

abbrev pub IsPublish : Call → Type 0
IsPublish (publishes p now) = Unit
IsPublish _ = ⊥

SameRest-SameRegister : {s s' : Store} → SameRest s s' → SameRegister s s'
SameRest-SameRegister h = ground arith

unsubscribe-SameRegister : (did topic : ℕ) (s : Store) → SameRegister s (unsubscribe did topic s)
unfolding unsubscribe withdraw
unsubscribe-SameRegister did topic s = ground (
  arith,
  drop_topic-keeps (SameRest-KeptByRemoval (withdraw did topic s)) did topic
      (or_default (Map.get did s.deliveries) []) (withdraw did topic s)
      (SameRest-refl (withdraw did topic s)),
)

-- Every call but `publish` leaves the register as it is.
pub step-SameRegister : (s : Store) (c : Call) → ¬ IsPublish c → SameRegister s (step s c)
unfolding step
step-SameRegister s (publishes p now) other = absurd (other tt)
step-SameRegister s (fetches p) other =
    SameRest-SameRegister (fetch-keeps (SameRest-KeptByRemoval s) p s (SameRest-refl s))
step-SameRegister s (trims topic before) other =
    SameRest-SameRegister (trim-keeps (SameRest-KeptByRemoval s) topic before s (SameRest-refl s))
step-SameRegister s (acks did ids) other =
    SameRest-SameRegister (ack-keeps (SameRest-KeptByRemoval s) did ids s (SameRest-refl s))
step-SameRegister s (purges older_than now) other =
    SameRest-SameRegister
      (purge-keeps (SameRest-KeptByRemoval s) older_than now s (SameRest-refl s))
step-SameRegister s (subscribes p) other = unfold subscribe in ground arith
step-SameRegister s (unsubscribes did topic) other = unsubscribe-SameRegister did topic s
step-SameRegister s (stores_package owner p now) other = unfold store_key_package in ground arith
step-SameRegister s (fetches_packages owner count now) other =
    unfold fetch_key_packages in ground arith
step-SameRegister s (stores_last_resort owner p) other =
    unfold store_last_resort_key_package in ground arith

-- A publish either answers from the record, refuses, or mints the next ID and moves the register.
pub accept-register :
    (p : PublishParams) (r : RetentionClass) (now : ℕ) (s : Store)
    → let s' = accept p r now s in
      (s'.counter ≡ s.counter + 1)
      × (s'.heads ≡ (if is_log r then Map.set p.topic_id (s.counter + 1) s.heads else s.heads))
      × (s'.publish_records ≡ record_publish p.publish_id (s.counter + 1) s.publish_records)
unfolding accept mint
accept-register p r now s = ground (
  arith,
  store_frame-SameRest p r (recipients_of p.topic_id p.sender_did (mint p r s)) now (mint p r s),
)

-- The publish ID `k` was accepted as `i`.
abbrev IsRecorded : ℕ → ℕ → Store → Type 0
IsRecorded k i s = Map.get k s.publish_records ≡ some i

pub record_publish-keeps :
    (k i id : ℕ) (o : Option ℕ) (s : Store)
    → accepted_as o s ≡ none
    → IsRecorded k i s
    → Map.get k (record_publish o id s.publish_records) ≡ some i
unfolding accepted_as
record_publish-keeps k i id none s e h = h
record_publish-keeps k i id (some p) s e h = ground (arith, get-set k p id s.publish_records)

publish-IsRecorded :
    (k i now : ℕ) (p : PublishParams) (s : Store)
    → IsRecorded k i s
    → IsRecorded k i (publish p now s).1
publish-IsRecorded k i now p s h =
    publish_cases (λ q. IsRecorded k i q.1) p now s (λ _ _. h) (λ _. h)
      (λ e _.
        rw ((accept-register p _ now s).2)
          (record_publish-keeps k i (s.counter + 1) p.publish_id s e h))

step-IsRecorded : (k i : ℕ) (s : Store) (c : Call) → IsRecorded k i s → IsRecorded k i (step s c)
step-IsRecorded k i s (publishes p now) h = unfold step in publish-IsRecorded k i now p s h
step-IsRecorded k i s c h = rw ((step-SameRegister s c (λ e. e)).same_records) h

publish-IsRecorded_own :
    (s : Store) (p : PublishParams) (k now : ℕ) (r : PublishResult)
    → p.publish_id ≡ some k
    → (publish p now s).0 ≡ ok r
    → IsRecorded k r.sequence_id (publish p now s).1
unfolding accepted_as
publish-IsRecorded_own s p k now r e =
    publish_cases (λ q. q.0 ≡ ok r → IsRecorded k r.sequence_id q.1) p now s
      (λ id f h. ground (arith, e, f, h)) (λ _ h. cc)
      (λ f m h.
        rw ((accept-register p (or_default p.retain mailbox) now s).2, e)
          (ground (arith, h, get-set k k (s.counter + 1) s.publish_records)))

replay_recorded :
    (k i now : ℕ) (p : PublishParams) (s : Store)
    → p.publish_id ≡ some k
    → IsRecorded k i s
    → publish p now s ≡ (ok (record { sequence_id = i; deduped = true }), s)
unfolding publish accepted_as
replay_recorded k i now p s e h = rw (e, accepted_as, h, publish) refl

-- A publish that was accepted under a publish ID is answered with its sequence ID whenever it is
-- replayed, after any calls, with any expected head: the replay stores nothing.
pub replay_answered :
    (s : Store) (p p' : PublishParams) (k now now' : ℕ) (r : PublishResult) (cs : List Call)
    → p.publish_id ≡ some k
    → p'.publish_id ≡ some k
    → (publish p now s).0 ≡ ok r
    → publish p' now' (run (publish p now s).1 cs)
      ≡ (ok (record { sequence_id = r.sequence_id; deduped = true }), run (publish p now s).1 cs)
replay_answered s p p' k now now' r cs e e' h = replay_recorded k r.sequence_id now' p' _ e' (
    run_induction (IsRecorded k r.sequence_id) (step-IsRecorded k r.sequence_id) _ cs
      (publish-IsRecorded_own s p k now r e h))
