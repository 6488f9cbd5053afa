-- ===== src/HubServer/MemoryStore/CallInduction.antt =====
-- packages/hub-server/src/memoryStore.ts: the cases of `publish`, and the induction over every call.
use kumiai.HubServer.MemoryStore.History.{
  stores_last_resort, fetches_packages, stores_package, unsubscribes, subscribes, purges, acks,
  trims, fetches, run_induction, run, publishes, Call, step,
}
use kumiai.HubServer.MemoryStore.KeyPackages.{
  store_key_package, store_last_resort_key_package, fetch_key_packages,
}
use kumiai.HubServer.MemoryStore.Subscriptions.{SubscribeParams, subscribe, withdraw, unsubscribe}
use kumiai.Shared.{
  ◌+◌, ℕ, ◌≡◌, inl, inr, true, false, Option, none, some, List, [], ◌∷◌, Option-cases, Bool-cases,
  arith, or_default, add, ◌==◌,
}
use kumiai.Shared.Map
use kumiai.Shared.Ascending.{Distinct, Distinct-add}
use kumiai.HubServer.MemoryStore.{
  StoredKeyPackage, Store, RetentionClass, log, mailbox, Result, ok, err, head_mismatch,
}
use kumiai.HubServer.MemoryStore.Publish.{
  PublishParams, PublishResult, mint, append, store_frame, accept, publish, bound_depth,
  accepted_as, head_matches, collect, recipients_of,
}
use kumiai.HubServer.MemoryStore.Induction.{
  purge-keeps, ack-keeps, trim-keeps, fetch-keeps, drop_topic-keeps, trim_depth-keeps,
  KeptByRemoval,
}

pub publish_cases {ℓ} :
    (P : Result PublishResult × Store → Type ℓ) (p : PublishParams) (now : ℕ) (s : Store)
    → ((id : ℕ)
        → accepted_as p.publish_id s ≡ some id
        → P (ok (record { sequence_id = id; deduped = true }), s))
    → (head_matches p.expected_head (Map.get p.topic_id s.heads) ≡ false → P (err head_mismatch, s))
    → (accepted_as p.publish_id s ≡ none
        → head_matches p.expected_head (Map.get p.topic_id s.heads) ≡ true
        → P (
          ok (record { sequence_id = s.counter + 1; deduped = false }),
          accept p (or_default p.retain mailbox) now s,
        ))
    → P (publish p now s)
unfolding publish
publish_cases P p now s replay refused accepted = elim (Option-cases (accepted_as p.publish_id s)) [
  | inr (id, e) ↦ rw (e, publish) (replay id e)
  | inl e ↦ elim (Bool-cases (head_matches p.expected_head (Map.get p.topic_id s.heads))) [
    | inl m ↦ rw (e, publish, m) (accepted e m)
    | inr m ↦ rw (e, publish, m) (refused m)
  ]
]

-- The recipients of a frame are a set.
collect-Distinct :
    (sender : ℕ) (dids acc : List ℕ) → Distinct acc → Distinct (collect sender dids acc)
unfolding collect
collect-Distinct sender [] acc h = h
collect-Distinct sender (did ∷ dids) acc h = elim (Bool-cases (did == sender)) [
  | inl e ↦ rw e (collect-Distinct sender dids acc h)
  | inr e ↦ rw e (collect-Distinct sender dids (add did acc) (Distinct-add did acc h))
]

recipients_of-Distinct : (topic sender : ℕ) (s : Store) → Distinct (recipients_of topic sender s)
unfolding recipients_of
recipients_of-Distinct topic sender s =
    collect-Distinct sender
      (elim (Map.get topic s.subscriptions) [ none ↦ [] | some m ↦ Map.keys m ]) [] tt

-- The frames, their deliveries, the heads and the publish records are untouched.
pub record SameFrames (s s' : Store) : Type 0 where
  pub same_options : s'.options ≡ s.options
  pub same_counter : s'.counter ≡ s.counter
  pub same_entries : s'.entries ≡ s.entries
  pub same_logs : s'.topic_logs ≡ s.topic_logs
  pub same_removed : s'.removed_through ≡ s.removed_through
  pub same_deliveries : s'.deliveries ≡ s.deliveries
  pub same_heads : s'.heads ≡ s.heads
  pub same_records : s'.publish_records ≡ s.publish_records

-- `P` survives the removal paths, a stored frame, and what touches no frame.
pub record KeptByCalls (P : Store → Type 0) : Type 0 where
  pub kept : KeptByRemoval P
  pub stored :
      (p : PublishParams) (r : RetentionClass) (ds : List ℕ) (now : ℕ) (s : Store)
      → Distinct ds
      → P s
      → P (store_frame p r ds now (mint p r s))
  pub untouched : (s s' : Store) → SameFrames s s' → P s → P s'

-- Where a mint and an append keep `P` apart, so does the stored frame.
pub stored_of_appended :
    {P : Store → Type 0}
    → KeptByRemoval P
    → ((p : PublishParams) (r : RetentionClass) (s : Store) → P s → P (mint p r s))
    → ((p : PublishParams) (r : RetentionClass) (ds : List ℕ) (now : ℕ) (s : Store)
        → Distinct ds
        → P s
        → P (append p r ds now (mint p r s)))
    → (p : PublishParams) (r : RetentionClass) (ds : List ℕ) (now : ℕ) (s : Store) → Distinct ds
    → P s
    → P (store_frame p r ds now (mint p r s))
unfolding store_frame bound_depth
stored_of_appended k minted appended p mailbox [] now s f h = minted p mailbox s h
stored_of_appended k minted appended p mailbox (d ∷ ds) now s f h =
    appended p mailbox (d ∷ ds) now s f h
stored_of_appended k minted appended p log ds now s f h =
    trim_depth-keeps k _ p.topic_id (append p log ds now (mint p log s))
      (appended p log ds now s f h)

subscribe-SameFrames : (p : SubscribeParams) (s : Store) → SameFrames s (subscribe p s).1
unfolding subscribe
subscribe-SameFrames p s = ground arith

store_key_package-SameFrames :
    (owner now : ℕ) (p : StoredKeyPackage) (s : Store)
    → SameFrames s (store_key_package owner p now s).1
unfolding store_key_package
store_key_package-SameFrames owner now p s = ground arith

fetch_key_packages-SameFrames :
    (owner now : ℕ) (count : Option ℕ) (s : Store)
    → SameFrames s (fetch_key_packages owner count now s).1
unfolding fetch_key_packages
fetch_key_packages-SameFrames owner now count s = ground arith

store_last_resort-SameFrames :
    (owner p : ℕ) (s : Store) → SameFrames s (store_last_resort_key_package owner p s)
unfolding store_last_resort_key_package
store_last_resort-SameFrames owner p s = ground arith

withdraw-SameFrames : (did topic : ℕ) (s : Store) → SameFrames s (withdraw did topic s)
unfolding withdraw
withdraw-SameFrames did topic s = ground arith

module _ {P : Store → Type 0} (k : KeptByCalls P) where
  pub accept-keeps :
      (p : PublishParams) (r : RetentionClass) (now : ℕ) (s : Store) → P s → P (accept p r now s)
  unfolding accept
  accept-keeps p r now s h =
      k.stored p r (recipients_of p.topic_id p.sender_did (mint p r s)) now s
        (recipients_of-Distinct p.topic_id p.sender_did (mint p r s)) h

  pub publish-keeps : (p : PublishParams) (now : ℕ) (s : Store) → P s → P (publish p now s).1
  publish-keeps p now s h =
      publish_cases (λ q. P q.1) p now s (λ _ _. h) (λ _. h)
        (λ _ _. accept-keeps p (or_default p.retain mailbox) now s h)

  unsubscribe-keeps : (did topic : ℕ) (s : Store) → P s → P (unsubscribe did topic s)
  unfolding unsubscribe
  unsubscribe-keeps did topic s h =
      drop_topic-keeps k.kept did topic (or_default (Map.get did s.deliveries) [])
        (withdraw did topic s)
        (k.untouched s (withdraw did topic s) (withdraw-SameFrames did topic s) h)

  pub step-keeps : (s : Store) (c : Call) → P s → P (step s c)
  unfolding step
  step-keeps s (publishes p now) h = publish-keeps p now s h
  step-keeps s (fetches p) h = fetch-keeps k.kept p s h
  step-keeps s (trims topic before) h = trim-keeps k.kept topic before s h
  step-keeps s (acks did ids) h = ack-keeps k.kept did ids s h
  step-keeps s (purges older_than now) h = purge-keeps k.kept older_than now s h
  step-keeps s (subscribes p) h = k.untouched s _ (subscribe-SameFrames p s) h
  step-keeps s (unsubscribes did topic) h = unsubscribe-keeps did topic s h
  step-keeps s (stores_package owner p now) h =
      k.untouched s _ (store_key_package-SameFrames owner now p s) h
  step-keeps s (fetches_packages owner count now) h =
      k.untouched s _ (fetch_key_packages-SameFrames owner now count s) h
  step-keeps s (stores_last_resort owner p) h =
      k.untouched s _ (store_last_resort-SameFrames owner p s) h

  -- Every history of calls keeps `P`.
  pub run-keeps : (s : Store) (cs : List Call) → P s → P (run s cs)
  run-keeps = run_induction P step-keeps
