-- ===== src/HubServer/MemoryStore/Tests.antt =====
-- Runs of packages/hub-server/src/memoryStore.ts on concrete calls.
use kumiai.Shared.{
  List, ◌/◌, ℕ, ◌+◌, ◌≤◌, ◌≡◌, refl, true, false, none, some, [], ◌∷◌, ◌++◌, or_default, length,
  min,
}
use kumiai.Shared.Map
use kumiai.Shared.Map.{Map, get-set, get-delete, get-empty}
use kumiai.HubServer.MemoryStore.Accounting.{log_of}
use kumiai.HubServer.MemoryStore.Subscriptions.{subscribe}
use kumiai.HubServer.MemoryStore.Heads.{only_one_winner}
use kumiai.HubServer.MemoryStore.Replay.{replay_answered}
use kumiai.HubServer.MemoryStore.DepthBound.{log_depth_bounded}
use kumiai.HubServer.MemoryStore.OldestFirst.{publish_evicts_oldest}
use kumiai.HubServer.MemoryStore.AckForever.{acked_never_served}
use kumiai.HubServer.MemoryStore.PackagePool.{fetch_key_packages_splits, live_keys}
use kumiai.HubServer.MemoryStore.Pages.{fetch_resumes, reached}
use kumiai.HubServer.MemoryStore.KeyPackages.{count_key_packages, pool_of, fetch_key_packages}
use kumiai.HubServer.MemoryStore.Depth.{log_depth}
use kumiai.HubServer.MemoryStore.Retention.{ack}
use kumiai.HubServer.MemoryStore.LogReaders.{published_frame-IsServed, delivers, IsAnswered}
use kumiai.HubServer.MemoryStore.Read.{
  beyond, limited, messages_of, is_subscribed, fetch_topic, fetch, FetchTopicParams, FetchParams,
}
use kumiai.HubServer.MemoryStore.History.{
  step, trims, stores_package, publishes, subscribes, run, Call,
}
use kumiai.HubServer.MemoryStore.Publish.{
  accepted_as, log_frames, publish, PublishParams, PublishResult,
}
use kumiai.HubServer.MemoryStore.{
  head_mismatch, err, ok, log, create_memory_store, Store, MemoryStoreOptions,
}

abbrev options : MemoryStoreOptions
options = record {
  max_depth = 2;
  default_retention = 0;
  max_retention = some 60;
  max_key_packages_per_did = 2;
  max_subscriptions_per_did = 3;
}

abbrev commit_frame : PublishParams
commit_frame = record {
  sender_did = 1;
  topic_id = 7;
  payload = 5 ∷ [];
  retain = some log;
  publish_id = some 40;
  expected_head = some none;
}

abbrev rival_frame : PublishParams
rival_frame = record {
  sender_did = 2;
  topic_id = 7;
  payload = 6 ∷ [];
  retain = some log;
  publish_id = some 41;
  expected_head = some none;
}

abbrev mail : PublishParams
mail = record {
  sender_did = 1;
  topic_id = 7;
  payload = 9 ∷ [];
  retain = none;
  publish_id = none;
  expected_head = none;
}

abbrev joins : ℕ → Call
joins did = subscribes (record { subscriber_did = did; topic_id = 7; retention = none })

abbrev from_start : FetchTopicParams
from_start = record { subscriber_did = 3; topic_id = 7; after = none; limit = none }

abbrev first_result : PublishResult
first_result = record { sequence_id = 1; deduped = false }

abbrev new_store : Store
new_store = create_memory_store options

abbrev trimmed_store : Store
trimmed_store =
    run (publish commit_frame 0 new_store).1 (joins 3 ∷ publishes mail 1 ∷ trims 7 2 ∷ [])

published_frame-IsServed_example :
    IsAnswered
      (is_subscribed from_start.subscriber_did 7 trimmed_store)
      1
      (fetch_topic from_start trimmed_store)
unfolding Map.get Map.set Map.keys publish run step subscribe create_memory_store accepted_as
published_frame-IsServed_example =
    published_frame-IsServed new_store commit_frame 0 first_result
      (joins 3 ∷ publishes mail 1 ∷ trims 7 2 ∷ []) from_start refl refl refl refl refl refl

only_one_winner_example :
    publish rival_frame 5 (
      run
        (publish commit_frame 1 (run (create_memory_store options) (joins 1 ∷ []))).1
        (publishes mail 2 ∷ []))
    ≡ (
      err head_mismatch,
      run
          (publish commit_frame 1 (run (create_memory_store options) (joins 1 ∷ []))).1
          (publishes mail 2 ∷ []),
    )
unfolding Map.get Map.set Map.keys publish run step subscribe create_memory_store accepted_as
only_one_winner_example =
    only_one_winner options (joins 1 ∷ []) (publishes mail 2 ∷ []) commit_frame rival_frame 1 5
      first_result none refl refl refl refl refl refl refl

replay_answered_example :
    publish commit_frame 9 (run (publish commit_frame 0 new_store).1 (trims 7 2 ∷ [])) ≡ (
      ok (record { sequence_id = 1; deduped = true }),
      run (publish commit_frame 0 new_store).1 (trims 7 2 ∷ []),
    )
unfolding Map.get Map.set Map.keys publish run step subscribe create_memory_store accepted_as
replay_answered_example =
    replay_answered new_store commit_frame commit_frame 40 0 9 first_result (trims 7 2 ∷ []) refl
      refl refl

abbrev reads_mail : FetchParams
reads_mail = record { recipient_did = 2; after = none; limit = none; ack = [] }

acked_never_served_example :
    delivers 1
      (fetch reads_mail (
        run
          (ack 2 (1 ∷ []) (reached options (joins 2 ∷ joins 3 ∷ publishes mail 0 ∷ [])))
          (publishes mail 1 ∷ []))).0.messages
    ≡ false
unfolding Map.get Map.set Map.keys publish run step subscribe create_memory_store accepted_as
acked_never_served_example =
    acked_never_served options (joins 2 ∷ joins 3 ∷ publishes mail 0 ∷ []) (publishes mail 1 ∷ []) 2
      1 (1 ∷ []) reads_mail refl refl refl

fetch_resumes_example :
    let s' = ack 2 [] (reached options (joins 2 ∷ publishes mail 0 ∷ publishes mail 1 ∷ [])) in
    ((fetch reads_mail (reached options (joins 2 ∷ publishes mail 0 ∷ publishes mail 1 ∷ []))).1
      ≡ s')
    × ((fetch reads_mail
          (reached options (joins 2 ∷ publishes mail 0 ∷ publishes mail 1 ∷ []))).0.messages
        ≡ messages_of s'.entries (limited none (beyond none (log_of 2 s'.deliveries))))
fetch_resumes_example =
    fetch_resumes options (joins 2 ∷ publishes mail 0 ∷ publishes mail 1 ∷ []) reads_mail

log_depth_bounded_example :
    log_depth 7 (reached options (publishes commit_frame 0 ∷ publishes mail 1 ∷ [])) ≤ 2
log_depth_bounded_example =
    log_depth_bounded options (publishes commit_frame 0 ∷ publishes mail 1 ∷ []) 7

abbrev note : ℕ → PublishParams
note byte = record {
  sender_did = 1;
  topic_id = 7;
  payload = byte ∷ [];
  retain = some log;
  publish_id = none;
  expected_head = none;
}

abbrev full_log : List Call
full_log = publishes (note 1) 0 ∷ publishes mail 1 ∷ publishes (note 3) 2 ∷ []

publish_evicts_oldest_example :
    log_frames 7 (publish (note 4) 3 (reached options full_log)).1 ≡ 3 ∷ 4 ∷ []
unfolding Map.get Map.set Map.keys publish run step create_memory_store accepted_as log_frames
publish_evicts_oldest_example =
    publish_evicts_oldest options full_log (note 4) 3 (record { sequence_id = 4; deduped = false })
      refl refl refl

abbrev pooled : Store
pooled = reached options (
    stores_package 4 (record { key_package = 11; not_after = some 1 }) 0
    ∷ stores_package 4 (record { key_package = 12; not_after = none }) 0
    ∷ [])

fetch_key_packages_splits_example :
    let (served, s') = fetch_key_packages 4 none 5000 pooled in
    (live_keys (5000 / 1000) (pool_of 4 pooled) ≡ served ++ live_keys (5000 / 1000) (pool_of 4 s'))
    × (length served ≡ min (or_default none 1) (count_key_packages 4 5000 pooled))
    × (count_key_packages 4 5000 pooled ≡ length served + count_key_packages 4 5000 s')
fetch_key_packages_splits_example = fetch_key_packages_splits 4 5000 none pooled
