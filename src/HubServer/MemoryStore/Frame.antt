-- ===== src/HubServer/MemoryStore/Frame.antt =====
-- packages/hub-server/src/memoryStore.ts: what the removal paths leave alone. Removing an entry or
-- a delivery touches no head, publish record, subscription or key package, and mints nothing.
use kumiai.HubServer.MemoryStore.Induction.{KeptByRemoval, trim_depth-keeps}
use kumiai.HubServer.MemoryStore.Publish.{PublishParams, bound_depth, append, store_frame}
use kumiai.Shared.{ℕ, ◌≡◌, List, [], ◌∷◌, arith}
use kumiai.HubServer.MemoryStore.{log, mailbox, RetentionClass, Store, remove_found}

pub record SameRest (s s' : Store) : Type 0 where
  pub same_options : s'.options ≡ s.options
  pub same_counter : s'.counter ≡ s.counter
  pub same_heads : s'.heads ≡ s.heads
  pub same_records : s'.publish_records ≡ s.publish_records
  pub same_subscriptions : s'.subscriptions ≡ s.subscriptions
  pub same_subs : s'.subs_by_did ≡ s.subs_by_did
  pub same_packages : s'.key_packages ≡ s.key_packages
  pub same_last_resort : s'.last_resort_key_packages ≡ s.last_resort_key_packages

pub SameRest-refl : (s : Store) → SameRest s s
SameRest-refl s = ground arith

pub SameRest-trans : {s t u : Store} → SameRest s t → SameRest t u → SameRest s u
SameRest-trans h k = ground arith

-- Relative to a store `o` that the paths started from.
pub SameRest-KeptByRemoval : (o : Store) → KeptByRemoval (SameRest o)
unfolding remove_found
SameRest-KeptByRemoval o = record {
  removed = λ id e s found h. ground arith;
  spliced = λ id did s h. ground arith;
  released = λ id did e s found h. ground arith;
}

pub store_frame-SameRest :
    (p : PublishParams) (r : RetentionClass) (ds : List ℕ) (now : ℕ) (s : Store)
    → SameRest s (store_frame p r ds now s)
unfolding store_frame append bound_depth
store_frame-SameRest p mailbox [] now s = ground arith
store_frame-SameRest p mailbox (d ∷ ds) now s = ground arith
store_frame-SameRest p log ds now s =
    trim_depth-keeps (SameRest-KeptByRemoval s) _ p.topic_id (append p log ds now s) (ground arith)
