-- ===== src/HubServer/MemoryStore/History.antt =====
-- packages/hub-server/src/memoryStore.ts: the store's methods as calls, and the state after a
-- sequence of calls. Each method runs to its end before the next, as the source's have no `await`
-- before their last write.
use kumiai.Shared.{ℕ, Option, List, [], ◌∷◌}
use kumiai.HubServer.MemoryStore.{Store, StoredKeyPackage}
use kumiai.HubServer.MemoryStore.Publish.{PublishParams, publish}
use kumiai.HubServer.MemoryStore.Read.{FetchParams, fetch}
use kumiai.HubServer.MemoryStore.Retention.{trim, ack, purge}
use kumiai.HubServer.MemoryStore.Subscriptions.{SubscribeParams, subscribe, unsubscribe}
use kumiai.HubServer.MemoryStore.KeyPackages.{
  store_key_package, fetch_key_packages, store_last_resort_key_package,
}

pub data Call : Type 0 where
  publishes : PublishParams → ℕ → Call
  fetches : FetchParams → Call
  trims : ℕ → ℕ → Call
  acks : ℕ → List ℕ → Call
  purges : ℕ → ℕ → Call
  subscribes : SubscribeParams → Call
  unsubscribes : ℕ → ℕ → Call
  stores_package : ℕ → StoredKeyPackage → ℕ → Call
  fetches_packages : ℕ → Option ℕ → ℕ → Call
  stores_last_resort : ℕ → ℕ → Call

unfoldable pub step : Store → Call → Store
step s (publishes p now) = (publish p now s).1
step s (fetches p) = (fetch p s).1
step s (trims topic before) = trim topic before s
step s (acks did ids) = ack did ids s
step s (purges older_than now) = (purge older_than now s).1
step s (subscribes p) = (subscribe p s).1
step s (unsubscribes did topic) = unsubscribe did topic s
step s (stores_package owner p now) = (store_key_package owner p now s).1
step s (fetches_packages owner count now) = (fetch_key_packages owner count now s).1
step s (stores_last_resort owner p) = store_last_resort_key_package owner p s

unfoldable pub run : Store → List Call → Store
run s [] = s
run s (c ∷ cs) = run (step s c) cs

-- An invariant of every call is an invariant of every history.
pub run_induction :
    (P : Store → Type 0)
    → ((s : Store) (c : Call) → P s → P (step s c))
    → (s : Store) (cs : List Call) → P s
    → P (run s cs)
unfolding run
run_induction P keep s [] h = h
run_induction P keep s (c ∷ cs) h = run_induction P keep (step s c) cs (keep s c h)
