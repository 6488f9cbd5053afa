-- ===== src/Rpc/RecoveryCache.antt =====
-- packages/rpc/src/recovery-confirmation.ts, `createRecoveryCache`: the confirmation keys that a
-- responder holds, each until it expires. Cache keys and values are numbers; `released` collects
-- what the `release` callback is given, in order. A held entry's timer fires as the call `expires`.
pub mod Release
pub mod Lookup
use kumiai.Shared.{
  ℕ, zero, suc, ◌+◌, ◌-◌, ◌*◌, ◌≤◌, ◌<◌, ◌≡◌, ◌≢◌, refl, sym, ap, ◌⊎◌, ◌↔◌, inl, inr, Bool, true,
  false, not, ◌&&◌, ◌||◌, Option, none, some, List, [], ◌∷◌, ◌++◌, ◌==◌, ltb, leb, if◌then◌else◌,
  or_default, is_some, arith, All, length, Bool-cases, Option-cases, ==_iff, ==_refl, ==_ne, min,
  max, map, has, erase,
}
use kumiai.Shared.Map
use kumiai.Shared.Map.{Map, get-set, get-delete, get-empty}

-- The entry of `RecoveryCacheEntry` with its key, in a list that keeps the map's insertion order.
pub record CacheEntry : Type 0 where
  pub key : ℕ
  pub value : ℕ
  pub expires_at : ℕ

pub record RecoveryCache : Type 0 where
  pub entries : List CacheEntry
  pub released : List ℕ

unfoldable pub create_recovery_cache : RecoveryCache
create_recovery_cache = record { entries = []; released = [] }

-- `entries.size > 1024`
unfoldable pub cache_limit : ℕ
cache_limit = 1024

abbrev pub find_key : ℕ → List CacheEntry → Option CacheEntry
find_key key [] = none
find_key key (e ∷ es) = if e.key == key then some e else find_key key es

abbrev pub delete_key : ℕ → List CacheEntry → List CacheEntry
delete_key key [] = []
delete_key key (e ∷ es) = if e.key == key then es else e ∷ delete_key key es

abbrev pub release_found : Option CacheEntry → ℕ → RecoveryCache → RecoveryCache
release_found none key c = c
release_found (some held) key c = record {
  entries = delete_key key c.entries;
  released = c.released ++ held.value ∷ [];
}

unfoldable pub remove_key : ℕ → RecoveryCache → RecoveryCache
remove_key key c = release_found (find_key key c.entries) key c

abbrev pub is_expired : ℕ → Option CacheEntry → Bool
is_expired now none = false
is_expired now (some held) = leb held.expires_at now

unfoldable pub get_entry : ℕ → ℕ → RecoveryCache → Option CacheEntry × RecoveryCache
unfolding remove_key
get_entry key now c =
    let held = find_key key c.entries in
    if is_expired now held then (none, remove_key key c) else (held, c)

-- `while (entries.size > 1024) remove(oldest)`
unfoldable pub evict : List CacheEntry → List ℕ → RecoveryCache
unfolding cache_limit
evict [] released = record { entries = []; released = released }
evict (e ∷ es) released =
    let rest = evict es (released ++ e.value ∷ []) in
    if ltb cache_limit (length (e ∷ es))
    then rest
    else record { entries = e ∷ es; released = released }

abbrev pub entry_at : ℕ → ℕ → ℕ → CacheEntry
entry_at key value expires_at = record { key = key; value = value; expires_at = expires_at }

unfoldable pub set_entry : ℕ → ℕ → ℕ → ℕ → RecoveryCache → RecoveryCache
unfolding remove_key evict
set_entry key value expires_at now c =
    let c' = remove_key key c in
    if leb expires_at now
    then record { entries = c'.entries; released = c'.released ++ value ∷ [] }
    else evict (c'.entries ++ entry_at key value expires_at ∷ []) c'.released

abbrev pub values : List CacheEntry → List ℕ
values [] = []
values (e ∷ es) = e.value ∷ values es

unfoldable pub clear_cache : RecoveryCache → RecoveryCache
clear_cache c = record { entries = []; released = c.released ++ values c.entries }

pub data CacheCall : Type 0 where
  deletes expires : ℕ → CacheCall
  gets : ℕ → ℕ → CacheCall
  sets : ℕ → ℕ → ℕ → ℕ → CacheCall
  clears : CacheCall

unfoldable pub cache_step : RecoveryCache → CacheCall → RecoveryCache
unfolding remove_key get_entry set_entry clear_cache
cache_step c (deletes key) = remove_key key c
cache_step c (expires key) = remove_key key c
cache_step c (gets key now) = (get_entry key now c).1
cache_step c (sets key value expires_at now) = set_entry key value expires_at now c
cache_step c clears = clear_cache c

unfoldable pub cache_run : RecoveryCache → List CacheCall → RecoveryCache
unfolding cache_step
cache_run c [] = c
cache_run c (call ∷ calls) = cache_run (cache_step c call) calls
