-- ===== src/Rpc/RecoveryCache/Lookup.antt =====
-- packages/rpc/src/recovery-confirmation.ts, `createRecoveryCache`: the cache is bounded, and a get
-- right after a set finds what was set.
use kumiai.Rpc.RecoveryCache.{
  clears, sets, is_expired, gets, expires, deletes, CacheCall, create_recovery_cache, clear_cache,
  get_entry, cache_run, entry_at, cache_step, delete_key, find_key, cache_limit, CacheEntry,
  set_entry, remove_key, evict, RecoveryCache,
}
use kumiai.Shared.{
  subst, subst, ℕ, ◌≤◌, ◌<◌, ◌≡◌, refl, ap, inl, inr, false, none, some, List, [], ◌∷◌, ◌++◌, ◌==◌,
  ltb, leb, if◌then◌else◌, arith, length, Bool-cases, Option-cases, ==_iff, ==_refl, has,
}
use kumiai.Shared.Ascending.{Distinct, Distinct-append-one}

abbrev keys : List CacheEntry → List ℕ
keys [] = []
keys (e ∷ es) = e.key ∷ keys es

keys-append : (es fs : List CacheEntry) → keys (es ++ fs) ≡ keys es ++ keys fs
keys-append [] fs = refl
keys-append (e ∷ es) fs = ap (λ z. e.key ∷ z) (keys-append es fs)

has-delete_key :
    (k key : ℕ) (es : List CacheEntry)
    → has k (keys es) ≡ false
    → has k (keys (delete_key key es)) ≡ false
has-delete_key k key [] h = refl
has-delete_key k key (e ∷ es) h = ground (arith, h, has-delete_key k key es)

delete_key-Distinct :
    (key : ℕ) (es : List CacheEntry)
    → Distinct (keys es)
    → Distinct (keys (delete_key key es)) × (has key (keys (delete_key key es)) ≡ false)
delete_key-Distinct key [] d = (tt, refl)
delete_key-Distinct key (e ∷ es) (fresh, d) = elim (Bool-cases (e.key == key)) [
  | inl a ↦ rw a (d, subst (λ k. has k (keys es) ≡ false) ((==_iff e.key key).0 a) fresh)
  | inr a ↦
      let (rest, absent) = delete_key-Distinct key es d in
      rw a ((has-delete_key e.key key es fresh, rest), ground (arith, a, absent))
]

find-absent : (key : ℕ) (es : List CacheEntry) → find_key key es ≡ none → has key (keys es) ≡ false
find-absent key [] h = refl
find-absent key (e ∷ es) h = elim (Bool-cases (e.key == key)) [
  | inl a ↦ absurd (ground (arith, a, h))
  | inr a ↦ ground (arith, a, find-absent key es, h)
]

-- No two entries share a key.
abbrev pub IsKeyed : RecoveryCache → Type 0
IsKeyed c = Distinct (keys c.entries)

remove_key-IsKeyed :
    (key : ℕ) (c : RecoveryCache)
    → IsKeyed c
    → IsKeyed (remove_key key c) × (has key (keys (remove_key key c).entries) ≡ false)
unfolding remove_key
remove_key-IsKeyed key c d = elim (Option-cases (find_key key c.entries)) [
  | inl e ↦ rw e (d, find-absent key c.entries e)
  | inr (held, e) ↦ rw e (delete_key-Distinct key c.entries d)
]

evict-IsKeyed :
    (es : List CacheEntry) (released : List ℕ) → Distinct (keys es) → IsKeyed (evict es released)
unfolding evict
evict-IsKeyed [] released d = tt
evict-IsKeyed (e ∷ es) released (fresh, d) = elim (Bool-cases (ltb cache_limit (length (e ∷ es)))) [
  | inl a ↦ rw a (evict-IsKeyed es (released ++ e.value ∷ []) d)
  | inr a ↦ rw a (fresh, d)
]

evict-length :
    (es : List CacheEntry) (released : List ℕ) → length (evict es released).entries ≤ cache_limit
unfolding evict
evict-length [] released = omega arith
evict-length (e ∷ es) released = elim (Bool-cases (ltb cache_limit (length (e ∷ es)))) [
  | inl a ↦ rw a (evict-length es (released ++ e.value ∷ []))
  | inr a ↦ rw a (ground (arith, a))
]

find-last :
    (es : List CacheEntry) (e : CacheEntry)
    → has e.key (keys es) ≡ false
    → find_key e.key (es ++ e ∷ []) ≡ some e
find-last [] e h = ground (arith, ==_refl e.key)
find-last (f ∷ es) e h = ground (arith, h, find-last es e)

find-evict :
    (es : List CacheEntry) (e : CacheEntry) (released : List ℕ)
    → has e.key (keys es) ≡ false
    → find_key e.key (evict (es ++ e ∷ []) released).entries ≡ some e
unfolding evict
find-evict [] e released h = unfold cache_limit in ground (arith, ==_refl e.key)
find-evict (f ∷ es) e released h =
    elim (Bool-cases (ltb cache_limit (length ((f ∷ es) ++ e ∷ [])))) [
      | inl a ↦ rw a (find-evict es e (released ++ f.value ∷ []) (ground (arith, h)))
      | inr a ↦ rw a (find-last (f ∷ es) e h)
    ]

put-IsKeyed :
    (c : RecoveryCache) (e : CacheEntry)
    → IsKeyed c
    → has e.key (keys c.entries) ≡ false
    → IsKeyed (evict (c.entries ++ e ∷ []) c.released)
put-IsKeyed c e d absent =
    evict-IsKeyed (c.entries ++ e ∷ []) c.released
      (rw (keys-append c.entries (e ∷ [])) (Distinct-append-one e.key (keys c.entries) absent d))

set_entry-IsKeyed :
    (key value expires_at now : ℕ) (c : RecoveryCache)
    → IsKeyed c
    → IsKeyed (set_entry key value expires_at now c)
unfolding set_entry
set_entry-IsKeyed key value expires_at now c d =
    let (kept, absent) = remove_key-IsKeyed key c d in
    elim (Bool-cases (leb expires_at now)) [
      | inl e ↦ rw e kept
      | inr e ↦ rw e (put-IsKeyed (remove_key key c) (entry_at key value expires_at) kept absent)
    ]

get_entry-IsKeyed : (key now : ℕ) (c : RecoveryCache) → IsKeyed c → IsKeyed (get_entry key now c).1
unfolding get_entry
get_entry-IsKeyed key now c d = elim (Bool-cases (is_expired now (find_key key c.entries))) [
  | inl e ↦ rw e ((remove_key-IsKeyed key c d).0)
  | inr e ↦ rw e d
]

cache_step-IsKeyed :
    (c : RecoveryCache) (call : CacheCall) → IsKeyed c → IsKeyed (cache_step c call)
unfolding cache_step clear_cache
cache_step-IsKeyed c (deletes key) d = (remove_key-IsKeyed key c d).0
cache_step-IsKeyed c (expires key) d = (remove_key-IsKeyed key c d).0
cache_step-IsKeyed c (gets key now) d = get_entry-IsKeyed key now c d
cache_step-IsKeyed c (sets key value expires_at now) d =
    set_entry-IsKeyed key value expires_at now c d
cache_step-IsKeyed c clears d = tt

cache_run-IsKeyed :
    (calls : List CacheCall) (c : RecoveryCache) → IsKeyed c → IsKeyed (cache_run c calls)
unfolding cache_run
cache_run-IsKeyed [] c d = d
cache_run-IsKeyed (call ∷ calls) c d =
    cache_run-IsKeyed calls (cache_step c call) (cache_step-IsKeyed c call d)

found_after_set :
    (key value expires_at now : ℕ) (c : RecoveryCache)
    → IsKeyed c
    → now < expires_at
    → let c' = set_entry key value expires_at now c in
      (find_key key c'.entries ≡ some (entry_at key value expires_at))
      × (length c'.entries ≤ cache_limit)
unfolding set_entry
found_after_set key value expires_at now c d h =
    let c' = remove_key key c in
    let e = entry_at key value expires_at in
    let late : leb expires_at now ≡ false = ground (arith, h) in
    rw late (
      find-evict c'.entries e c'.released (remove_key-IsKeyed key c d).1,
      evict-length (c'.entries ++ e ∷ []) c'.released,
    )

given :
    (key later : ℕ) (e : CacheEntry) (c : RecoveryCache)
    → find_key key c.entries ≡ some e
    → (get_entry key later c).0 ≡ (if leb e.expires_at later then none else some e)
unfolding get_entry
given key later e c h = rw h (ground arith)

abbrev IsBounded : RecoveryCache → Type 0
IsBounded c = length c.entries ≤ cache_limit

delete_key-length : (key : ℕ) (es : List CacheEntry) → length (delete_key key es) ≤ length es
delete_key-length key [] = omega arith
delete_key-length key (e ∷ es) = ground (arith, delete_key-length key es)

remove_key-IsBounded : (key : ℕ) (c : RecoveryCache) → IsBounded c → IsBounded (remove_key key c)
unfolding remove_key
remove_key-IsBounded key c h = elim (Option-cases (find_key key c.entries)) [
  | inl e ↦ rw e h
  | inr (held, e) ↦ rw e (omega (arith, h, delete_key-length key c.entries))
]

get_entry-IsBounded :
    (key now : ℕ) (c : RecoveryCache) → IsBounded c → IsBounded (get_entry key now c).1
unfolding get_entry
get_entry-IsBounded key now c h = elim (Bool-cases (is_expired now (find_key key c.entries))) [
  | inl e ↦ rw e (remove_key-IsBounded key c h)
  | inr e ↦ rw e h
]

set_entry-IsBounded :
    (key value expires_at now : ℕ) (c : RecoveryCache)
    → IsBounded c
    → IsBounded (set_entry key value expires_at now c)
unfolding set_entry
set_entry-IsBounded key value expires_at now c h = elim (Bool-cases (leb expires_at now)) [
  | inl e ↦ rw e (remove_key-IsBounded key c h)
  | inr e ↦ rw e (
      evict-length ((remove_key key c).entries ++ entry_at key value expires_at ∷ [])
        (remove_key key c).released)
]

cache_step-IsBounded :
    (c : RecoveryCache) (call : CacheCall) → IsBounded c → IsBounded (cache_step c call)
unfolding cache_step clear_cache
cache_step-IsBounded c (deletes key) h = remove_key-IsBounded key c h
cache_step-IsBounded c (expires key) h = remove_key-IsBounded key c h
cache_step-IsBounded c (gets key now) h = get_entry-IsBounded key now c h
cache_step-IsBounded c (sets key value expires_at now) h =
    set_entry-IsBounded key value expires_at now c h
cache_step-IsBounded c clears h = omega arith

cache_run-IsBounded :
    (calls : List CacheCall) (c : RecoveryCache) → IsBounded c → IsBounded (cache_run c calls)
unfolding cache_run
cache_run-IsBounded [] c h = h
cache_run-IsBounded (call ∷ calls) c h =
    cache_run-IsBounded calls (cache_step c call) (cache_step-IsBounded c call h)

-- After any calls the cache holds at most 1024 entries. A value that is put in then, before its
-- expiry, displaces what its key held and is not itself evicted: a get with no call between gives
-- it up to its expiry, and nothing from then on.
pub get_entry-set_entry :
    (calls : List CacheCall) (key value expires_at now later : ℕ)
    → now < expires_at
    → let c = cache_run create_recovery_cache calls in
      (length c.entries ≤ 1024)
      × ((get_entry key later (set_entry key value expires_at now c)).0
          ≡ (if leb expires_at later then none else some (entry_at key value expires_at)))
unfolding create_recovery_cache cache_limit
get_entry-set_entry calls key value expires_at now later h =
    let c = cache_run create_recovery_cache calls in
    (
      cache_run-IsBounded calls create_recovery_cache (omega arith),
      given key later (entry_at key value expires_at) (set_entry key value expires_at now c)
          (found_after_set key value expires_at now c (cache_run-IsKeyed calls _ tt) h).0,
    )
