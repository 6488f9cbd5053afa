-- ===== src/Rpc/RecoveryCache/Release.antt =====
-- packages/rpc/src/recovery-confirmation.ts, `createRecoveryCache`: every key that is put in is held
-- or was released, once.
use kumiai.Rpc.RecoveryCache.{
  clears, entry_at, gets, expires, deletes, cache_step, cache_run, delete_key, values, sets,
  is_expired, find_key, CacheEntry, clear_cache, CacheCall, evict, RecoveryCache, remove_key,
  set_entry, get_entry,
}
use kumiai.Shared.{
  ℕ, ◌+◌, ◌≡◌, refl, ap, inl, inr, Option, none, some, List, [], ◌∷◌, ◌++◌, ◌==◌, leb,
  if◌then◌else◌, arith, Bool-cases, Option-cases,
}

abbrev pub count : ℕ → List ℕ → ℕ
count v [] = 0
count v (x ∷ xs) = (if x == v then 1 else 0) + count v xs

count-append : (v : ℕ) (xs ys : List ℕ) → count v (xs ++ ys) ≡ count v xs + count v ys
count-append v [] ys = omega arith
count-append v (x ∷ xs) ys = omega (arith, count-append v xs ys)

values-append : (es fs : List CacheEntry) → values (es ++ fs) ≡ values es ++ values fs
values-append [] fs = refl
values-append (e ∷ es) fs = ap (λ z. e.value ∷ z) (values-append es fs)

-- How often a value is held or was released.
unfoldable pub copies : ℕ → RecoveryCache → ℕ
copies v c = count v (values c.entries) + count v c.released

found_value : ℕ → Option CacheEntry → ℕ
found_value v none = 0
found_value v (some e) = if e.value == v then 1 else 0

count-delete_key :
    (v key : ℕ) (es : List CacheEntry)
    → count v (values es) ≡ count v (values (delete_key key es)) + found_value v (find_key key es)
unfolding found_value
count-delete_key v key [] = omega arith
count-delete_key v key (e ∷ es) = ground (arith, count-delete_key v key es)

copies-remove_key : (v key : ℕ) (c : RecoveryCache) → copies v (remove_key key c) ≡ copies v c
unfolding copies remove_key found_value
copies-remove_key v key c = elim (Option-cases (find_key key c.entries)) [
  | inl e ↦ rw e refl
  | inr (held, e) ↦ rw e (
      ground
        (arith, e, count-delete_key v key c.entries, count-append v c.released (held.value ∷ [])))
]

copies-evict :
    (v : ℕ) (es : List CacheEntry) (released : List ℕ)
    → copies v (evict es released) ≡ count v (values es) + count v released
unfolding copies evict
copies-evict v [] released = refl
copies-evict v (e ∷ es) released =
    ground
      (arith, copies-evict v es (released ++ e.value ∷ []), count-append v released (e.value ∷ []))

-- What the calls put in.
abbrev pub put_in : ℕ → List CacheCall → ℕ
put_in v [] = 0
put_in v (sets key value expires_at now ∷ calls) = (if value == v then 1 else 0) + put_in v calls
put_in v (call ∷ calls) = put_in v calls

copies-get_entry :
    (v key now : ℕ) (c : RecoveryCache) → copies v (get_entry key now c).1 ≡ copies v c
unfolding get_entry
copies-get_entry v key now c = elim (Bool-cases (is_expired now (find_key key c.entries))) [
  | inl e ↦ rw e (copies-remove_key v key c)
  | inr e ↦ rw e refl
]

put_copies :
    (v : ℕ) (es : List CacheEntry) (released : List ℕ) (e : CacheEntry) {n : ℕ}
    → copies v (record { entries = es; released = released }) ≡ n
    → copies v (evict (es ++ e ∷ []) released) ≡ (if e.value == v then 1 else 0) + n
unfolding copies
put_copies v es released e h = omega (
  arith,
  h,
  copies-evict v (es ++ e ∷ []) released,
  ap (λ z. count v z) (values-append es (e ∷ [])),
  count-append v (values es) (e.value ∷ []),
)

copies-set_entry :
    (v key value expires_at now : ℕ) (c : RecoveryCache)
    → copies v (set_entry key value expires_at now c) ≡ (if value == v then 1 else 0) + copies v c
unfolding set_entry
copies-set_entry v key value expires_at now c =
    let c' = remove_key key c in
    elim (Bool-cases (leb expires_at now)) [
      | inl e ↦ rw e (
          unfold copies in
          ground (arith, copies-remove_key v key c, count-append v c'.released (value ∷ [])))
      | inr e ↦
          let put = entry_at key value expires_at in
          rw e (put_copies v c'.entries c'.released put (copies-remove_key v key c))
    ]

copies-clear_cache : (v : ℕ) (c : RecoveryCache) → copies v (clear_cache c) ≡ copies v c
unfolding copies clear_cache
copies-clear_cache v c = omega (arith, count-append v c.released (values c.entries))

copies-cache_step :
    (v : ℕ) (c : RecoveryCache) (call : CacheCall)
    → copies v (cache_step c call) ≡ put_in v (call ∷ []) + copies v c
unfolding cache_step
copies-cache_step v c (deletes key) = omega (arith, copies-remove_key v key c)
copies-cache_step v c (expires key) = omega (arith, copies-remove_key v key c)
copies-cache_step v c (gets key now) = omega (arith, copies-get_entry v key now c)
copies-cache_step v c (sets key value expires_at now) =
    omega (arith, copies-set_entry v key value expires_at now c)
copies-cache_step v c clears = omega (arith, copies-clear_cache v c)

put_in-cons :
    (v : ℕ) (call : CacheCall) (calls : List CacheCall)
    → put_in v (call ∷ calls) ≡ put_in v (call ∷ []) + put_in v calls
put_in-cons v (deletes key) calls = omega arith
put_in-cons v (expires key) calls = omega arith
put_in-cons v (gets key now) calls = omega arith
put_in-cons v (sets key value expires_at now) calls = omega arith
put_in-cons v clears calls = omega arith

-- Whatever calls and timers run on a cache, and at whatever times, every value that they put in is
-- held once more or was released once more: none is forgotten, and none is released twice.
pub released_once :
    (v : ℕ) (calls : List CacheCall) (c : RecoveryCache)
    → count v (values (cache_run c calls).entries) + count v (cache_run c calls).released
      ≡ put_in v calls + (count v (values c.entries) + count v c.released)
unfolding cache_run copies
released_once v [] c = omega arith
released_once v (call ∷ calls) c = omega (
  arith,
  released_once v calls (cache_step c call),
  copies-cache_step v c call,
  put_in-cons v call calls,
)
