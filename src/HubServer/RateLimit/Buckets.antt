-- ===== src/HubServer/RateLimit/Buckets.antt =====
-- packages/hub-server/src/rateLimit.ts: what a sweep leaves of a key's bucket.
use kumiai.HubServer.RateLimit.{is_evictable, prune, Bucket, RateLimitConfig}
use kumiai.Shared.{
  subst, ℕ, ◌≡◌, refl, inl, inr, false, Option, none, some, [], ◌∷◌, ◌==◌, if◌then◌else◌, arith,
  Bool-cases, ==_iff, has,
}
use kumiai.Shared.Map
use kumiai.Shared.Map.{Map, get-set, get-delete, get-empty}
use kumiai.Shared.Ascending.{Distinct}

has-keys-set :
    (j k : ℕ) (b : Bucket) (m : Map Bucket)
    → has j (Map.keys m) ≡ false
    → (k == j) ≡ false
    → has j (Map.keys (Map.set k b m)) ≡ false
unfolding Map.set Map.keys
has-keys-set j k b [] h n = ground (arith, n)
has-keys-set j k b ((i, c) ∷ m) h n = ground (arith, h, n, has-keys-set j k b m)

-- No key stands twice.
abbrev pub IsKeyed : Map Bucket → Type 0
IsKeyed m = Distinct (Map.keys m)

pub set-IsKeyed : (k : ℕ) (b : Bucket) (m : Map Bucket) → IsKeyed m → IsKeyed (Map.set k b m)
unfolding Map.set Map.keys
set-IsKeyed k b [] d = (refl, tt)
set-IsKeyed k b ((i, c) ∷ m) (fresh, d) = elim (Bool-cases (i == k)) [
  | inl e ↦ rw e (subst (λ z. has z (Map.keys m) ≡ false) ((==_iff i k).0 e) fresh, d)
  | inr e ↦ rw e (has-keys-set i k b m fresh (ground (arith, e)), set-IsKeyed k b m d)
]

get-absent : (k : ℕ) (m : Map Bucket) → has k (Map.keys m) ≡ false → Map.get k m ≡ none
unfolding Map.get Map.keys
get-absent k [] h = refl
get-absent k ((i, c) ∷ m) h = ground (arith, h, get-absent k m)

has-keys-prune :
    (config : RateLimitConfig) (now j : ℕ) (m : Map Bucket)
    → has j (Map.keys m) ≡ false
    → has j (Map.keys (prune config now m)) ≡ false
unfolding Map.keys prune
has-keys-prune config now j [] h = refl
has-keys-prune config now j ((i, c) ∷ m) h = ground (arith, h, has-keys-prune config now j m)

pub prune-IsKeyed :
    (config : RateLimitConfig) (now : ℕ) (m : Map Bucket) → IsKeyed m → IsKeyed (prune config now m)
unfolding Map.keys prune
prune-IsKeyed config now [] d = tt
prune-IsKeyed config now ((i, c) ∷ m) (fresh, d) = elim (Bool-cases (is_evictable config now c)) [
  | inl e ↦ rw e (prune-IsKeyed config now m d)
  | inr e ↦ rw e (has-keys-prune config now i m fresh, prune-IsKeyed config now m d)
]

abbrev pub unless_evictable : RateLimitConfig → ℕ → Option Bucket → Option Bucket
unless_evictable config now none = none
unless_evictable config now (some b) = if is_evictable config now b then none else some b

pub get-prune :
    (config : RateLimitConfig) (now k : ℕ) (m : Map Bucket)
    → IsKeyed m
    → Map.get k (prune config now m) ≡ unless_evictable config now (Map.get k m)
unfolding Map.get Map.keys prune
get-prune config now k [] d = refl
get-prune config now k ((i, c) ∷ m) (fresh, d) = elim (Bool-cases (i == k)) [
  | inl same ↦ ground (
    arith,
    same,
    get-absent k (prune config now m) (
        has-keys-prune config now k m
          (subst (λ z. has z (Map.keys m) ≡ false) ((==_iff i k).0 same) fresh)),
  )
  | inr other ↦ ground (arith, other, get-prune config now k m d)
]
