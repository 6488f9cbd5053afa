-- ===== src/HubServer/RateLimit.antt =====
-- packages/hub-server/src/rateLimit.ts: the token bucket of each key. The source's numbers are
-- fractions here, and its floating-point sums are exact: `rate` and `burst` count parts of a token, of
-- which `parts` make one. A part is 1000 units, so that a rate of parts a second is a rate of units a
-- millisecond. The clock may step back, which takes tokens: an amount is the difference of two
-- numbers.
pub mod Buckets
pub mod Refill
pub mod Available
pub mod Window
use kumiai.Shared.{
  ℕ, zero, suc, ◌+◌, ◌-◌, ◌*◌, ◌≤◌, ◌<◌, ◌≡◌, ◌≢◌, refl, sym, ap, ◌⊎◌, ◌↔◌, inl, inr, Bool, true,
  false, not, ◌&&◌, ◌||◌, Option, none, some, List, [], ◌∷◌, ◌++◌, ◌==◌, ltb, leb, if◌then◌else◌,
  or_default, is_some, arith, All, length, Bool-cases, Option-cases, ==_iff, ==_refl, ==_ne, min,
  max, map, has, erase,
}
use kumiai.Shared.Map
use kumiai.Shared.Map.{Map, get-set, get-delete, get-empty}

pub record RateLimitConfig : Type 0 where
  pub rate : ℕ
  pub burst : ℕ
  pub parts : ℕ
  pub ttl : ℕ

-- `held - owed`, of which one is 0.
pub record Amount : Type 0 where
  pub held : ℕ
  pub owed : ℕ

pub record Bucket : Type 0 where
  pub tokens : Amount
  pub last_refill : ℕ

abbrev pub part : ℕ
part = 1000

abbrev pub token : RateLimitConfig → ℕ
token config = config.parts * part

-- PRUNE_AT
unfoldable pub prune_at : ℕ
prune_at = 1024

abbrev pub balance : ℕ → ℕ → Amount
balance held owed =
    if leb owed held
    then record { held = held - owed; owed = 0 }
    else record { held = 0; owed = owed - held }

abbrev pub is_at_least : ℕ → Amount → Bool
is_at_least n a = leb (n + a.owed) a.held

abbrev pub full : RateLimitConfig → Amount
full config = record { held = config.burst * part; owed = 0 }

-- `Math.min(burst, _)`
abbrev pub capped : RateLimitConfig → Amount → Amount
capped config a = if is_at_least (config.burst * part) a then full config else a

-- `bucket.tokens + elapsedSeconds * rate`, where the clock may have stepped back.
abbrev pub grown : RateLimitConfig → Bucket → ℕ → Amount
grown config b now =
    if leb b.last_refill now
    then balance (b.tokens.held + (now - b.last_refill) * config.rate) b.tokens.owed
    else balance b.tokens.held (b.tokens.owed + (b.last_refill - now) * config.rate)

unfoldable pub refilled_tokens : RateLimitConfig → Bucket → ℕ → Amount
refilled_tokens config b now = capped config (grown config b now)

-- Full and idle at `now`.
unfoldable pub is_evictable : RateLimitConfig → ℕ → Bucket → Bool
unfolding refilled_tokens
is_evictable config now b =
    is_at_least (config.burst * part) (refilled_tokens config b now)
    && leb (config.ttl + b.last_refill) now

unfoldable pub prune : RateLimitConfig → ℕ → Map Bucket → Map Bucket
unfolding is_evictable
prune config now [] = []
prune config now ((key, b) ∷ m) =
    let rest = prune config now m in if is_evictable config now b then rest else (key, b) ∷ rest

abbrev pub spend : RateLimitConfig → Amount → Amount
spend config a = balance a.held (a.owed + token config)

-- The bucket of the key at `now`, before a token is taken.
abbrev pub bucket_at : RateLimitConfig → ℕ → Option Bucket → Bucket
bucket_at config now none = record { tokens = full config; last_refill = now }
bucket_at config now (some b) = record { tokens = refilled_tokens config b now; last_refill = now }

-- A new key may sweep the others.
abbrev pub swept : RateLimitConfig → ℕ → Option Bucket → Map Bucket → Map Bucket
swept config now none buckets =
    if leb prune_at (Map.size buckets) then prune config now buckets else buckets
swept config now (some b) buckets = buckets

unfoldable pub try_consume : RateLimitConfig → ℕ → ℕ → Map Bucket → Bool × Map Bucket
unfolding refilled_tokens prune prune_at
try_consume config key now buckets =
    let found = Map.get key buckets in
    let bucket = bucket_at config now found in
    let others = swept config now found buckets in
    if is_at_least (token config) bucket.tokens
    then (
      true,
      Map.set key (record { tokens = spend config bucket.tokens; last_refill = now }) others,
    )
    else (false, Map.set key bucket others)

-- The calls with their keys and clock readings.
unfoldable pub consume_run : RateLimitConfig → List (ℕ × ℕ) → Map Bucket → Map Bucket
unfolding try_consume
consume_run config [] buckets = buckets
consume_run config ((key, now) ∷ calls) buckets =
    consume_run config calls (try_consume config key now buckets).1

-- How often a key is granted a token.
unfoldable pub granted : RateLimitConfig → ℕ → List (ℕ × ℕ) → Map Bucket → ℕ
unfolding try_consume
granted config k [] buckets = 0
granted config k ((key, now) ∷ calls) buckets =
    let (grant, buckets') = try_consume config key now buckets in
    (if grant && (key == k) then 1 else 0) + granted config k calls buckets'
