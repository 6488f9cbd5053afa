-- ===== src/HubServer/RateLimit/Refill.antt =====
-- packages/hub-server/src/rateLimit.ts: what a key can spend, as its bucket refills and where a sweep evicts it.
use kumiai.HubServer.RateLimit.Buckets.{IsKeyed, unless_evictable}
use kumiai.HubServer.RateLimit.{
  Amount, grown, balance, capped, bucket_at, part, RateLimitConfig, refilled_tokens, is_evictable,
  Bucket,
}
use native.Mathlib.Nat.{add-mul}
use kumiai.Shared.{
  subst, ◌∙◌, ℕ, ◌+◌, ◌-◌, ◌*◌, ◌≤◌, ◌≡◌, refl, sym, ap, inl, inr, true, Option, none, some, leb,
  arith, Bool-cases, min,
}
use kumiai.Shared.Map
use kumiai.Shared.Map.{Map, get-set, get-delete, get-empty}

-- The units that the key could spend at `now`, where its bucket was refilled before.
abbrev pub available : RateLimitConfig → ℕ → Option Bucket → ℕ
available config now none = config.burst * part
available config now (some b) =
    min (config.burst * part) (b.tokens.held + (now - b.last_refill) * config.rate)

-- Nothing is owed, and no bucket was refilled after `now`.
abbrev pub IsSettled : ℕ → Option Bucket → Type 0
IsSettled now none = Unit
IsSettled now (some b) = (b.tokens.owed ≡ 0) × (b.last_refill ≤ now)

-- Of the key `k`, at `now`.
pub record IsTimely (k now : ℕ) (buckets : Map Bucket) : Type 0 where
  pub keyed : IsKeyed buckets
  pub settled : IsSettled now (Map.get k buckets)

balance_exact : (n : ℕ) → balance n 0 ≡ record { held = n; owed = 0 }
balance_exact n = ground arith

capped_exact :
    (config : RateLimitConfig) (n : ℕ)
    → capped config (record { held = n; owed = 0 })
      ≡ record { held = min (config.burst * part) n; owed = 0 }
capped_exact config n = ground arith

grown_exact :
    (config : RateLimitConfig) (now : ℕ) (b : Bucket)
    → IsSettled now (some b)
    → grown config b now
      ≡ record { held = b.tokens.held + (now - b.last_refill) * config.rate; owed = 0 }
grown_exact config now b (owed, last) =
    let due : leb b.last_refill now ≡ true = ground (arith, last) in
    rw (due, owed) (balance_exact (b.tokens.held + (now - b.last_refill) * config.rate))

pub refilled_exact :
    (config : RateLimitConfig) (now : ℕ) (b : Bucket)
    → IsSettled now (some b)
    → refilled_tokens config b now ≡ record { held = available config now (some b); owed = 0 }
unfolding refilled_tokens
refilled_exact config now b h =
    ap (λ a. capped config a) (grown_exact config now b h)
    ∙ capped_exact config (b.tokens.held + (now - b.last_refill) * config.rate)

pub bucket_at-exact :
    (config : RateLimitConfig) (now : ℕ) (o : Option Bucket)
    → IsSettled now o
    → (bucket_at config now o).tokens ≡ record { held = available config now o; owed = 0 }
bucket_at-exact config now none h = refl
bucket_at-exact config now (some b) h = refilled_exact config now b h

evicted_is_full :
    (config : RateLimitConfig) (now : ℕ) (b : Bucket)
    → IsSettled now (some b)
    → is_evictable config now b ≡ true
    → config.burst * part ≡ available config now (some b)
unfolding is_evictable
evicted_is_full config now b h e = ground (arith, refilled_exact config now b h, e)

-- A sweep at `now` changes what no key can spend from then on.
pub unless_evictable-available :
    (config : RateLimitConfig) (now : ℕ) (o : Option Bucket)
    → IsSettled now o
    → (available config now (unless_evictable config now o) ≡ available config now o)
      × IsSettled now (unless_evictable config now o)
unfolding is_evictable
unless_evictable-available config now none h = (refl, tt)
unless_evictable-available config now (some b) h = elim (Bool-cases (is_evictable config now b)) [
  | inr e ↦ rw e (refl, h)
  | inl e ↦ rw e (evicted_is_full config now b h e, tt)
]

pub elapsed : (rate a b c : ℕ) → a ≤ b → b ≤ c → (c - a) * rate ≡ (b - a) * rate + (c - b) * rate
elapsed rate a b c h k =
    let split : c - a ≡ (b - a) + (c - b) = omega arith in
    ap (λ n. n * rate) split ∙ add-mul (b - a) (c - b) rate

-- What a key can spend grows by no more than the rate.
pub available_later :
    (config : RateLimitConfig) (now later : ℕ) (o : Option Bucket)
    → now ≤ later
    → IsSettled now o
    → (available config later o ≤ available config now o + (later - now) * config.rate)
      × IsSettled later o
available_later config now later none h k = (omega arith, tt)
available_later config now later (some b) h (owed, last) =
    (omega (arith, elapsed config.rate b.last_refill now later last h), (owed, omega arith))

fresh_available :
    (config : RateLimitConfig) (now n : ℕ)
    → n ≤ config.burst * part
    → available config now
        (some (record { tokens = record { held = n; owed = 0 }; last_refill = now }))
      ≡ n
fresh_available config now n h =
    let none_elapsed : now - now ≡ 0 = omega arith in rw none_elapsed (omega (arith, h))

pub available-le :
    (config : RateLimitConfig) (now : ℕ) (o : Option Bucket)
    → available config now o ≤ config.burst * part
available-le config now none = omega arith
available-le config now (some b) = omega arith

-- A bucket that was refilled at `now`, before and after a token is taken.
pub kept_bucket :
    (config : RateLimitConfig) (now n : ℕ) (a : Amount)
    → a ≡ record { held = n; owed = 0 }
    → n ≤ config.burst * part
    → (available config now (some (record { tokens = a; last_refill = now })) ≡ n)
      × IsSettled now (some (record { tokens = a; last_refill = now }))
kept_bucket config now n a e h =
    subst
      (λ q.
        (available config now (some (record { tokens = q; last_refill = now })) ≡ n)
        × IsSettled now (some (record { tokens = q; last_refill = now })))
      (sym e) (fresh_available config now n h, (refl, omega arith))
