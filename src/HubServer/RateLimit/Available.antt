-- ===== src/HubServer/RateLimit/Available.antt =====
-- packages/hub-server/src/rateLimit.ts: what one call leaves a key to spend.
use kumiai.HubServer.RateLimit.Refill.{
  available-le, refilled_exact, bucket_at-exact, unless_evictable-available, kept_bucket, available,
  IsTimely, IsSettled,
}
use kumiai.HubServer.RateLimit.Buckets.{prune-IsKeyed, get-prune, set-IsKeyed, IsKeyed}
use kumiai.HubServer.RateLimit.{
  full, prune_at, spend, is_at_least, swept, Amount, try_consume, bucket_at, part, token,
  RateLimitConfig, refilled_tokens, Bucket,
}
use kumiai.Shared.{
  subst, ℕ, ◌+◌, ◌-◌, ◌*◌, ◌≤◌, ◌≡◌, refl, sym, inl, inr, true, false, ◌&&◌, Option, none, some,
  ◌==◌, leb, if◌then◌else◌, arith, Bool-cases, ==_iff, ==_refl,
}
use kumiai.Shared.Map
use kumiai.Shared.Map.{Map, get-set, get-delete, get-empty}

bucket_at-kept :
    (config : RateLimitConfig) (now : ℕ) (o : Option Bucket)
    → IsSettled now o
    → (available config now (some (bucket_at config now o)) ≡ available config now o)
      × IsSettled now (some (bucket_at config now o))
bucket_at-kept config now none h =
    kept_bucket config now (config.burst * part) (full config) refl (omega arith)
bucket_at-kept config now (some b) h =
    kept_bucket config now (available config now (some b)) (refilled_tokens config b now)
      (refilled_exact config now b h) (omega arith)

spent_amount :
    (config : RateLimitConfig) (n : ℕ) (a : Amount)
    → a ≡ record { held = n; owed = 0 }
    → is_at_least (token config) a ≡ true
    → (token config ≤ n) × (spend config a ≡ record { held = n - token config; owed = 0 })
spent_amount config n a e h =
    let enough : token config ≤ n =
      ground (arith, subst (λ q. is_at_least (token config) q ≡ true) e h) in
    (
      enough,
      subst (λ q. spend config q ≡ record { held = n - token config; owed = 0 }) (sym e)
          (ground (arith, enough)),
    )

swept-IsKeyed :
    (config : RateLimitConfig) (now : ℕ) (o : Option Bucket) (m : Map Bucket)
    → IsKeyed m
    → IsKeyed (swept config now o m)
swept-IsKeyed config now none m d = elim (Bool-cases (leb prune_at (Map.size m))) [
  | inl e ↦ rw e (prune-IsKeyed config now m d)
  | inr e ↦ rw e d
]
swept-IsKeyed config now (some b) m d = d

swept-available :
    (config : RateLimitConfig) (k now : ℕ) (o : Option Bucket) (m : Map Bucket)
    → IsTimely k now m
    → (available config now (Map.get k (swept config now o m)) ≡ available config now (Map.get k m))
      × IsSettled now (Map.get k (swept config now o m))
swept-available config k now (some b) m h = (refl, h.settled)
swept-available config k now none m h = elim (Bool-cases (leb prune_at (Map.size m))) [
  | inl e ↦
      rw (e, get-prune config now k m h.keyed)
        (unless_evictable-available config now (Map.get k m) h.settled)
  | inr e ↦ rw e (refl, h.settled)
]

put_own :
    (config : RateLimitConfig) (k now n : ℕ) (b : Bucket) (m : Map Bucket)
    → IsKeyed m
    → (available config now (some b) ≡ n) × IsSettled now (some b)
    → (available config now (Map.get k (Map.set k b m)) ≡ n) × IsTimely k now (Map.set k b m)
put_own config k now n b m d (same, settled) =
    let found : Map.get k (Map.set k b m) ≡ some b = ground (arith, get-set k k b m, ==_refl k) in
    (
      rw found same,
      record {
        keyed = set-IsKeyed k b m d;
        settled = subst (λ o. IsSettled now o) (sym found) settled;
      },
    )

-- A call of the key itself, at `now`.
own_call :
    (config : RateLimitConfig) (k now : ℕ) (m : Map Bucket)
    → IsTimely k now m
    → let (grant, m') = try_consume config k now m in
      ((if grant then token config else 0) + available config now (Map.get k m')
        ≡ available config now (Map.get k m))
      × IsTimely k now m'
unfolding try_consume
own_call config k now m h =
    let found = Map.get k m in
    let n = available config now found in
    let exact = bucket_at-exact config now found h.settled in
    let bound = available-le config now found in
    let keyed = swept-IsKeyed config now found m h.keyed in
    elim (Bool-cases (is_at_least (token config) (bucket_at config now found).tokens)) [
      | inl e ↦
          let (enough, spent) = spent_amount config n (bucket_at config now found).tokens exact e in
          let (left, timely) =
            put_own config k now (n - token config)
              (record {
                tokens = spend config (bucket_at config now found).tokens;
                last_refill = now;
              })
              (swept config now found m) keyed
              (kept_bucket config now (n - token config) _ spent (omega (arith, bound))) in
          rw e (omega (arith, left, enough), timely)
      | inr e ↦
          let (left, timely) =
            put_own config k now n (bucket_at config now found) (swept config now found m) keyed
              (bucket_at-kept config now found h.settled) in
          rw e (omega (arith, left), timely)
    ]

put_other :
    (config : RateLimitConfig) (k j now : ℕ) (m : Map Bucket)
    → (j == k) ≡ false
    → IsKeyed m
    → (b : Bucket) (n : ℕ) → available config now (Map.get k m) ≡ n
    → IsSettled now (Map.get k m)
    → (available config now (Map.get k (Map.set j b m)) ≡ n) × IsTimely k now (Map.set j b m)
put_other config k j now m other d b n same settled =
    let found : Map.get k (Map.set j b m) ≡ Map.get k m = ground (arith, get-set k j b m, other) in
    (
      rw found same,
      record {
        keyed = set-IsKeyed j b m d;
        settled = subst (λ o. IsSettled now o) (sym found) settled;
      },
    )

other_call :
    (config : RateLimitConfig) (k j now : ℕ) (m : Map Bucket)
    → (j == k) ≡ false
    → IsTimely k now m
    → let m' = (try_consume config j now m).1 in
      (available config now (Map.get k m') ≡ available config now (Map.get k m)) × IsTimely k now m'
unfolding try_consume
other_call config k j now m other h =
    let found = Map.get j m in
    let others = swept config now found m in
    let kept = put_other config k j now others other (swept-IsKeyed config now found m h.keyed) in
    let (same, settled) = swept-available config k now found m h in
    elim (Bool-cases (is_at_least (token config) (bucket_at config now found).tokens)) [
      | inl e ↦ rw e (kept _ (available config now (Map.get k m)) same settled)
      | inr e ↦ rw e (kept _ (available config now (Map.get k m)) same settled)
    ]

pub call_granted :
    (config : RateLimitConfig) (k key now : ℕ) (m : Map Bucket)
    → IsTimely k now m
    → let (grant, m') = try_consume config key now m in
      ((if grant && (key == k) then token config else 0) + available config now (Map.get k m')
        ≡ available config now (Map.get k m))
      × IsTimely k now m'
call_granted config k key now m h = elim (Bool-cases (key == k)) [
  | inl e ↦
      let (same, timely) =
        subst
          (λ z.
            ((if (try_consume config z now m).0 then token config else 0)
                + available config now (Map.get k (try_consume config z now m).1)
              ≡ available config now (Map.get k m))
            × IsTimely k now (try_consume config z now m).1)
          (sym ((==_iff key k).0 e)) (own_call config k now m h) in
      (ground (arith, e, same), timely)
  | inr e ↦
      let (same, timely) = other_call config k key now m e h in (ground (arith, e, same), timely)
]
