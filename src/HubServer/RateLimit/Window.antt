-- ===== src/HubServer/RateLimit/Window.antt =====
-- packages/hub-server/src/rateLimit.ts: over any stretch of time a key is granted no more than its
-- burst and what the rate refills.
use kumiai.HubServer.RateLimit.Refill.{IsTimely, elapsed, available-le, available, available_later}
use kumiai.HubServer.RateLimit.Available.{call_granted}
use kumiai.HubServer.RateLimit.{
  consume_run, granted, grown, try_consume, token, RateLimitConfig, Bucket,
}
use native.Mathlib.Nat.{mul-add}
use kumiai.Shared.{
  ℕ, ◌+◌, ◌-◌, ◌*◌, ◌≤◌, ◌≡◌, Bool, true, false, ◌&&◌, List, [], ◌∷◌, ◌==◌, if◌then◌else◌, arith,
}
use kumiai.Shared.Map
use kumiai.Shared.Map.{Map, get-set, get-delete, get-empty}

-- The clock does not step back from `now` on.
abbrev pub Rises : ℕ → List (ℕ × ℕ) → Type 0
Rises now [] = Unit
Rises now ((key, later) ∷ calls) = (now ≤ later) × Rises later calls

abbrev pub last_reading : ℕ → List (ℕ × ℕ) → ℕ
last_reading now [] = now
last_reading now ((key, later) ∷ calls) = last_reading later calls

last_reading-le : (now : ℕ) (calls : List (ℕ × ℕ)) → Rises now calls → now ≤ last_reading now calls
last_reading-le now [] h = omega arith
last_reading-le now ((key, later) ∷ calls) (le, h) = omega (arith, last_reading-le later calls h)

later-IsTimely :
    (config : RateLimitConfig) (k now later : ℕ) (m : Map Bucket)
    → now ≤ later
    → IsTimely k now m
    → IsTimely k later m
later-IsTimely config k now later m h t = record {
  keyed = t.keyed;
  settled = (available_later config now later (Map.get k m) h t.settled).1;
}

run-IsTimely :
    (config : RateLimitConfig) (k now : ℕ) (calls : List (ℕ × ℕ)) (m : Map Bucket)
    → Rises now calls
    → IsTimely k now m
    → IsTimely k (last_reading now calls) (consume_run config calls m)
unfolding consume_run
run-IsTimely config k now [] m h t = t
run-IsTimely config k now ((key, later) ∷ calls) m (le, h) t =
    run-IsTimely config k later calls (try_consume config key later m).1 h
      ((call_granted config k key later m (later-IsTimely config k now later m le t)).1)

-- The price of one call more.
price :
    (cost : ℕ) (grant : Bool) (n : ℕ)
    → cost * ((if grant then 1 else 0) + n) ≡ (if grant then cost else 0) + cost * n
price cost true n = omega (arith, mul-add cost 1 n)
price cost false n = omega arith

granted_from :
    (config : RateLimitConfig) (k now : ℕ) (calls : List (ℕ × ℕ)) (m : Map Bucket)
    → Rises now calls
    → IsTimely k now m
    → token config * granted config k calls m
      ≤ available config now (Map.get k m) + (last_reading now calls - now) * config.rate
unfolding granted
granted_from config k now [] m h t = omega arith
granted_from config k now ((key, later) ∷ calls) m (le, h) t =
    let m' = (try_consume config key later m).1 in
    let (grown, settled) = available_later config now later (Map.get k m) le t.settled in
    let (spent, timely) =
      call_granted config k key later m (later-IsTimely config k now later m le t) in
    let grant = (try_consume config key later m).0 && (key == k) in
    omega (
      arith,
      grown,
      spent,
      price (token config) grant (granted config k calls m'),
      granted_from config k later calls m' h timely,
      elapsed config.rate now later (last_reading later calls) le (last_reading-le later calls h),
    )

empty-IsTimely : (k now : ℕ) → IsTimely k now []
unfolding Map.get Map.keys
empty-IsTimely k now = record { keyed = tt; settled = tt }

-- A limiter that has served any calls grants a key, over calls that follow, however many and with
-- whatever other keys among them, no more tokens than its burst and what the rate refills in that
-- time: the sweeps refund nothing. The clock is taken not to step back.
pub granted_within_rate :
    (config : RateLimitConfig) (k start : ℕ) (before calls : List (ℕ × ℕ))
    → Rises start before
    → let now = last_reading start before in
      Rises now calls
      → config.parts * 1000 * granted config k calls (consume_run config before [])
        ≤ config.burst * 1000 + (last_reading now calls - now) * config.rate
granted_within_rate config k start before calls h h' =
    let now = last_reading start before in
    let m = consume_run config before [] in
    let t = run-IsTimely config k start before [] h (empty-IsTimely k start) in
    omega (arith, granted_from config k now calls m h' t, available-le config now (Map.get k m))
