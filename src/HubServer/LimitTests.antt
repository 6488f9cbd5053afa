-- ===== src/HubServer/LimitTests.antt =====
-- Runs of packages/hub-server/src/rateLimit.ts.
use kumiai.HubServer.RateLimit.Window.{granted_within_rate}
use kumiai.HubServer.RateLimit.{consume_run, RateLimitConfig, granted}
use kumiai.Shared.{ℕ, ◌+◌, ◌-◌, ◌*◌, ◌≤◌, ◌≡◌, refl, List, [], ◌∷◌, arith}
use kumiai.Shared.Map
use kumiai.Shared.Map.{Map, get-set, get-delete, get-empty}

abbrev config : RateLimitConfig
config = record { rate = 4; burst = 6; parts = 2; ttl = 300000 }

-- The key 7 spends its burst, is refused, and waits half a second for a token.
abbrev burst_calls : List (ℕ × ℕ)
burst_calls = (7, 100) ∷ (7, 100) ∷ (8, 100) ∷ (7, 100) ∷ (7, 100) ∷ (7, 600) ∷ []

burst_run : granted config 7 burst_calls [] ≡ 4
unfolding granted Map.get Map.set Map.size
burst_run = refl

-- The clock steps back and the key pays for it.
clock_back_run : granted config 7 ((7, 5000) ∷ (7, 3000) ∷ []) [] ≡ 1
unfolding granted Map.get Map.set Map.size
clock_back_run = refl

granted_within_rate_example :
    2 * 1000 * granted config 7 burst_calls (consume_run config ((7, 50) ∷ []) [])
    ≤ 6 * 1000 + (600 - 50) * 4
granted_within_rate_example =
    granted_within_rate config 7 0 ((7, 50) ∷ []) burst_calls (omega arith, tt)
      (omega arith, (omega arith, (omega arith, (omega arith, (omega arith, (omega arith, tt))))))
