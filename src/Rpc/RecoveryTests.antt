-- ===== src/Rpc/RecoveryTests.antt =====
-- Runs of packages/rpc/src/recovery-confirmation.ts.
use kumiai.Rpc.RecoveryCache.Lookup.{get_entry-set_entry}
use kumiai.Rpc.Confirmation.Earned.{outcome_is_earned}
use kumiai.Rpc.Confirmation.Ends.{supersession_wins, IsNoRefusal}
use kumiai.Rpc.RecoveryCache.Release.{released_once, count}
use kumiai.Rpc.Confirmation.Counted.{Earns, Any}
use kumiai.Rpc.Confirmation.{
  refused, best_superseded, confirmed, settled_as, finished, floor, ticks, superseded, receives,
  start_waiting, best_refused, waiting, Waiting, WaitEvent, OpenedRecoveryVerdict, bound_to_attempt,
  Ruling, WaitParams, wait_run,
}
use kumiai.Rpc.RecoveryCache.{
  entry_at, values, gets, get_entry, sets, CacheCall, cache_run, create_recovery_cache, set_entry,
}
use kumiai.Shared.{ℕ, ◌+◌, ◌≤◌, ◌≡◌, refl, true, false, some, List, [], ◌∷◌, arith, length}
use kumiai.Shared.Map
use kumiai.Shared.Map.{Map, get-set, get-delete, get-empty}

get_entry-set_entry_example :
    let c = cache_run create_recovery_cache (sets 1 10 50 0 ∷ sets 2 11 60 5 ∷ []) in
    (length c.entries ≤ 1024)
    × ((get_entry 2 80 (set_entry 2 20 90 10 c)).0 ≡ some (entry_at 2 20 90))
get_entry-set_entry_example =
    get_entry-set_entry (sets 1 10 50 0 ∷ sets 2 11 60 5 ∷ []) 2 20 90 10 80 (omega arith)

abbrev busy_cache : List CacheCall
busy_cache = sets 1 10 50 0 ∷ sets 1 12 60 5 ∷ gets 1 70 ∷ sets 2 10 65 70 ∷ []

busy_cache_run :
    cache_run create_recovery_cache busy_cache
    ≡ record { entries = []; released = 10 ∷ 12 ∷ 10 ∷ [] }
unfolding cache_run create_recovery_cache
busy_cache_run = refl

released_once_example :
    count 10 (values (cache_run create_recovery_cache busy_cache).entries)
      + count 10 (cache_run create_recovery_cache busy_cache).released
    ≡ 2
unfolding create_recovery_cache
released_once_example = released_once 10 busy_cache create_recovery_cache

abbrev no_text : OpenedRecoveryVerdict → ℕ
no_text v = v.signer

abbrev attempt : WaitParams
attempt = record {
  pending_epoch = 6;
  group_id = 9;
  request_id = 3;
  position = 12;
  commit_digest = 77;
  tag = 5;
  started = 100;
  deadline = 130;
  timeout = 10;
}

abbrev verdict_by : ℕ → Ruling → OpenedRecoveryVerdict
verdict_by signer ruling = record {
  signer = signer;
  opened = record {
    group_id = 9;
    request_id = 3;
    position = 12;
    commit_digest = 77;
    verdict = ruling;
  };
}

-- A forged confirmation and an advisory one are passed over; a refusal counts.
abbrev events : List WaitEvent
events =
    receives 101 (some (verdict_by 4 (confirmed 6 8))) true
    ∷ receives 102 (some (verdict_by 4 (confirmed 6 5))) false
    ∷ receives 103 (some (verdict_by 2 (refused floor))) true
    ∷ ticks 113
    ∷ []

refused_run :
    wait_run no_text attempt start_waiting events ≡ finished (settled_as (best_refused floor 2))
unfolding wait_run start_waiting Map.set
refused_run = refl

outcome_is_earned_example : Any (Earns no_text attempt (settled_as (best_refused floor 2))) events
outcome_is_earned_example =
    outcome_is_earned no_text attempt events (settled_as (best_refused floor 2)) refused_run

abbrev after_refusal : Waiting
after_refusal = record {
  best = some (best_refused floor 2);
  advisory = [];
  settle_at = some 113;
  asked = 2;
}

supersession_run :
    wait_run no_text attempt
      (waiting after_refusal)
      (receives 104 (some (verdict_by 4 superseded)) true ∷ ticks 113 ∷ [])
    ≡ finished (settled_as best_superseded)
unfolding wait_run
supersession_run = refl

supersession_wins_example : IsNoRefusal no_text attempt (settled_as best_superseded)
unfolding bound_to_attempt
supersession_wins_example =
    supersession_wins no_text attempt (ticks 113 ∷ []) 104 (verdict_by 4 superseded) after_refusal
      (settled_as best_superseded) refl refl supersession_run
