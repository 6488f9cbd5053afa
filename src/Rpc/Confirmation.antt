-- ===== src/Rpc/Confirmation.antt =====
-- packages/rpc/src/recovery-confirmation.ts, `waitForRecoveryConfirmation`: a rejoining member waits
-- for a verdict on its external commit. Timers and the port's answers are events; a timer fires at
-- the first `ticks` at or after its time. The verdicts are handled one after the other, each when
-- it is opened and judged. IDs, tags and errors are numbers; the tag that a confirmation must bear,
-- an HMAC of the confirmation key, is a parameter, and so is `JSON.stringify` of a verdict.
pub mod Counted
pub mod Receive
pub mod Earned
pub mod Ends
use kumiai.Shared.{
  ℕ, zero, suc, ◌+◌, ◌-◌, ◌*◌, ◌≤◌, ◌<◌, ◌≡◌, ◌≢◌, refl, sym, ap, ◌⊎◌, ◌↔◌, inl, inr, Bool, true,
  false, not, ◌&&◌, ◌||◌, Option, none, some, List, [], ◌∷◌, ◌++◌, ◌==◌, ltb, leb, if◌then◌else◌,
  or_default, is_some, arith, All, length, Bool-cases, Option-cases, ==_iff, ==_refl, ==_ne, min,
  max, map, has, erase,
}
use kumiai.Shared.Map
use kumiai.Shared.Map.{Map, get-set, get-delete, get-empty}

pub data RecoveryRefusalReason : Type 0 where
  binding lapse floor policy invalid : RecoveryRefusalReason

pub data Ruling : Type 0 where
  confirmed : ℕ → ℕ → Ruling
  superseded : Ruling
  refused : RecoveryRefusalReason → Ruling

pub record RecoveryVerdict : Type 0 where
  pub group_id : ℕ
  pub request_id : ℕ
  pub position : ℕ
  pub commit_digest : ℕ
  pub verdict : Ruling

pub record OpenedRecoveryVerdict : Type 0 where
  pub signer : ℕ
  pub opened : RecoveryVerdict

-- The outcomes that a counted verdict leaves as the best so far.
pub data Best : Type 0 where
  best_superseded : Best
  best_refused : RecoveryRefusalReason → ℕ → Best

pub data ConfirmationOutcome : Type 0 where
  is_confirmed : ℕ → ℕ → ConfirmationOutcome
  settled_as : Best → ConfirmationOutcome
  unconfirmed : Map OpenedRecoveryVerdict → ConfirmationOutcome
  disposed : ConfirmationOutcome
  failed_with : ℕ → ConfirmationOutcome

pub record WaitParams : Type 0 where
  pub pending_epoch : ℕ
  pub group_id : ℕ
  pub request_id : ℕ
  pub position : ℕ
  pub commit_digest : ℕ
  pub tag : ℕ
  pub started : ℕ
  pub deadline : ℕ
  pub timeout : ℕ

pub record Waiting : Type 0 where
  pub best : Option Best
  pub advisory : Map OpenedRecoveryVerdict
  pub settle_at : Option ℕ
  pub asked : ℕ

pub data Wait : Type 0 where
  waiting : Waiting → Wait
  finished : ConfirmationOutcome → Wait

pub data WaitEvent : Type 0 where
  receives : ℕ → Option OpenedRecoveryVerdict → Bool → WaitEvent
  opening_fails send_fails ticks : ℕ → WaitEvent
  repeats disposes : WaitEvent

-- The verdict waits for the first answer, and the request is sent once.
unfoldable pub start_waiting : Wait
start_waiting = waiting (record { best = none; advisory = []; settle_at = none; asked = 1 })

unfoldable pub advisory_limit : ℕ
advisory_limit = 1024

abbrev drop_oldest : Map OpenedRecoveryVerdict → Map OpenedRecoveryVerdict
drop_oldest [] = []
drop_oldest (oldest ∷ m) = m

module _ (stringify : OpenedRecoveryVerdict → ℕ) (p : WaitParams) where
  -- `boundToAttempt`
  unfoldable pub bound_to_attempt : RecoveryVerdict → Bool
  bound_to_attempt v =
      (v.group_id == p.group_id)
      && ((v.request_id == p.request_id)
          && ((v.position == p.position) && (v.commit_digest == p.commit_digest)))

  -- A confirmation must name the pending epoch and bear the attempt's tag.
  abbrev pub is_proven : Ruling → Bool
  is_proven (confirmed epoch tag) = (epoch == p.pending_epoch) && (tag == p.tag)
  is_proven superseded = true
  is_proven (refused reason) = true

  unfoldable pub advise : OpenedRecoveryVerdict → Waiting → Waiting
  unfolding advisory_limit
  advise o w =
      let advisory = Map.set (stringify o) o w.advisory in
      record w {
        advisory = if ltb advisory_limit (length advisory) then drop_oldest advisory else advisory;
      }

  -- The first counted verdict asks once more, stops the repeats and sets the settle timer.
  abbrev pub arm : ℕ → Option ℕ → Option Best → Waiting → Waiting
  arm now none best w = record w {
    best = best;
    settle_at = some (now + min p.timeout (p.deadline - now));
    asked = w.asked + 1;
  }
  arm now (some at) best w = record w { best = best }

  abbrev pub first_refusal : Option Best → RecoveryRefusalReason → ℕ → Option Best
  first_refusal none reason signer = some (best_refused reason signer)
  first_refusal (some best) reason signer = some best

  abbrev pub rule : ℕ → Ruling → ℕ → Waiting → Wait
  rule now (confirmed epoch tag) signer w = finished (is_confirmed p.position p.pending_epoch)
  rule now superseded signer w = waiting (arm now w.settle_at (some best_superseded) w)
  rule now (refused reason) signer w =
      waiting (arm now w.settle_at (first_refusal w.best reason signer) w)

  unfoldable pub receive : ℕ → OpenedRecoveryVerdict → Bool → Waiting → Wait
  unfolding bound_to_attempt advise
  receive now o authoritative w =
      if not (bound_to_attempt o.opened)
      then waiting w
      else if not (is_proven o.opened.verdict)
      then waiting w
      else if not authoritative
      then waiting (advise o w)
      else rule now o.opened.verdict o.signer w

  abbrev pub outcome_of : Option Best → Waiting → ConfirmationOutcome
  outcome_of none w = unconfirmed w.advisory
  outcome_of (some best) w = settled_as best

  abbrev pub is_due : ℕ → Option ℕ → Bool
  is_due now none = false
  is_due now (some at) = leb at now

  -- The time of the `end` timer.
  abbrev pub end_at : ℕ
  end_at = p.started + (p.deadline - p.started)

  abbrev pub is_unset : Option ℕ → Bool
  is_unset none = true
  is_unset (some at) = false

  abbrev pub repeated : Waiting → Waiting
  repeated w = if is_unset w.settle_at then record w { asked = w.asked + 1 } else w

  unfoldable pub wait_on : Waiting → WaitEvent → Wait
  unfolding receive
  wait_on w (receives now none authoritative) = waiting w
  wait_on w (receives now (some o) authoritative) = receive now o authoritative w
  wait_on w (opening_fails error) = finished (failed_with error)
  wait_on w (send_fails error) = finished (failed_with error)
  wait_on w (ticks now) =
      if leb end_at now || is_due now w.settle_at then finished (outcome_of w.best w) else waiting w
  wait_on w repeats = waiting (repeated w)
  wait_on w disposes = finished disposed

  -- What is finished stays so.
  abbrev pub wait_step : Wait → WaitEvent → Wait
  wait_step (finished o) e = finished o
  wait_step (waiting w) e = wait_on w e

  unfoldable pub wait_run : Wait → List WaitEvent → Wait
  unfolding wait_on
  wait_run s [] = s
  wait_run s (e ∷ es) = wait_run (wait_step s e) es
