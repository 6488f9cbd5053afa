-- ===== src/Rpc/Confirmation/Ends.antt =====
-- packages/rpc/src/recovery-confirmation.ts, `waitForRecoveryConfirmation`: a supersession
-- is never reported as a refusal.
use kumiai.Rpc.Confirmation.Earned.{repeated-best}
use kumiai.Rpc.Confirmation.{
  disposes, repeats, is_due, send_fails, refused, confirmed, opening_fails, advise, receives,
  first_refusal, superseded, is_proven, unconfirmed, arm, rule, finished, best_refused,
  bound_to_attempt, best_superseded, RecoveryRefusalReason, Waiting, settled_as, ticks, waiting,
  Best, end_at, ConfirmationOutcome, WaitEvent, Wait, wait_on, Ruling, wait_run, receive,
  WaitParams, OpenedRecoveryVerdict,
}
use kumiai.Shared.{
  subst, ◌∙◌, ℕ, ◌≡◌, refl, inl, inr, Bool, true, ◌||◌, Option, none, some, List, [], ◌∷◌, leb,
  Bool-cases,
}

module _ (stringify : OpenedRecoveryVerdict → ℕ) (p : WaitParams) where
  abbrev pub IsNoRefusal : ConfirmationOutcome → Type 0
  IsNoRefusal (settled_as (best_refused reason signer)) = ⊥
  IsNoRefusal (unconfirmed advisory) = ⊥
  IsNoRefusal _ = Unit

  -- The best verdict so far is a supersession.
  abbrev IsSuperseded : Wait → Type 0
  IsSuperseded (waiting w) = w.best ≡ some best_superseded
  IsSuperseded (finished o) = IsNoRefusal o

  arm-IsSuperseded :
      (now : ℕ) (at : Option ℕ) (b : Option Best) (w : Waiting)
      → b ≡ some best_superseded
      → IsSuperseded (waiting (arm stringify p now at b w))
  arm-IsSuperseded now none b w h = h
  arm-IsSuperseded now (some at) b w h = h

  held_supersession :
      (held : Option Best) (reason : RecoveryRefusalReason) (signer : ℕ)
      → held ≡ some best_superseded
      → first_refusal stringify p held reason signer ≡ some best_superseded
  held_supersession none reason signer h = absurd (cc h)
  held_supersession (some b) reason signer h = h

  rule-IsSuperseded :
      (now signer : ℕ) (r : Ruling) (w : Waiting)
      → w.best ≡ some best_superseded
      → IsSuperseded (rule stringify p now r signer w)
  rule-IsSuperseded now signer (confirmed epoch tag) w h = tt
  rule-IsSuperseded now signer superseded w h =
      arm-IsSuperseded now w.settle_at (some best_superseded) w refl
  rule-IsSuperseded now signer (refused reason) w h =
      arm-IsSuperseded now w.settle_at (first_refusal stringify p w.best reason signer) w
        (held_supersession w.best reason signer h)

  receive-IsSuperseded :
      (now : ℕ) (o : OpenedRecoveryVerdict) (authoritative : Bool) (w : Waiting)
      → w.best ≡ some best_superseded
      → IsSuperseded (receive stringify p now o authoritative w)
  unfolding receive
  receive-IsSuperseded now o authoritative w h =
      elim (Bool-cases (bound_to_attempt stringify p o.opened)) [
        | inr x ↦ rw x h
        | inl x ↦ elim (Bool-cases (is_proven stringify p o.opened.verdict)) [
          | inr y ↦ rw (x, y) h
          | inl y ↦ elim (Bool-cases authoritative) [
            | inr z ↦ rw (x, y, z) (unfold advise in h)
            | inl z ↦ rw (x, y, z) (rule-IsSuperseded now o.signer o.opened.verdict w h)
          ]
        ]
      ]

  wait_on-IsSuperseded :
      (w : Waiting) (e : WaitEvent)
      → w.best ≡ some best_superseded
      → IsSuperseded (wait_on stringify p w e)
  unfolding wait_on
  wait_on-IsSuperseded w (receives now none authoritative) h = h
  wait_on-IsSuperseded w (receives now (some o) authoritative) h =
      receive-IsSuperseded now o authoritative w h
  wait_on-IsSuperseded w (opening_fails error) h = tt
  wait_on-IsSuperseded w (send_fails error) h = tt
  wait_on-IsSuperseded w (ticks now) h =
      elim (Bool-cases (leb (end_at stringify p) now || is_due stringify p now w.settle_at)) [
        | inl due ↦ rw (due, h) tt
        | inr wait ↦ rw wait h
      ]
  wait_on-IsSuperseded w repeats h = repeated-best stringify p w ∙ h
  wait_on-IsSuperseded w disposes h = tt

  wait_run-IsSuperseded :
      (es : List WaitEvent) (s : Wait) → IsSuperseded s → IsSuperseded (wait_run stringify p s es)
  unfolding wait_run
  wait_run-IsSuperseded [] s h = h
  wait_run-IsSuperseded (e ∷ es) (waiting w) h =
      wait_run-IsSuperseded es _ (wait_on-IsSuperseded w e h)
  wait_run-IsSuperseded (e ∷ es) (finished o) h = wait_run-IsSuperseded es (finished o) h

  counted_supersession :
      (now : ℕ) (v : OpenedRecoveryVerdict) (w : Waiting)
      → bound_to_attempt stringify p v.opened ≡ true
      → v.opened.verdict ≡ superseded
      → IsSuperseded (receive stringify p now v true w)
  unfolding receive
  counted_supersession now v w bound r =
      rw (bound, r) (arm-IsSuperseded now w.settle_at (some best_superseded) w refl)

  -- Once an authoritative verdict on this attempt has said that it is superseded, whatever was
  -- counted before and whatever follows, the wait does not end refused or unconfirmed.
  pub supersession_wins :
      (es : List WaitEvent) (now : ℕ) (v : OpenedRecoveryVerdict) (w : Waiting)
      (o : ConfirmationOutcome)
      → bound_to_attempt stringify p v.opened ≡ true
      → v.opened.verdict ≡ superseded
      → wait_run stringify p (waiting w) (receives now (some v) true ∷ es) ≡ finished o
      → IsNoRefusal o
  unfolding wait_run wait_on
  supersession_wins es now v w o bound r h =
      subst IsSuperseded h (wait_run-IsSuperseded es _ (counted_supersession now v w bound r))
