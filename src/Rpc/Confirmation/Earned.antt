-- ===== src/Rpc/Confirmation/Earned.antt =====
-- packages/rpc/src/recovery-confirmation.ts, `waitForRecoveryConfirmation`: every outcome is earned by
-- an event.
use kumiai.Rpc.Confirmation.Receive.{receive-IsUnarmed, receive-finished, kept-IsUnarmed}
use kumiai.Rpc.Confirmation.Counted.{
  Wait-cases, Any, receive-best, same_best, finished_injective, Earns, IsFor, IsUnarmed,
}
use kumiai.Rpc.Confirmation.{
  start_waiting, wait_run, is_unset, repeats, repeated, outcome_of, is_due, wait_on, disposed,
  send_fails, opening_fails, failed_with, disposes, unconfirmed, settled_as, end_at, ticks,
  receives, Best, WaitEvent, finished, WaitParams, waiting, ConfirmationOutcome, Waiting,
  OpenedRecoveryVerdict,
}
use kumiai.Shared.{
  subst, ◌∙◌, ℕ, ◌≤◌, ◌≡◌, refl, sym, ap, ◌⊎◌, inl, inr, true, ◌||◌, Option, none, some, List, [],
  ◌∷◌, leb, arith, Bool-cases, Option-cases,
}

module _ (stringify : OpenedRecoveryVerdict → ℕ) (p : WaitParams) where
  at_deadline :
      (now : ℕ) (at : Option ℕ)
      → at ≡ none
      → (leb (end_at stringify p) now || is_due stringify p now at) ≡ true
      → end_at stringify p ≤ now
  at_deadline now none e h = ground (arith, h)
  at_deadline now (some t) e h = absurd (cc e)

  -- A tick ends the wait with the best verdict so far, or with none at the deadline.
  ticks-finished :
      (now : ℕ) (w : Waiting) (o : ConfirmationOutcome)
      → wait_on stringify p w (ticks now) ≡ finished o
      → IsUnarmed stringify p w
      → ((b : Best) × (o ≡ settled_as b) × (w.best ≡ some b)) ⊎ Earns stringify p o (ticks now)
  unfolding wait_on
  ticks-finished now w o h k =
      elim (Bool-cases (leb (end_at stringify p) now || is_due stringify p now w.settle_at)) [
        | inr n ↦ absurd (ground (arith, n, h))
        | inl due ↦
            let same : outcome_of stringify p w.best w ≡ o =
              finished_injective (outcome_of stringify p w.best w) o (rw due at h) in
            elim (Option-cases w.best) [
              | inr (b, e) ↦ inl (b, sym same ∙ rw e refl, e)
              | inl e ↦
                  let none_yet : outcome_of stringify p w.best w ≡ unconfirmed w.advisory =
                    rw e refl in
                  inr (
                    subst (λ q. Earns stringify p q (ticks now)) (sym none_yet ∙ same)
                      (at_deadline now w.settle_at (k e) due))
            ]
      ]

  pub repeated-best : (w : Waiting) → (repeated stringify p w).best ≡ w.best
  repeated-best w = elim (Bool-cases (is_unset stringify p w.settle_at)) [
    | inl e ↦ rw e refl
    | inr e ↦ rw e refl
  ]

  repeated-settle_at : (w : Waiting) → (repeated stringify p w).settle_at ≡ w.settle_at
  repeated-settle_at w = elim (Bool-cases (is_unset stringify p w.settle_at)) [
    | inl e ↦ rw e refl
    | inr e ↦ rw e refl
  ]

  wait_on-best :
      (w : Waiting) (e : WaitEvent) (w' : Waiting) (b : Best)
      → wait_on stringify p w e ≡ waiting w'
      → w'.best ≡ some b
      → (w.best ≡ some b) ⊎ IsFor stringify p b e
  unfolding wait_on
  wait_on-best w (receives now none authoritative) w' b h k =
      inl (same_best stringify p w w w' b refl h k)
  wait_on-best w (receives now (some o) authoritative) w' b h k =
      receive-best stringify p now o authoritative w w' b h k
  wait_on-best w (opening_fails error) w' b h k = absurd (cc h)
  wait_on-best w (send_fails error) w' b h k = absurd (cc h)
  wait_on-best w (ticks now) w' b h k =
      elim (Bool-cases (leb (end_at stringify p) now || is_due stringify p now w.settle_at)) [
        | inl due ↦ absurd (cc (rw (wait_on, due) at h))
        | inr wait ↦ inl (same_best stringify p w w w' b refl (rw (wait_on, wait) at h) k)
      ]
  wait_on-best w repeats w' b h k =
      inl (same_best stringify p w (repeated stringify p w) w' b (repeated-best w) h k)
  wait_on-best w disposes w' b h k = absurd (cc h)

  wait_on-IsUnarmed :
      (w : Waiting) (e : WaitEvent) (w' : Waiting)
      → wait_on stringify p w e ≡ waiting w'
      → IsUnarmed stringify p w
      → IsUnarmed stringify p w'
  unfolding wait_on
  wait_on-IsUnarmed w (receives now none authoritative) w' h k =
      kept-IsUnarmed stringify p w w w' refl refl h k
  wait_on-IsUnarmed w (receives now (some o) authoritative) w' h k =
      receive-IsUnarmed stringify p now o authoritative w w' h k
  wait_on-IsUnarmed w (opening_fails error) w' h k = absurd (cc h)
  wait_on-IsUnarmed w (send_fails error) w' h k = absurd (cc h)
  wait_on-IsUnarmed w (ticks now) w' h k =
      elim (Bool-cases (leb (end_at stringify p) now || is_due stringify p now w.settle_at)) [
        | inl due ↦ absurd (cc (rw (wait_on, due) at h))
        | inr wait ↦ kept-IsUnarmed stringify p w w w' refl refl (rw (wait_on, wait) at h) k
      ]
  wait_on-IsUnarmed w repeats w' h k =
      kept-IsUnarmed stringify p w (repeated stringify p w) w' (repeated-best w)
        (repeated-settle_at w) h k
  wait_on-IsUnarmed w disposes w' h k = absurd (cc h)

  wait_on-finished :
      (w : Waiting) (e : WaitEvent) (o : ConfirmationOutcome)
      → wait_on stringify p w e ≡ finished o
      → IsUnarmed stringify p w
      → ((b : Best) × (o ≡ settled_as b) × (w.best ≡ some b)) ⊎ Earns stringify p o e
  wait_on-finished w (receives now none authoritative) o h k = absurd (unfold wait_on in cc h)
  wait_on-finished w (receives now (some v) authoritative) o h k =
      let (same, counted) =
        receive-finished stringify p now v authoritative w o (unfold wait_on in h) in
      inr (
        subst (λ q. Earns stringify p q (receives now (some v) authoritative)) (sym same)
          (refl, refl, counted))
  wait_on-finished w (opening_fails error) o h k = inr (
      subst (λ q. Earns stringify p q (opening_fails error))
        (finished_injective (failed_with error) o (unfold wait_on in h)) (inl refl))
  wait_on-finished w (send_fails error) o h k = inr (
      subst (λ q. Earns stringify p q (send_fails error))
        (finished_injective (failed_with error) o (unfold wait_on in h)) (inr refl))
  wait_on-finished w (ticks now) o h k = ticks-finished now w o h k
  wait_on-finished w repeats o h k = absurd (unfold wait_on in cc h)
  wait_on-finished w disposes o h k = inr (
      subst (λ q. Earns stringify p q disposes)
        (finished_injective disposed o (unfold wait_on in h)) refl)

  pub finished_stays :
      (es : List WaitEvent) (o : ConfirmationOutcome)
      → wait_run stringify p (finished o) es ≡ finished o
  unfolding wait_run
  finished_stays [] o = refl
  finished_stays (e ∷ es) o = finished_stays es o

  earned_at :
      (es : List WaitEvent) (e : WaitEvent) (w w' : Waiting) (o : ConfirmationOutcome)
      → wait_on stringify p w e ≡ waiting w'
      → ((b : Best) × (o ≡ settled_as b) × (w'.best ≡ some b)) ⊎ Any (Earns stringify p o) es
      → ((b : Best) × (o ≡ settled_as b) × (w.best ≡ some b)) ⊎ Any (Earns stringify p o) (e ∷ es)
  earned_at es e w w' o h (inr later) = inr (inr later)
  earned_at es e w w' o h (inl (b, same, best)) = elim (wait_on-best w e w' b h best) [
    | inl held ↦ inl (b, same, held)
    | inr now ↦ inr (inl (subst (λ q. Earns stringify p q e) (sym same) now))
  ]

  earned_now :
      (es : List WaitEvent) (e : WaitEvent) (w : Waiting) (o : ConfirmationOutcome)
      → ((b : Best) × (o ≡ settled_as b) × (w.best ≡ some b)) ⊎ Earns stringify p o e
      → ((b : Best) × (o ≡ settled_as b) × (w.best ≡ some b)) ⊎ Any (Earns stringify p o) (e ∷ es)
  earned_now es e w o (inl held) = inl held
  earned_now es e w o (inr now) = inr (inl now)

  earned_from :
      (es : List WaitEvent) (w : Waiting) (o : ConfirmationOutcome)
      → wait_run stringify p (waiting w) es ≡ finished o
      → IsUnarmed stringify p w
      → ((b : Best) × (o ≡ settled_as b) × (w.best ≡ some b)) ⊎ Any (Earns stringify p o) es
  unfolding wait_run
  earned_from [] w o h k = absurd (cc h)
  earned_from (e ∷ es) w o h k = elim (Wait-cases (wait_on stringify p w e)) [
    | inl (w', on) ↦ earned_at es e w w' o on (
        earned_from es w' o (subst (λ s. wait_run stringify p s es ≡ finished o) on h)
          (wait_on-IsUnarmed w e w' on k))
    | inr (o', on) ↦
        let left = subst (λ s. wait_run stringify p s es ≡ finished o) on h in
        let same = finished_injective o' o (sym (finished_stays es o') ∙ left) in
        earned_now es e w o (wait_on-finished w e o (on ∙ ap (λ q. finished q) same) k)
  ]

  -- Whatever verdicts arrive, whenever the timers fire, every outcome of the wait is earned: a
  -- confirmation, at the attempt's own position and epoch, by an authoritative verdict on this very
  -- attempt that names its epoch and bears its tag; a supersession or a refusal by an authoritative
  -- verdict on this very attempt that says so, the refusal by the signer it is reported with; an
  -- unconfirmed end by the deadline; and a disposal or an error by its event.
  pub outcome_is_earned :
      (es : List WaitEvent) (o : ConfirmationOutcome)
      → wait_run stringify p start_waiting es ≡ finished o
      → Any (Earns stringify p o) es
  unfolding start_waiting
  outcome_is_earned es o h = elim (earned_from es _ o h (λ e. refl)) [
    | inl (b, same, best) ↦ absurd (cc best)
    | inr earned ↦ earned
  ]
