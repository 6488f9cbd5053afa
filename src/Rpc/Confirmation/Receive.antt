-- ===== src/Rpc/Confirmation/Receive.antt =====
-- packages/rpc/src/recovery-confirmation.ts, `waitForRecoveryConfirmation`: what a received verdict does
-- to the wait.
use kumiai.Rpc.Confirmation.Counted.{
  armed_best, waiting_injective, IsCounted, IsUnarmed, IsConfirmation,
}
use kumiai.Rpc.Confirmation.{
  advise, receive, first_refusal, is_proven, RecoveryRefusalReason, refused, best_superseded,
  bound_to_attempt, receives, rule, confirmed, superseded, is_confirmed, Best, Ruling, finished,
  WaitParams, waiting, ConfirmationOutcome, Waiting, OpenedRecoveryVerdict,
}
use kumiai.Shared.{
  subst, ◌∙◌, ℕ, ◌≡◌, ◌≢◌, refl, sym, inl, inr, Bool, true, Option, none, some, arith, Bool-cases,
}

module _ (stringify : OpenedRecoveryVerdict → ℕ) (p : WaitParams) where
  pub kept-IsUnarmed :
      (w v w' : Waiting)
      → v.best ≡ w.best
      → v.settle_at ≡ w.settle_at
      → waiting v ≡ waiting w'
      → IsUnarmed stringify p w
      → IsUnarmed stringify p w'
  kept-IsUnarmed w v w' best at h k =
      subst (λ (q : Waiting). q.best ≡ none → q.settle_at ≡ none) (waiting_injective v w' h)
        (λ e. at ∙ k (sym best ∙ e))

  some_refusal :
      (held : Option Best) (reason : RecoveryRefusalReason) (signer : ℕ)
      → first_refusal stringify p held reason signer ≢ none
  some_refusal none reason signer h = cc h
  some_refusal (some b) reason signer h = cc h

  rule-IsUnarmed :
      (now signer : ℕ) (r : Ruling) (w w' : Waiting)
      → rule stringify p now r signer w ≡ waiting w'
      → IsUnarmed stringify p w'
  rule-IsUnarmed now signer (confirmed epoch tag) w w' h e = absurd (cc h)
  rule-IsUnarmed now signer superseded w w' h e =
      absurd (cc (armed_best stringify p now w.settle_at (some best_superseded) w w' h, e))
  rule-IsUnarmed now signer (refused reason) w w' h e = absurd (
      some_refusal w.best reason signer (
        sym (
          armed_best stringify p now w.settle_at (first_refusal stringify p w.best reason signer) w
            w' h)
        ∙ e))

  pub receive-IsUnarmed :
      (now : ℕ) (o : OpenedRecoveryVerdict) (authoritative : Bool) (w w' : Waiting)
      → receive stringify p now o authoritative w ≡ waiting w'
      → IsUnarmed stringify p w
      → IsUnarmed stringify p w'
  unfolding receive
  receive-IsUnarmed now o authoritative w w' h k =
      elim (Bool-cases (bound_to_attempt stringify p o.opened)) [
        | inr x ↦ kept-IsUnarmed w w w' refl refl (ground (arith, x, h)) k
        | inl x ↦ elim (Bool-cases (is_proven stringify p o.opened.verdict)) [
          | inr y ↦ kept-IsUnarmed w w w' refl refl (ground (arith, x, y, h)) k
          | inl y ↦ elim (Bool-cases authoritative) [
            | inr z ↦
                kept-IsUnarmed w (advise stringify p o w) w' (unfold advise in refl)
                  (unfold advise in refl) (ground (arith, x, y, z, h)) k
            | inl z ↦ rule-IsUnarmed now o.signer o.opened.verdict w w' (ground (arith, x, y, z, h))
          ]
        ]
      ]

  proven-IsConfirmation :
      (now signer : ℕ) (r : Ruling) (w : Waiting) (o : ConfirmationOutcome)
      → is_proven stringify p r ≡ true
      → rule stringify p now r signer w ≡ finished o
      → (o ≡ is_confirmed p.position p.pending_epoch) × IsConfirmation stringify p r
  proven-IsConfirmation now signer superseded w o k h = absurd (cc h)
  proven-IsConfirmation now signer (refused reason) w o k h = absurd (cc h)
  proven-IsConfirmation now signer (confirmed epoch tag) w o k h =
      (cc h, (ground (arith, k), ground (arith, k)))

  pub receive-finished :
      (now : ℕ) (v : OpenedRecoveryVerdict) (authoritative : Bool) (w : Waiting)
      (o : ConfirmationOutcome)
      → receive stringify p now v authoritative w ≡ finished o
      → (o ≡ is_confirmed p.position p.pending_epoch)
        × IsCounted stringify p (IsConfirmation stringify p) (receives now (some v) authoritative)
  unfolding receive
  receive-finished now v authoritative w o h =
      elim (Bool-cases (bound_to_attempt stringify p v.opened)) [
        | inr x ↦ absurd (ground (arith, x, h))
        | inl x ↦ elim (Bool-cases (is_proven stringify p v.opened.verdict)) [
          | inr y ↦ absurd (ground (arith, x, y, h))
          | inl y ↦ elim (Bool-cases authoritative) [
            | inr z ↦ absurd (ground (arith, x, y, z, h))
            | inl z ↦
                let (same, r) =
                  proven-IsConfirmation now v.signer v.opened.verdict w o y
                    (ground (arith, x, y, z, h)) in
                (same, (x, y, z, r))
          ]
        ]
      ]
