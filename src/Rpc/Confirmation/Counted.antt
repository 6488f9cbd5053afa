-- ===== src/Rpc/Confirmation/Counted.antt =====
-- packages/rpc/src/recovery-confirmation.ts, `waitForRecoveryConfirmation`: what a verdict must be to
-- count.
use kumiai.Rpc.Confirmation.{
  advise, arm, receive, first_refusal, disposed, send_fails, opening_fails, failed_with, disposes,
  is_proven, RecoveryRefusalReason, refused, unconfirmed, best_refused, best_superseded, settled_as,
  end_at, bound_to_attempt, ticks, receives, rule, confirmed, superseded, is_confirmed, Best,
  WaitEvent, Ruling, finished, WaitParams, waiting, ConfirmationOutcome, Wait, Waiting,
  OpenedRecoveryVerdict,
}
use kumiai.Shared.{
  ◌∙◌, ℕ, ◌≤◌, ◌≡◌, refl, sym, ap, ◌⊎◌, inl, inr, Bool, true, Option, none, some, List, [], ◌∷◌,
  arith, Bool-cases,
}

-- Some element satisfies `P`.
abbrev pub Any {ℓ} : {A : Type ℓ} → (A → Type 0) → List A → Type 0
Any P [] = ⊥
Any P (x ∷ xs) = P x ⊎ Any P xs

pub Wait-cases :
    (s : Wait) → ((w : Waiting) × (s ≡ waiting w)) ⊎ ((o : ConfirmationOutcome) × (s ≡ finished o))
Wait-cases (waiting w) = inl (w, refl)
Wait-cases (finished o) = inr (o, refl)

pub waiting_injective : (w w' : Waiting) → waiting w ≡ waiting w' → w ≡ w'
waiting_injective w w' e = cc e

pub finished_injective : (o o' : ConfirmationOutcome) → finished o ≡ finished o' → o ≡ o'
finished_injective o o' e = cc e

module _ (stringify : OpenedRecoveryVerdict → ℕ) (p : WaitParams) where
  -- A verdict on this very attempt, with a proof where it confirms, from a signer of standing.
  abbrev pub IsCounted : (Ruling → Type 0) → WaitEvent → Type 0
  IsCounted R (receives now (some o) authoritative) =
      (bound_to_attempt stringify p o.opened ≡ true)
      × (is_proven stringify p o.opened.verdict ≡ true)
      × (authoritative ≡ true)
      × R o.opened.verdict
  IsCounted R _ = ⊥

  abbrev pub IsConfirmation : Ruling → Type 0
  IsConfirmation (confirmed epoch tag) = (epoch ≡ p.pending_epoch) × (tag ≡ p.tag)
  IsConfirmation _ = ⊥

  -- What a settled outcome goes back to.
  abbrev pub IsFor : Best → WaitEvent → Type 0
  IsFor best_superseded e = IsCounted (λ r. r ≡ superseded) e
  IsFor (best_refused reason signer) (receives now (some o) authoritative) =
      IsCounted (λ r. r ≡ refused reason) (receives now (some o) authoritative)
      × (o.signer ≡ signer)
  IsFor (best_refused reason signer) _ = ⊥

  abbrev pub IsDeadline : WaitEvent → Type 0
  IsDeadline (ticks now) = end_at stringify p ≤ now
  IsDeadline _ = ⊥

  -- The event that earns an outcome.
  abbrev pub Earns : ConfirmationOutcome → WaitEvent → Type 0
  Earns (is_confirmed position epoch) e =
      (position ≡ p.position) × (epoch ≡ p.pending_epoch) × IsCounted IsConfirmation e
  Earns (settled_as best) e = IsFor best e
  Earns (unconfirmed advisory) e = IsDeadline e
  Earns disposed e = e ≡ disposes
  Earns (failed_with error) e = (e ≡ opening_fails error) ⊎ (e ≡ send_fails error)

  -- No settle timer runs before a verdict counts.
  abbrev pub IsUnarmed : Waiting → Type 0
  IsUnarmed w = w.best ≡ none → w.settle_at ≡ none

  arm-best :
      (now : ℕ) (at : Option ℕ) (b : Option Best) (w : Waiting)
      → (arm stringify p now at b w).best ≡ b
  arm-best now none b w = refl
  arm-best now (some at) b w = refl

  pub armed_best :
      (now : ℕ) (at : Option ℕ) (b : Option Best) (w w' : Waiting)
      → waiting (arm stringify p now at b w) ≡ waiting w'
      → w'.best ≡ b
  armed_best now at b w w' h =
      sym (ap (λ (q : Waiting). q.best) (waiting_injective (arm stringify p now at b w) w' h))
      ∙ arm-best now at b w

  -- Of a verdict that counts.
  abbrev IsRuled : Best → ℕ → Ruling → Type 0
  IsRuled best_superseded signer r = r ≡ superseded
  IsRuled (best_refused reason s) signer r = (r ≡ refused reason) × (signer ≡ s)

  pub refusal-best :
      (held : Option Best) (reason : RecoveryRefusalReason) (signer : ℕ) (b : Best)
      → first_refusal stringify p held reason signer ≡ some b
      → (held ≡ some b) ⊎ IsRuled b signer (refused reason)
  refusal-best none reason signer best_superseded h = absurd (cc h)
  refusal-best none reason signer (best_refused r s) h = inr (cc h, cc h)
  refusal-best (some held) reason signer b h = inl h

  rule-best :
      (now signer : ℕ) (r : Ruling) (w w' : Waiting) (b : Best)
      → rule stringify p now r signer w ≡ waiting w'
      → w'.best ≡ some b
      → (w.best ≡ some b) ⊎ IsRuled b signer r
  rule-best now signer (confirmed epoch tag) w w' b h k = absurd (cc h)
  rule-best now signer superseded w w' best_superseded h k = inr refl
  rule-best now signer superseded w w' (best_refused reason s) h k =
      absurd (cc (armed_best now w.settle_at (some best_superseded) w w' h, k))
  rule-best now signer (refused reason) w w' b h k =
      refusal-best w.best reason signer b (
        sym (armed_best now w.settle_at (first_refusal stringify p w.best reason signer) w w' h)
        ∙ k)

  pub same_best :
      (w v w' : Waiting) (b : Best)
      → v.best ≡ w.best
      → waiting v ≡ waiting w'
      → w'.best ≡ some b
      → w.best ≡ some b
  same_best w v w' b same h k =
      sym same ∙ (ap (λ (q : Waiting). q.best) (waiting_injective v w' h) ∙ k)

  ruled-IsFor :
      (now : ℕ) (o : OpenedRecoveryVerdict) (authoritative : Bool) (b : Best)
      → bound_to_attempt stringify p o.opened ≡ true
      → is_proven stringify p o.opened.verdict ≡ true
      → authoritative ≡ true
      → IsRuled b o.signer o.opened.verdict
      → IsFor b (receives now (some o) authoritative)
  ruled-IsFor now o authoritative best_superseded x y z r = (x, y, z, r)
  ruled-IsFor now o authoritative (best_refused reason s) x y z (r, t) = ((x, y, z, r), t)

  pub receive-best :
      (now : ℕ) (o : OpenedRecoveryVerdict) (authoritative : Bool) (w w' : Waiting) (b : Best)
      → receive stringify p now o authoritative w ≡ waiting w'
      → w'.best ≡ some b
      → (w.best ≡ some b) ⊎ IsFor b (receives now (some o) authoritative)
  unfolding receive
  receive-best now o authoritative w w' b h k =
      elim (Bool-cases (bound_to_attempt stringify p o.opened)) [
        | inr x ↦ inl (same_best w w w' b refl (ground (arith, x, h)) k)
        | inl x ↦ elim (Bool-cases (is_proven stringify p o.opened.verdict)) [
          | inr y ↦ inl (same_best w w w' b refl (ground (arith, x, y, h)) k)
          | inl y ↦ elim (Bool-cases authoritative) [
            | inr z ↦ inl (
                same_best w (advise stringify p o w) w' b (unfold advise in refl)
                  (ground (arith, x, y, z, h)) k)
            | inl z ↦
                elim (rule-best now o.signer o.opened.verdict w w' b (ground (arith, x, y, z, h))
                  k) [ inl e ↦ inl e | inr r ↦ inr (ruled-IsFor now o authoritative b x y z r) ]
          ]
        ]
      ]
