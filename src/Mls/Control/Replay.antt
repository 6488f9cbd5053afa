-- ===== src/Mls/Control/Replay.antt =====
-- packages/mls/src/registry.ts, `foldControl`: what every replay of the ledger keeps.
use kumiai.Mls.Device.{DeviceValue}
use kumiai.Mls.Fold.{GroupAnchor, FoldInput, VerifiedLedgerEntry}
use kumiai.Mls.Registry.{authority, registry_apply, DeviceRegistry}
use kumiai.Mls.Roster.{role_entry_type, holds_admin, role_reducer, admin_count, count_admins}
use text.Mathlib.Text.{◌==◌ as str_eq}
use kumiai.Shared.{
  subst, ℕ, ◌+◌, ◌<◌, ◌≡◌, refl, sym, ap, ◌⊎◌, inl, inr, not, ◌||◌, Option, none, some, List, [],
  ◌∷◌, ◌==◌, is_some, arith, Bool-cases,
}
use kumiai.Mls.Control.{
  device_entry_type, fold_control, typed_entry, other, device, role, dropped, judge_device,
  judge_role, ControlValue, with_registry, ControlDrop, fold_control_from, applied, ControlState,
  Judged, judge_control,
}

pub Judged-cases :
    (j : Judged)
    → ((s : ControlState) × (j ≡ applied s)) ⊎ ((why : ControlDrop) × (j ≡ dropped why))
Judged-cases (applied s) = inl (s, refl)
Judged-cases (dropped why) = inr (why, refl)

pub applied_injective : (s s' : ControlState) → applied s ≡ applied s' → s ≡ s'
applied_injective s s' e = cc e

module _ (normalize_did : ℕ → ℕ)
    (lifecycle_apply : ℕ
      → VerifiedLedgerEntry DeviceValue
      → DeviceRegistry
      → Option DeviceRegistry) where
  -- An invariant of every applied entry is an invariant of the replay.
  pub fold_control_from_induction :
      (P : ControlState → Type 0) (controller : Option ℕ) (group : ℕ)
      → ((position : ℕ) (e : VerifiedLedgerEntry ControlValue) (s s' : ControlState)
          → judge_control normalize_did lifecycle_apply controller group position e s ≡ applied s'
          → P s
          → P s')
      → (position : ℕ) (is : List (FoldInput ControlValue)) (s : ControlState) → P s
      → P (fold_control_from normalize_did lifecycle_apply controller group position is s).0
  unfolding fold_control_from
  fold_control_from_induction P controller group keep position [] s h = h
  fold_control_from_induction P controller group keep position (i ∷ is) s h =
      elim (Judged-cases
        (judge_control normalize_did lifecycle_apply controller group position i.verified s)) [
          | inl (s', e) ↦ rw e (
              fold_control_from_induction P controller group keep (position + 1) is s'
                (keep position i.verified s s' e h))
          | inr (why, e) ↦
              rw e (fold_control_from_induction P controller group keep (position + 1) is s h)
        ]

  with_registry-roster :
      (s s' : ControlState) (o : Option DeviceRegistry)
      → with_registry s o ≡ applied s'
      → s'.roster ≡ s.roster
  with_registry-roster s s' none h = absurd (cc h)
  with_registry-roster s s' (some r) h =
      ap (λ (q : ControlState). q.roster)
        (sym (applied_injective (record { roster = s.roster; registry = r }) s' h))

  judge_device-roster :
      (controller : Option ℕ) (position : ℕ) (e : VerifiedLedgerEntry ControlValue)
      (v : ControlValue) (s s' : ControlState)
      → judge_device normalize_did lifecycle_apply controller position e v s ≡ applied s'
      → s'.roster ≡ s.roster
  judge_device-roster controller position e (role p) s s' h = absurd (cc h)
  judge_device-roster controller position e other s s' h = absurd (cc h)
  judge_device-roster controller position e (device v) s s' h = ground (
    arith,
    h,
    with_registry-roster s s'
        (registry_apply normalize_did lifecycle_apply controller (typed_entry e v) s.registry),
  )

  judge_role-admins :
      (e : VerifiedLedgerEntry ControlValue) (v : ControlValue) (s s' : ControlState)
      → judge_role normalize_did lifecycle_apply e v s ≡ applied s'
      → 0 < admin_count s'.roster
  judge_role-admins e (device v) s s' h = absurd (cc h)
  judge_role-admins e other s s' h = absurd (cc h)
  judge_role-admins e (role p) s s' h =
      let next = (role_reducer normalize_did).apply (typed_entry e p) s.roster in
      elim (Bool-cases (holds_admin (authority (normalize_did e.issuer) s.registry) s.roster)) [
        | inr a ↦ absurd (ground (arith, a, h))
        | inl a ↦ elim (Bool-cases (admin_count next == 0)) [
          | inl b ↦ absurd (ground (arith, a, b, h))
          | inr b ↦
              let same =
                applied_injective (record { roster = next; registry = s.registry }) s'
                  (ground (arith, a, b, h)) in
              subst (λ (q : ControlState). 0 < admin_count q.roster) same (ground (arith, b))
        ]
      ]

  judge_control-admins :
      (controller : Option ℕ) (group position : ℕ) (e : VerifiedLedgerEntry ControlValue)
      (s s' : ControlState)
      → judge_control normalize_did lifecycle_apply controller group position e s ≡ applied s'
      → 0 < admin_count s.roster
      → 0 < admin_count s'.roster
  unfolding judge_control
  judge_control-admins controller group position e s s' h k =
      elim (Bool-cases (e.entry.group_id == group)) [
        | inr a ↦ absurd (ground (arith, a, h))
        | inl a ↦ elim (Bool-cases (str_eq e.entry.entry_type device_entry_type)) [
          | inl b ↦
              subst (λ r. 0 < admin_count r)
                (sym (
                  judge_device-roster controller position e e.entry.value s s'
                    (ground (arith, a, b, h))))
                k
          | inr b ↦
              elim (Bool-cases
                (is_some controller || not (str_eq e.entry.entry_type role_entry_type))) [
                  | inl c ↦ absurd (ground (arith, a, b, c, h))
                  | inr c ↦ judge_role-admins e e.entry.value s s' (ground (arith, a, b, c, h))
                ]
        ]
      ]

  -- Whatever entries the ledger holds, and whatever their lifecycle proofs do, the roster that
  -- its replay leaves has an admin.
  pub fold_control-admins :
      (entries : List (FoldInput ControlValue)) (anchor : GroupAnchor) (group : ℕ)
      → 0 < admin_count (fold_control normalize_did lifecycle_apply entries anchor group).0.roster
  unfolding fold_control
  fold_control-admins entries anchor group =
      fold_control_from_induction (λ s. 0 < admin_count s.roster) anchor.controller group
        (λ position e s s' h k. judge_control-admins anchor.controller group position e s s' h k) 0
        entries _ (unfold role_reducer admin_count count_admins in omega arith)
