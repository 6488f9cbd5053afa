-- ===== src/Mls/Control/Revoked.antt =====
-- packages/mls/src/registry.ts, `foldControl` of a group without a lifecycle controller: a revoked
-- device is out for good.
use kumiai.Mls.Roster.{role_entry_type, role_reducer}
use kumiai.Mls.Registry.Terminal.{barred-authority, plain_apply-IsBarred, IsBarred}
use kumiai.Mls.Control.Replay.{fold_control_from_induction, applied_injective}
use kumiai.Mls.Control.{
  other, typed_entry, fold_control_from, with_registry, role, device_entry_type, device, applied,
  judge_device, judge_role, ControlState, ControlValue, judge_control,
}
use kumiai.Mls.Registry.{authority, is_denied, registry_apply, DeviceRegistry}
use kumiai.Mls.Device.{DeviceValue}
use kumiai.Mls.Fold.{FoldInput, VerifiedLedgerEntry}
use kumiai.Shared.{
  ℕ, ◌≡◌, refl, sym, ap, inl, inr, true, Option, none, some, List, ◌==◌, or_default, arith,
  Bool-cases, subst,
}
use text.Mathlib.Text.{◌==◌ as str_eq}

module _ (normalize_did : ℕ → ℕ)
    (lifecycle_apply : ℕ
      → VerifiedLedgerEntry DeviceValue
      → DeviceRegistry
      → Option DeviceRegistry) where
  applied_registry : (s s' : ControlState) → applied s ≡ applied s' → s'.registry ≡ s.registry
  applied_registry s s' e = ap (λ (q : ControlState). q.registry) (sym (applied_injective s s' e))

  with_registry-IsBarred :
      (did : ℕ) (s s' : ControlState) (o : Option DeviceRegistry)
      → ((r : DeviceRegistry) → o ≡ some r → IsBarred did r)
      → with_registry s o ≡ applied s'
      → IsBarred did s'.registry
  with_registry-IsBarred did s s' none k h = absurd (cc h)
  with_registry-IsBarred did s s' (some r) k h =
      subst (λ q. IsBarred did q)
        (sym (applied_registry (record { roster = s.roster; registry = r }) s' h)) (k r refl)

  some_registry : (r r' : DeviceRegistry) → some r ≡ some r' → r ≡ r'
  some_registry r r' e = cc e

  registry_apply-IsBarred :
      (did : ℕ) (v : VerifiedLedgerEntry DeviceValue) (r r' : DeviceRegistry)
      → IsBarred did r
      → registry_apply normalize_did lifecycle_apply none v r ≡ some r'
      → IsBarred did r'
  unfolding registry_apply
  registry_apply-IsBarred did v r r' k h =
      subst (λ q. IsBarred did q) (some_registry _ r' h)
        (plain_apply-IsBarred did (normalize_did v.entry.subject)
          (normalize_did (or_default v.entry.value.controller 0)) v.entry.value r k)

  judge_device-IsBarred :
      (did position : ℕ) (e : VerifiedLedgerEntry ControlValue) (v : ControlValue)
      (s s' : ControlState)
      → judge_device normalize_did lifecycle_apply none position e v s ≡ applied s'
      → IsBarred did s.registry
      → IsBarred did s'.registry
  judge_device-IsBarred did position e (role p) s s' h k = absurd (cc h)
  judge_device-IsBarred did position e other s s' h k = absurd (cc h)
  judge_device-IsBarred did position e (device v) s s' h k =
      with_registry-IsBarred did s s'
        (registry_apply normalize_did lifecycle_apply none (typed_entry e v) s.registry)
        (λ r a. registry_apply-IsBarred did (typed_entry e v) s.registry r k a) (ground (arith, h))

  judge_role-registry :
      (e : VerifiedLedgerEntry ControlValue) (v : ControlValue) (s s' : ControlState)
      → judge_role normalize_did lifecycle_apply e v s ≡ applied s'
      → s'.registry ≡ s.registry
  judge_role-registry e (device v) s s' h = absurd (cc h)
  judge_role-registry e other s s' h = absurd (cc h)
  judge_role-registry e (role p) s s' h =
      applied_registry
        (record {
          roster = (role_reducer normalize_did).apply (typed_entry e p) s.roster;
          registry = s.registry;
        })
        s' (ground (arith, h))

  judge_control-IsBarred :
      (did group position : ℕ) (e : VerifiedLedgerEntry ControlValue) (s s' : ControlState)
      → judge_control normalize_did lifecycle_apply none group position e s ≡ applied s'
      → IsBarred did s.registry
      → IsBarred did s'.registry
  unfolding judge_control
  judge_control-IsBarred did group position e s s' h k =
      elim (Bool-cases (e.entry.group_id == group)) [
        | inr a ↦ absurd (ground (arith, a, h))
        | inl a ↦ elim (Bool-cases (str_eq e.entry.entry_type device_entry_type)) [
          | inl b ↦
              judge_device-IsBarred did position e e.entry.value s s' (ground (arith, a, b, h)) k
          | inr b ↦ elim (Bool-cases (str_eq e.entry.entry_type role_entry_type)) [
            | inr c ↦ absurd (ground (arith, a, b, c, h))
            | inl c ↦
                subst (λ q. IsBarred did q)
                  (sym (judge_role-registry e e.entry.value s s' (ground (arith, a, b, c, h)))) k
          ]
        ]
      ]

  -- In a group without a lifecycle controller, a device that is revoked for good, from any state
  -- of the replay, stays so whatever entries follow: it is on the deny set, and its entries speak
  -- for its own DID, not for the controller that it was bound to.
  pub revoked_is_terminal :
      (did group position : ℕ) (entries : List (FoldInput ControlValue)) (s : ControlState)
      → IsBarred did s.registry
      → let s' =
          (fold_control_from normalize_did lifecycle_apply none group position entries s).0 in
        IsBarred did s'.registry
        × (is_denied did s'.registry ≡ true)
        × (authority did s'.registry ≡ did)
  revoked_is_terminal did group position entries s k =
      let barred =
        fold_control_from_induction normalize_did lifecycle_apply (λ q. IsBarred did q.registry)
          none group (λ at e q q' h b. judge_control-IsBarred did group at e q q' h b) position
          entries s k in
      let (own, denied) = barred-authority did _ barred in (barred, denied, own)
