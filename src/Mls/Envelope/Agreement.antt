-- ===== src/Mls/Envelope/Agreement.antt =====
-- packages/mls/src/envelope-fold.ts against registry.ts: an envelope that the strict fold accepts
-- leaves what the ledger's replay leaves.
use kumiai.Mls.Roster.{admin_count, role_reducer, role_entry_type, holds_admin}
use kumiai.Mls.Control.{
  other, typed_entry, device, judge_role, device_entry_type, role, judge_device, state_after,
  applied, fold_control_from, judge_control, with_registry, ControlValue,
}
use kumiai.Mls.Policy.{seed, same_op}
use kumiai.Mls.Registry.{registry_apply, authority, DeviceRegistry}
use kumiai.Mls.Fold.{FoldInput, VerifiedLedgerEntry}
use kumiai.Mls.Device.{DeviceValue, is_device_value}
use kumiai.Mls.Envelope.{
  surface, envelope_role, envelope_device, moved_to, envelope_entry, refuses, fold_envelope_from,
  EnvelopeReject, allows_operation, continues, accepted, Folded, EntryResult,
}
use kumiai.Shared.{
  ℕ, ◌+◌, ◌≡◌, refl, ap, ◌⊎◌, inl, inr, true, false, Option, none, some, List, [], ◌∷◌, ◌==◌, arith,
  Bool-cases,
}
use text.Mathlib.Text.{◌==◌ as str_eq}

pub EntryResult-cases :
    (r : EntryResult)
    → ((f : Folded) × (r ≡ continues f)) ⊎ ((why : EnvelopeReject) × (r ≡ refuses why))
EntryResult-cases (continues f) = inl (f, refl)
EntryResult-cases (refuses why) = inr (why, refl)

continues_injective : (f f' : Folded) → continues f ≡ continues f' → f ≡ f'
continues_injective f f' e = cc e

accepted_injective : (f f' : Folded) → accepted f ≡ accepted f' → f ≡ f'
accepted_injective f f' e = cc e

-- Without a lifecycle controller an allowed operation is no `seed`.
allowed_is_no_seed :
    (v : DeviceValue)
    → is_device_value v ≡ true
    → allows_operation none v ≡ true
    → same_op v.op seed ≡ false
unfolding is_device_value
allowed_is_no_seed v h k = ground (arith, h, k)

module _ (normalize_did : ℕ → ℕ)
    (lifecycle_apply : ℕ
      → VerifiedLedgerEntry DeviceValue
      → DeviceRegistry
      → Option DeviceRegistry) where
  moved_to-state :
      (f f' : Folded) (o : Option DeviceRegistry)
      → moved_to f o ≡ continues f'
      → with_registry f.state o ≡ applied f'.state
  moved_to-state f f' none h = absurd (cc h)
  moved_to-state f f' (some r) h =
      ap (λ (q : Folded). applied q.state)
        (continues_injective
          (record {
            state = record { roster = f.state.roster; registry = r };
            surfaced = f.surfaced;
          })
          f' h)

  envelope_device-judged :
      (position : ℕ) (e : VerifiedLedgerEntry ControlValue) (v : ControlValue) (f f' : Folded)
      → envelope_device normalize_did lifecycle_apply none e v f ≡ continues f'
      → judge_device normalize_did lifecycle_apply none position e v f.state ≡ applied f'.state
  envelope_device-judged position e (role p) f f' h = absurd (cc h)
  envelope_device-judged position e other f f' h = absurd (cc h)
  envelope_device-judged position e (device v) f f' h = elim (Bool-cases (is_device_value v)) [
    | inr a ↦ absurd (ground (arith, a, h))
    | inl a ↦ elim (Bool-cases (allows_operation none v)) [
      | inr b ↦ absurd (ground (arith, a, b, h))
      | inl b ↦
          let moved =
            moved_to-state f f'
              (registry_apply normalize_did lifecycle_apply none (typed_entry e v) f.state.registry)
              (ground (arith, a, b, h)) in
          ground (arith, a, allowed_is_no_seed v a b, moved)
    ]
  ]

  envelope_role-judged :
      (e : VerifiedLedgerEntry ControlValue) (v : ControlValue) (f f' : Folded)
      → holds_admin (authority (normalize_did e.issuer) f.state.registry) f.state.roster ≡ true
      → envelope_role normalize_did lifecycle_apply e v f ≡ continues f'
      → judge_role normalize_did lifecycle_apply e v f.state ≡ applied f'.state
  envelope_role-judged e (device v) f f' k h = absurd (cc h)
  envelope_role-judged e other f f' k h = absurd (cc h)
  envelope_role-judged e (role p) f f' k h =
      let next = (role_reducer normalize_did).apply (typed_entry e p) f.state.roster in
      elim (Bool-cases (admin_count next == 0)) [
        | inl a ↦ absurd (ground (arith, a, h))
        | inr a ↦
            let same =
              continues_injective
                (record {
                  state = record { roster = next; registry = f.state.registry };
                  surfaced = f.surfaced;
                })
                f' (ground (arith, a, h)) in
            let moved = ap (λ (q : Folded). applied q.state) same in ground (arith, a, k, moved)
      ]

  -- The replay moves to the same state, or drops an entry that the envelope surfaces.
  entry_agrees :
      (group position : ℕ) (e : VerifiedLedgerEntry ControlValue) (f f' : Folded)
      → envelope_entry normalize_did lifecycle_apply none group e f ≡ continues f'
      → state_after normalize_did lifecycle_apply
          (judge_control normalize_did lifecycle_apply none group position e f.state)
          f.state
        ≡ f'.state
  unfolding envelope_entry judge_control
  entry_agrees group position e f f' h = elim (Bool-cases (e.entry.group_id == group)) [
    | inr a ↦ absurd (ground (arith, a, h))
    | inl a ↦ elim (Bool-cases (str_eq e.entry.entry_type device_entry_type)) [
      | inl b ↦
          rw (a, b, envelope_device-judged position e e.entry.value f f' (ground (arith, a, b, h)))
            refl
      | inr b ↦
          elim (Bool-cases
            (holds_admin (authority (normalize_did e.issuer) f.state.registry) f.state.roster)) [
              | inr c ↦ absurd (ground (arith, a, b, c, h))
              | inl c ↦ elim (Bool-cases (str_eq e.entry.entry_type role_entry_type)) [
                | inl d ↦
                    rw
                      (
                        a,
                        b,
                        d,
                        envelope_role-judged e e.entry.value f f' c (ground (arith, a, b, c, d, h)),
                      )
                      refl
                | inr d ↦
                    let same =
                      continues_injective (surface e f) f' (ground (arith, a, b, c, d, h)) in
                    rw (a, b, d) (ap (λ (q : Folded). q.state) same)
              ]
            ]
    ]
  ]

  -- The strict fold of a commit's envelope refines the replay of the ledger: in a group without a
  -- lifecycle controller, the entries of an accepted envelope, replayed behind any ledger that
  -- left the envelope's base, leave the roster and the registry that the envelope was accepted
  -- with.
  pub fold_envelope_refines :
      (group position : ℕ) (entries : List (FoldInput ControlValue)) (f f' : Folded)
      → fold_envelope_from normalize_did lifecycle_apply none group entries f ≡ accepted f'
      → (fold_control_from normalize_did lifecycle_apply none group position entries f.state).0
        ≡ f'.state
  unfolding fold_envelope_from fold_control_from
  fold_envelope_refines group position [] f f' h =
      ap (λ (q : Folded). q.state) (accepted_injective f f' h)
  fold_envelope_refines group position (i ∷ is) f f' h =
      elim (EntryResult-cases
        (envelope_entry normalize_did lifecycle_apply none group i.verified f)) [
          | inr (why, e) ↦ absurd (cc (rw (fold_envelope_from, e) at h))
          | inl (g, e) ↦
              rw (entry_agrees group position i.verified f g e) (
                fold_envelope_refines group (position + 1) is g f'
                  (rw (fold_envelope_from, e) at h))
        ]
