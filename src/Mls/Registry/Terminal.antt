-- ===== src/Mls/Registry/Terminal.antt =====
-- packages/mls/src/registry.ts: in a group without a lifecycle controller a revoked device stays
-- revoked.
use kumiai.Shared.{
  ℕ, ◌≡◌, refl, inl, inr, true, false, Option, some, ◌==◌, arith, Bool-cases, Option-cases, ==_iff,
}
use kumiai.Shared.Map
use kumiai.Shared.Map.{Map, get-set, get-delete, get-empty}
use kumiai.Mls.Registry.{
  is_reset_only, revoked, first_label, put_device, revoke_device, label_device, is_barred,
  bind_device, is_denied, DeviceRecord, DeviceRegistry, authority, DeviceValue, plain_apply,
}
use kumiai.Mls.Policy.{DeviceOp, register, add, revoke, label}

-- The device is revoked, and not by a reset that admits it again.
abbrev pub IsBarred : ℕ → DeviceRegistry → Type 0
IsBarred did r = is_barred (Map.get did r.devices) ≡ true

put-IsBarred :
    (did subject : ℕ) (d : DeviceRecord) (r : DeviceRegistry)
    → ((subject == did) ≡ true → is_barred (some d) ≡ true)
    → IsBarred did r
    → IsBarred did (put_device subject d r)
put-IsBarred did subject d r own h = elim (Bool-cases (subject == did)) [
  | inl e ↦ ground (arith, e, own e, get-set did subject d r.devices)
  | inr e ↦ ground (arith, e, h, get-set did subject d r.devices)
]

same_not_barred :
    (did subject : ℕ) (r : DeviceRegistry)
    → (subject == did) ≡ true
    → IsBarred did r
    → is_barred (Map.get subject r.devices) ≡ false
    → ⊥
same_not_barred did subject r same h e =
    let p = (==_iff subject did).0 same in absurd (cc (p, h, e))

bind-IsBarred :
    (did subject controller : ℕ) (v : DeviceValue) (r : DeviceRegistry)
    → IsBarred did r
    → IsBarred did (bind_device subject controller v r)
bind-IsBarred did subject controller v r h =
    elim (Bool-cases (is_barred (Map.get subject r.devices))) [
      | inl e ↦ rw e h
      | inr e ↦
          rw e (
            put-IsBarred did subject _ r (λ same. absurd (same_not_barred did subject r same h e))
              h)
    ]

revoke-IsBarred :
    (did subject : ℕ) (r : DeviceRegistry)
    → IsBarred did r
    → IsBarred did (revoke_device subject (Map.get subject r.devices) r)
revoke-IsBarred did subject r h = elim (Option-cases (Map.get subject r.devices)) [
  | inl e ↦ rw e h
  | inr (d, e) ↦ rw e (
      put-IsBarred did subject (record d { status = revoked; by_reset = false }) r
        (λ same. unfold is_reset_only in refl) h)
]

label-IsBarred :
    (did subject : ℕ) (text : Option ℕ) (r : DeviceRegistry)
    → IsBarred did r
    → IsBarred did (label_device subject text (Map.get subject r.devices) r)
label-IsBarred did subject text r h = elim (Option-cases (Map.get subject r.devices)) [
  | inl e ↦ rw e h
  | inr (d, e) ↦ rw e (
      put-IsBarred did subject (record d { label = first_label text d.label }) r
        (λ same. unfold is_reset_only in ground (arith, e, h, (==_iff subject did).0 same)) h)
]

-- No device entry lifts the bar.
pub plain_apply-IsBarred :
    (did subject controller : ℕ) (v : DeviceValue) (r : DeviceRegistry)
    → IsBarred did r
    → IsBarred did (plain_apply subject controller v r)
unfolding plain_apply
plain_apply-IsBarred did subject controller v r h = applied v.op
  where
    applied :
        (op : DeviceOp) → IsBarred did (plain_apply subject controller (record v { op = op }) r)
    applied register = bind-IsBarred did subject controller v r h
    applied add = bind-IsBarred did subject controller v r h
    applied revoke = revoke-IsBarred did subject r h
    applied label = label-IsBarred did subject v.label r h
    applied _ = h

-- A barred device speaks for itself alone.
pub barred-authority :
    (did : ℕ) (r : DeviceRegistry)
    → IsBarred did r
    → (authority did r ≡ did) × (is_denied did r ≡ true)
unfolding authority is_denied
barred-authority did r h = elim (Option-cases (Map.get did r.devices)) [
  | inl e ↦ absurd (ground (arith, e, h))
  | inr (d, e) ↦ ground (arith, e, h)
]
