-- ===== src/Mls/Control.antt =====
-- packages/mls/src/registry.ts, `foldControl`: the replay of the whole control ledger into the
-- roster and the device registry, in one pass.
pub mod Replay
pub mod Revoked
use kumiai.Mls.Policy.{seed, same_op}
use kumiai.Mls.Fold.{GroupAnchor, FoldInput, VerifiedLedgerEntry}
use kumiai.Mls.Roster.{
  role_entry_type, admin_count, role_reducer, holds_admin, GroupPermission, RosterState,
}
use kumiai.Mls.Device.{is_lifecycle_device_value, is_device_value, DeviceValue}
use kumiai.Shared.{
  ℕ, ◌+◌, not, ◌&&◌, ◌||◌, Option, none, some, List, [], ◌∷◌, ◌==◌, if◌then◌else◌, is_some,
}
use text.Mathlib.Text.{◌==◌ as str_eq}
use Prim.Native.String.{String}
use kumiai.Mls.Registry.{registry_seed, authority, DeviceRegistry, registry_apply}

abbrev pub device_entry_type : String
device_entry_type = "kumiai.device"

-- An entry's value, by what its guards make of it.
pub data ControlValue : Type 0 where
  device : DeviceValue → ControlValue
  role : GroupPermission → ControlValue
  other : ControlValue

pub record ControlState : Type 0 where
  pub roster : RosterState
  pub registry : DeviceRegistry

-- The reasons that `onDrop` is told.
pub data ControlDrop : Type 0 where
  cross_group malformed_device not_in_lifecycle invalid_proof unrelated : ControlDrop
  invalid_role not_admin would_empty : ControlDrop

pub data Judged : Type 0 where
  applied : ControlState → Judged
  dropped : ControlDrop → Judged

abbrev pub typed_entry : {V : Type 0} → VerifiedLedgerEntry ControlValue → V → VerifiedLedgerEntry V
typed_entry e v = record {
  issuer = e.issuer;
  entry = record {
    entry_type = e.entry.entry_type;
    group_id = e.entry.group_id;
    subject = e.entry.subject;
    value = v;
  };
}

abbrev pub with_registry : ControlState → Option DeviceRegistry → Judged
with_registry s none = dropped invalid_proof
with_registry s (some r) = applied (record { roster = s.roster; registry = r })

module _ (normalize_did : ℕ → ℕ)
    (lifecycle_apply : ℕ
      → VerifiedLedgerEntry DeviceValue
      → DeviceRegistry
      → Option DeviceRegistry) where
  -- A `seed` stands first or not at all.
  abbrev pub judge_device :
      Option ℕ → ℕ → VerifiedLedgerEntry ControlValue → ControlValue → ControlState → Judged
  judge_device controller position e (device v) s =
      if not (is_device_value v)
      then dropped malformed_device
      else if is_some controller && not (is_lifecycle_device_value v)
      then dropped not_in_lifecycle
      else if same_op v.op seed && not (position == 0)
      then dropped invalid_proof
      else with_registry s
          (registry_apply normalize_did lifecycle_apply controller (typed_entry e v) s.registry)
  judge_device controller position e _ s = dropped malformed_device

  abbrev pub judge_role : VerifiedLedgerEntry ControlValue → ControlValue → ControlState → Judged
  judge_role e (role p) s =
      if not (holds_admin (authority (normalize_did e.issuer) s.registry) s.roster)
      then dropped not_admin
      else let next = (role_reducer normalize_did).apply (typed_entry e p) s.roster in
        if admin_count next == 0
        then dropped would_empty
        else applied (record { roster = next; registry = s.registry })
  judge_role e _ s = dropped invalid_role

  unfoldable pub judge_control :
      Option ℕ → ℕ → ℕ → VerifiedLedgerEntry ControlValue → ControlState → Judged
  unfolding is_device_value is_lifecycle_device_value registry_apply authority role_reducer
  judge_control controller group position e s =
      if not (e.entry.group_id == group)
      then dropped cross_group
      else if str_eq e.entry.entry_type device_entry_type
      then judge_device controller position e e.entry.value s
      else if is_some controller || not (str_eq e.entry.entry_type role_entry_type)
      then dropped unrelated
      else judge_role e e.entry.value s

  abbrev pub state_after : Judged → ControlState → ControlState
  state_after (applied s') s = s'
  state_after (dropped why) s = s

  abbrev pub report_control :
      FoldInput ControlValue → Judged → List (ℕ × ControlDrop) → List (ℕ × ControlDrop)
  report_control i (applied s) drops = drops
  report_control i (dropped why) drops = (i.entry_id, why) ∷ drops

  -- From a position of the ledger on: the state, and the drops in order.
  unfoldable pub fold_control_from :
      Option ℕ
      → ℕ
      → ℕ
      → List (FoldInput ControlValue)
      → ControlState
      → ControlState × List (ℕ × ControlDrop)
  unfolding judge_control
  fold_control_from controller group position [] s = (s, [])
  fold_control_from controller group position (i ∷ is) s =
      let judged = judge_control controller group position i.verified s in
      let rest = fold_control_from controller group (position + 1) is (state_after judged s) in
      (rest.0, report_control i judged rest.1)

  unfoldable pub fold_control :
      List (FoldInput ControlValue) → GroupAnchor → ℕ → ControlState × List (ℕ × ControlDrop)
  unfolding fold_control_from role_reducer registry_seed
  fold_control entries anchor group =
      fold_control_from anchor.controller group 0 entries
        (record { roster = (role_reducer normalize_did).seed anchor; registry = registry_seed })
