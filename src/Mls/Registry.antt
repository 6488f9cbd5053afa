-- ===== src/Mls/Registry.antt =====
-- packages/mls/src/registry.ts: the device registry and its fold step. What a lifecycle proof does,
-- which replays a controller's log through the controller library, is the parameter
-- `lifecycle_apply`: the branch of `registryApply` for a proof or an attestation, with `none` where
-- it throws. DIDs, labels, logs and proof references are numbers.
pub mod Terminal
use kumiai.Mls.Policy.{
  DeviceOp, register, add, revoke, label, beacon, reset, clock, log, seed, same_op,
}
use kumiai.Mls.Fold.{VerifiedLedgerEntry}
use kumiai.Shared.{
  ℕ, Bool, true, false, not, ◌&&◌, Option, none, some, [], if◌then◌else◌, or_default, is_some, max,
}
use kumiai.Shared.Map
use kumiai.Shared.Map.{Map, get-set, get-delete, get-empty}
use kumiai.Mls.Device.{DeviceValue}

pub data DeviceStatus : Type 0 where
  active revoked : DeviceStatus

pub record DeviceRecord : Type 0 where
  pub controller : ℕ
  pub status : DeviceStatus
  pub label : Option ℕ
  pub proof_ref : Option ℕ
  pub by_reset : Bool
  pub cascaded_from : Option ℕ

pub record ControllerBeacon : Type 0 where
  pub log_length : ℕ
  pub head_digest : ℕ

pub record ControllerProjection : Type 0 where
  pub recorded_log : Option ℕ
  pub gen_floor : ℕ
  pub time_floor : ℕ
  pub attestations : Map ℕ
  pub removed_members : Map ℕ
  pub survivor_grants : Map ℕ
  pub beacon : Option ControllerBeacon

unfoldable pub controller_projection : ControllerProjection
controller_projection = record {
  recorded_log = none;
  gen_floor = 0;
  time_floor = 0;
  attestations = [];
  removed_members = [];
  survivor_grants = [];
  beacon = none;
}

pub record DeviceRegistry : Type 0 where
  pub devices : Map DeviceRecord
  pub controllers : Map ControllerProjection

unfoldable pub registry_seed : DeviceRegistry
registry_seed = record { devices = []; controllers = [] }

abbrev pub is_active : DeviceStatus → Bool
is_active active = true
is_active revoked = false

unfoldable pub is_reset_only : DeviceRecord → Bool
is_reset_only d = not (is_active d.status) && (d.by_reset && not (is_some d.cascaded_from))

abbrev pub put_device : ℕ → DeviceRecord → DeviceRegistry → DeviceRegistry
put_device did d r = record { devices = Map.set did d r.devices; controllers = r.controllers }

abbrev pub put_controller : ℕ → ControllerProjection → DeviceRegistry → DeviceRegistry
put_controller did c r = record { devices = r.devices; controllers = Map.set did c r.controllers }

-- A binding that was revoked for good admits no later one.
abbrev pub is_barred : Option DeviceRecord → Bool
is_barred none = false
is_barred (some d) = not (is_active d.status) && not (is_reset_only d)

abbrev pub held_label : Option DeviceRecord → Option ℕ
held_label none = none
held_label (some d) = d.label

abbrev pub first_label : Option ℕ → Option ℕ → Option ℕ
first_label none held = held
first_label (some text) held = some text

abbrev pub projection_of : ℕ → DeviceRegistry → ControllerProjection
projection_of did r = or_default (Map.get did r.controllers) controller_projection

-- `register` and `add`.
abbrev pub bind_device : ℕ → ℕ → DeviceValue → DeviceRegistry → DeviceRegistry
bind_device subject controller v r =
    let existing = Map.get subject r.devices in
    if is_barred existing
    then r
    else put_device subject
        (record {
          controller = controller;
          status = active;
          label = first_label v.label (held_label existing);
          proof_ref = none;
          by_reset = false;
          cascaded_from = none;
        })
        r

-- `revoke` without a proof: the reset's reason goes with the binding.
abbrev pub revoke_device : ℕ → Option DeviceRecord → DeviceRegistry → DeviceRegistry
revoke_device subject none r = r
revoke_device subject (some d) r =
    put_device subject (record d { status = revoked; by_reset = false }) r

abbrev pub label_device : ℕ → Option ℕ → Option DeviceRecord → DeviceRegistry → DeviceRegistry
label_device subject text none r = r
label_device subject text (some d) r =
    put_device subject (record d { label = first_label text d.label }) r

abbrev pub announce : ℕ → DeviceValue → DeviceRegistry → DeviceRegistry
announce subject v r =
    put_controller subject
      (record (projection_of subject r) {
        beacon = some (record {
          log_length = or_default v.log_length 0;
          head_digest = or_default v.head_digest 0;
        });
      })
      r

-- The step of a group without a lifecycle controller.
unfoldable pub plain_apply : ℕ → ℕ → DeviceValue → DeviceRegistry → DeviceRegistry
unfolding is_reset_only controller_projection
plain_apply subject controller v r = elim v.op [
  | register ↦ bind_device subject controller v r
  | add ↦ bind_device subject controller v r
  | revoke ↦ revoke_device subject (Map.get subject r.devices) r
  | label ↦ label_device subject v.label (Map.get subject r.devices) r
  | beacon ↦ announce subject v r
  | _ ↦ r
]

-- `clock` without an attestation raises the time floor.
abbrev pub raise_clock : ℕ → ℕ → DeviceRegistry → DeviceRegistry
raise_clock controller time r =
    put_controller controller
      (record (projection_of controller r) {
        time_floor = max (projection_of controller r).time_floor time;
      })
      r

abbrev pub is_clock_raise : DeviceValue → Bool
is_clock_raise v = same_op v.op clock && not v.attest

abbrev pub is_proof_op : DeviceOp → Bool
is_proof_op reset = true
is_proof_op revoke = true
is_proof_op clock = true
is_proof_op log = true
is_proof_op seed = true
is_proof_op _ = false

module _ (normalize_did : ℕ → ℕ)
    (lifecycle_apply : ℕ
      → VerifiedLedgerEntry DeviceValue
      → DeviceRegistry
      → Option DeviceRegistry) where
  abbrev pub plain_step : VerifiedLedgerEntry DeviceValue → DeviceRegistry → DeviceRegistry
  plain_step v r =
      plain_apply (normalize_did v.entry.subject)
        (normalize_did (or_default v.entry.value.controller 0)) v.entry.value r

  abbrev pub lifecycle_step :
      ℕ → VerifiedLedgerEntry DeviceValue → DeviceRegistry → Option DeviceRegistry
  lifecycle_step controller v r =
      if not (is_proof_op v.entry.value.op)
      then some (plain_step v r)
      else if is_clock_raise v.entry.value
      then some (raise_clock controller (or_default v.entry.value.time 0) r)
      else lifecycle_apply controller v r

  unfoldable pub registry_apply :
      Option ℕ → VerifiedLedgerEntry DeviceValue → DeviceRegistry → Option DeviceRegistry
  unfolding plain_apply
  registry_apply none v r = some (plain_step v r)
  registry_apply (some controller) v r = lifecycle_step (normalize_did controller) v r

-- `denySetOf`, as its membership test.
abbrev pub is_denied_record : Option DeviceRecord → Bool
is_denied_record none = false
is_denied_record (some d) = not (is_active d.status)

unfoldable pub is_denied : ℕ → DeviceRegistry → Bool
is_denied did r = is_denied_record (Map.get did r.devices)

abbrev pub authority_in : ℕ → Option DeviceRecord → ℕ
authority_in did none = did
authority_in did (some d) = if is_active d.status then d.controller else did

-- `authority`, of a normalized DID.
unfoldable pub authority : ℕ → DeviceRegistry → ℕ
authority did r = authority_in did (Map.get did r.devices)

unfoldable pub controller_of : ℕ → DeviceRegistry → Option ℕ
controller_of did r = elim (Map.get did r.devices) [ none ↦ none | some d ↦ some d.controller ]
