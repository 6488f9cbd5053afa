-- ===== src/Mls/Device.antt =====
-- packages/mls/src/registry.ts: the values of `kumiai.device` entries and their structural guards.
-- A value is typed here, so of `isDeviceValue` remains what it says of the fields that are present.
use kumiai.Mls.Policy.{DeviceOp, register, add, revoke, beacon, reset, clock, log, seed, same_op}
use kumiai.Shared.{ℕ, Bool, false, not, ◌&&◌, ◌||◌, Option, List, if◌then◌else◌, is_some}

pub record DeviceValue : Type 0 where
  pub op : DeviceOp
  pub controller : Option ℕ
  pub label : Option ℕ
  pub capability : Option ℕ
  pub proof : Option ℕ
  pub effects : Option (List ℕ)
  pub removed : Option (List ℕ)
  pub survivors : Option (List ℕ)
  pub revoked_effects : Option (List ℕ)
  pub time : Option ℕ
  pub attest : Bool
  pub log_length : Option ℕ
  pub head_digest : Option ℕ

abbrev pub is_log_op : DeviceOp → Bool
is_log_op op = same_op op log || same_op op seed

abbrev pub has_effects : DeviceValue → Bool
has_effects v =
    is_some v.revoked_effects || (is_some v.effects || (is_some v.removed || is_some v.survivors))

abbrev pub bears_proof : DeviceValue → Bool
bears_proof v = is_log_op v.op || (same_op v.op reset || (same_op v.op revoke && is_some v.proof))

-- A log-bearing value has a proof and nothing that it proves.
abbrev pub is_log_value : DeviceValue → Bool
is_log_value v = is_some v.proof && (not (has_effects v) && not (is_some v.capability))

-- A value with a proof lists what it revokes, its effects and what it removes.
abbrev pub is_proof_value : DeviceValue → Bool
is_proof_value v =
    is_some v.proof && (is_some v.revoked_effects && (is_some v.effects && is_some v.removed))

unfoldable pub is_device_value : DeviceValue → Bool
is_device_value v =
    if not (bears_proof v) && (is_some v.proof || has_effects v)
    then false
    else if is_log_op v.op && not (is_log_value v)
    then false
    else if (same_op v.op register || same_op v.op add) && not (is_some v.controller)
    then false
    else if same_op v.op beacon && not (is_some v.log_length && is_some v.head_digest)
    then false
    else if same_op v.op clock && not (is_some v.time)
    then false
    else if v.attest && not (same_op v.op clock)
    then false
    else is_log_op v.op || (not (same_op v.op reset || is_some v.proof) || is_proof_value v)

-- The operations of a group with a lifecycle controller.
unfoldable pub is_lifecycle_device_value : DeviceValue → Bool
unfolding is_device_value
is_lifecycle_device_value v =
    is_device_value v
    && (same_op v.op beacon
        || (same_op v.op clock
            || (is_log_op v.op
                || ((same_op v.op revoke || same_op v.op reset)
                    && (is_some v.proof
                        && (is_some v.revoked_effects && not (is_some v.capability)))))))
