-- ===== src/Mls/ControlTests.antt =====
-- Runs of the control ledger's folds, packages/mls/src/registry.ts and envelope-fold.ts, on concrete
-- entries. DIDs stand for themselves, and no lifecycle proof applies.
use kumiai.Mls.Control.Revoked.{revoked_is_terminal}
use kumiai.Mls.Registry.Terminal.{IsBarred}
use kumiai.Mls.Envelope.Agreement.{fold_envelope_refines}
use kumiai.Mls.Control.Replay.{fold_control-admins}
use kumiai.Mls.Device.{DeviceValue}
use kumiai.Mls.Envelope.{accepted, envelope_entry, fold_envelope_from, Folded}
use kumiai.Mls.Registry.{authority, active, is_denied, DeviceRegistry, revoked, is_reset_only}
use kumiai.Mls.Roster.{role_entry_type, count_admins, holds_admin, member, admin, admin_count}
use kumiai.Mls.Policy.{register, DeviceOp}
use kumiai.Mls.Control.{
  other, role, unrelated, would_empty, device, device_entry_type, judge_control, fold_control_from,
  ControlState, ControlValue, fold_control,
}
use kumiai.Mls.Fold.{GroupAnchor, FoldInput, VerifiedLedgerEntry}
use Prim.Native.String.{String}
use kumiai.Shared.{ℕ, ◌<◌, ◌≡◌, refl, true, false, Option, none, some, List, [], ◌∷◌}
use kumiai.Shared.Map
use kumiai.Shared.Map.{Map, get-set, get-delete, get-empty}

abbrev same : ℕ → ℕ
same did = did

abbrev no_proof : ℕ → VerifiedLedgerEntry DeviceValue → DeviceRegistry → Option DeviceRegistry
no_proof controller v r = none

abbrev anchor : GroupAnchor
anchor = record { creator_did = 1; controller = none }

abbrev entry : ℕ → String → ℕ → ℕ → ControlValue → FoldInput ControlValue
entry id entry_type issuer subject value = record {
  verified = record {
    issuer = issuer;
    entry = record { entry_type = entry_type; group_id = 9; subject = subject; value = value };
  };
  entry_id = id;
}

abbrev device_value : DeviceOp → ℕ → DeviceValue
device_value op controller = record {
  op = op;
  controller = some controller;
  label = none;
  capability = none;
  proof = none;
  effects = none;
  removed = none;
  survivors = none;
  revoked_effects = none;
  time = none;
  attest = false;
  log_length = none;
  head_digest = none;
}

-- The device 5 is bound to the admin 1 and grants a role in its name; the admin's own demotion and
-- an entry of another type are dropped.
abbrev ledger : List (FoldInput ControlValue)
ledger =
    entry 1 device_entry_type 5 5 (device (device_value register 1))
    ∷ entry 2 role_entry_type 5 2 (role member)
    ∷ entry 3 role_entry_type 1 1 (role member)
    ∷ entry 4 "app.note" 2 2 other
    ∷ []

ledger_drops :
    (fold_control same no_proof ledger anchor 9).1 ≡ (3, would_empty) ∷ (4, unrelated) ∷ []
unfolding fold_control fold_control_from judge_control Map.get Map.set holds_admin admin_count
    count_admins
ledger_drops = refl

fold_control-admins_example : 0 < admin_count (fold_control same no_proof ledger anchor 9).0.roster
fold_control-admins_example = fold_control-admins same no_proof ledger anchor 9

abbrev barred : ControlState
barred = record {
  roster = record { roles = (1, admin) ∷ [] };
  registry = record {
    devices =
        (
          5,
          record {
            controller = 1;
            status = revoked;
            label = none;
            proof_ref = none;
            by_reset = false;
            cascaded_from = none;
          },
        )
        ∷ [];
    controllers = [];
  };
}

revoked_is_terminal_example :
    let s' = (fold_control_from same no_proof none 9 0 ledger barred).0 in
    IsBarred 5 s'.registry × (is_denied 5 s'.registry ≡ true) × (authority 5 s'.registry ≡ 5)
unfolding Map.get is_reset_only
revoked_is_terminal_example = revoked_is_terminal same no_proof 5 9 0 ledger barred refl

abbrev base : Folded
base = record {
  state = record {
    roster = record { roles = (1, admin) ∷ [] };
    registry = record { devices = []; controllers = [] };
  };
  surfaced = [];
}

abbrev envelope : List (FoldInput ControlValue)
envelope =
    entry 1 device_entry_type 5 5 (device (device_value register 1))
    ∷ entry 2 role_entry_type 5 2 (role member)
    ∷ []

abbrev after_envelope : Folded
after_envelope = record {
  state = record {
    roster = record { roles = (1, admin) ∷ (2, member) ∷ [] };
    registry = record {
      devices =
          (
            5,
            record {
              controller = 1;
              status = active;
              label = none;
              proof_ref = none;
              by_reset = false;
              cascaded_from = none;
            },
          )
          ∷ [];
      controllers = [];
    };
  };
  surfaced = [];
}

envelope_run : fold_envelope_from same no_proof none 9 envelope base ≡ accepted after_envelope
unfolding fold_envelope_from envelope_entry Map.get Map.set holds_admin admin_count count_admins
envelope_run = refl

fold_envelope_refines_example :
    (fold_control_from same no_proof none 9 3 envelope base.state).0 ≡ after_envelope.state
fold_envelope_refines_example =
    fold_envelope_refines same no_proof 9 3 envelope base after_envelope envelope_run
