-- ===== src/Mls/Envelope.antt =====
-- packages/mls/src/envelope-fold.ts: the strict fold of a commit's envelope. The parameters are those
-- of Mls/Registry.antt.
pub mod Agreement
use kumiai.Mls.Policy.{reset, clock, same_op}
use kumiai.Mls.Roster.{admin_count, role_entry_type, role_reducer, holds_admin}
use kumiai.Mls.Fold.{FoldInput, VerifiedLedgerEntry}
use kumiai.Mls.Registry.{authority, registry_apply, DeviceRegistry}
use kumiai.Mls.Device.{is_lifecycle_device_value, is_device_value, DeviceValue}
use kumiai.Shared.{
  ℕ, Bool, false, not, ◌||◌, Option, none, some, List, [], ◌∷◌, ◌++◌, ◌==◌, if◌then◌else◌, is_some,
}
use text.Mathlib.Text.{◌==◌ as str_eq, starts_with}
use Prim.Native.String.{String}
use kumiai.Mls.Control.{device_entry_type, typed_entry, device, role, ControlState, ControlValue}

abbrev pub group_type_prefix : String
group_type_prefix = "kumiai."

pub record FoldEnvelopeContext : Type 0 where
  pub controller_id : ℕ
  pub member_controller : ℕ → Option ℕ

pub data EnvelopeReject : Type 0 where
  cross_group_entry malformed_device_value operation_not_allowed : EnvelopeReject
  invalid_lifecycle_proof reserved_lifecycle_type no_bound_leaf non_admin_issuer : EnvelopeReject
  invalid_role_value would_empty_admins unknown_reserved_type : EnvelopeReject

pub record Folded : Type 0 where
  pub state : ControlState
  pub surfaced : List (VerifiedLedgerEntry ControlValue)

pub data EnvelopeFoldResult : Type 0 where
  accepted : Folded → EnvelopeFoldResult
  rejected : EnvelopeReject → ℕ → EnvelopeFoldResult

-- The working state after one entry.
pub data EntryResult : Type 0 where
  continues : Folded → EntryResult
  refuses : EnvelopeReject → EntryResult

abbrev pub controller_id_of : Option FoldEnvelopeContext → Option ℕ
controller_id_of none = none
controller_id_of (some c) = some c.controller_id

abbrev pub allows_operation : Option FoldEnvelopeContext → DeviceValue → Bool
allows_operation none v = not (same_op v.op reset || (same_op v.op clock || is_some v.proof))
allows_operation (some c) v = is_lifecycle_device_value v

abbrev pub moved_to : Folded → Option DeviceRegistry → EntryResult
moved_to f none = refuses invalid_lifecycle_proof
moved_to f (some r) =
    continues
      (record { state = record { roster = f.state.roster; registry = r }; surfaced = f.surfaced })

abbrev pub surface : VerifiedLedgerEntry ControlValue → Folded → Folded
surface e f = record { state = f.state; surfaced = f.surfaced ++ e ∷ [] }

module _ (normalize_did : ℕ → ℕ)
    (lifecycle_apply : ℕ
      → VerifiedLedgerEntry DeviceValue
      → DeviceRegistry
      → Option DeviceRegistry) where
  abbrev pub envelope_device :
      Option FoldEnvelopeContext
      → VerifiedLedgerEntry ControlValue
      → ControlValue
      → Folded
      → EntryResult
  envelope_device context e (device v) f =
      if not (is_device_value v)
      then refuses malformed_device_value
      else if not (allows_operation context v)
      then refuses operation_not_allowed
      else moved_to f (
          registry_apply normalize_did lifecycle_apply (controller_id_of context) (typed_entry e v)
            f.state.registry)
  envelope_device context e _ f = refuses malformed_device_value

  -- `normalizeDID(bound) !== normalizeDID(context.controllerID)`.
  abbrev pub is_bound : Option ℕ → ℕ → Bool
  is_bound none controller = false
  is_bound (some bound) controller = normalize_did bound == normalize_did controller

  abbrev pub envelope_consumer :
      FoldEnvelopeContext → VerifiedLedgerEntry ControlValue → Folded → EntryResult
  envelope_consumer c e f =
      if starts_with e.entry.entry_type group_type_prefix
      then refuses reserved_lifecycle_type
      else if not (is_bound (c.member_controller (normalize_did e.issuer)) c.controller_id)
      then refuses no_bound_leaf
      else continues (surface e f)

  abbrev pub envelope_role : VerifiedLedgerEntry ControlValue → ControlValue → Folded → EntryResult
  envelope_role e (role p) f =
      let next = (role_reducer normalize_did).apply (typed_entry e p) f.state.roster in
      if admin_count next == 0
      then refuses would_empty_admins
      else continues (record {
        state = record { roster = next; registry = f.state.registry };
        surfaced = f.surfaced;
      })
  envelope_role e _ f = refuses invalid_role_value

  abbrev pub envelope_plain : VerifiedLedgerEntry ControlValue → Folded → EntryResult
  envelope_plain e f =
      if not (holds_admin (authority (normalize_did e.issuer) f.state.registry) f.state.roster)
      then refuses non_admin_issuer
      else if str_eq e.entry.entry_type role_entry_type
      then envelope_role e e.entry.value f
      else if starts_with e.entry.entry_type group_type_prefix
      then refuses unknown_reserved_type
      else continues (surface e f)

  abbrev pub envelope_member :
      Option FoldEnvelopeContext → VerifiedLedgerEntry ControlValue → Folded → EntryResult
  envelope_member none e f = envelope_plain e f
  envelope_member (some c) e f = envelope_consumer c e f

  unfoldable pub envelope_entry :
      Option FoldEnvelopeContext → ℕ → VerifiedLedgerEntry ControlValue → Folded → EntryResult
  unfolding is_device_value is_lifecycle_device_value registry_apply authority role_reducer
  envelope_entry context group e f =
      if not (e.entry.group_id == group)
      then refuses cross_group_entry
      else if str_eq e.entry.entry_type device_entry_type
      then envelope_device context e e.entry.value f
      else envelope_member context e f

  unfoldable pub fold_envelope_from :
      Option FoldEnvelopeContext → ℕ → List (FoldInput ControlValue) → Folded → EnvelopeFoldResult
  unfolding envelope_entry
  fold_envelope_from context group [] f = accepted f
  fold_envelope_from context group (i ∷ is) f = elim (envelope_entry context group i.verified f) [
    | refuses why ↦ rejected why i.entry_id
    | continues f' ↦ fold_envelope_from context group is f'
  ]

  unfoldable pub fold_envelope :
      ControlState
      → Option FoldEnvelopeContext
      → ℕ
      → List (FoldInput ControlValue)
      → EnvelopeFoldResult
  unfolding fold_envelope_from
  fold_envelope base context group entries =
      fold_envelope_from context group entries (record { state = base; surfaced = [] })
