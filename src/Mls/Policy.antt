-- ===== src/Mls/Policy.antt =====
-- packages/mls/src/policy.ts: the receiving side's decision on a commit or a standalone proposal.
-- DIDs and leaf indices are numbers. `normalize_did` is the token library's `normalizeDID`;
-- `is_lifecycle_anchor` stands for `decodeGroupAnchor(data)?.controller != null`, the JSON wire
-- decoding of packages/mls/src/anchor.ts; an `add` carries the DID that `didFromCredential` reads.
pub mod Admission
pub mod Context
pub mod External
use kumiai.Mls.Extensions.{
  reserved_extension_type, group_anchor_extension_type, same_extensions, strip_reserved, has_type,
  Extension, find_data, expected_extensions,
}
use kumiai.Shared.{
  ℕ, zero, suc, ◌+◌, ◌≡◌, refl, Bool, true, false, not, ◌&&◌, ◌||◌, Option, none, some, List, [],
  ◌∷◌, ◌++◌, ◌==◌, ltb, if◌then◌else◌, or_default, is_some, length,
}
use kumiai.Shared.Map
use kumiai.Shared.Map.{Map}
use kumiai.Mls.Roster.{RosterState, holds_admin}

pub data Action : Type 0 where
  accept reject : Action

pub data DeviceOp : Type 0 where
  register add revoke label beacon reset clock log seed : DeviceOp

pub record DeviceEntry : Type 0 where
  pub subject : ℕ
  pub op : DeviceOp

pub data Proposal : Type 0 where
  adds : Option ℕ → Proposal
  removes : ℕ → Proposal
  updates psk reinit external_init custom : Proposal
  group_context_extensions : List Extension → Proposal

pub record ProposalWithSender : Type 0 where
  pub proposal : Proposal
  pub sender_leaf_index : Option ℕ

pub data IncomingMessage : Type 0 where
  commit : Option ℕ → List ProposalWithSender → IncomingMessage
  standalone : ProposalWithSender → IncomingMessage

pub record CommitPolicyContext : Type 0 where
  pub base_roster : RosterState
  pub candidate_roster : RosterState
  pub did_of_leaf : ℕ → Option ℕ
  pub controller_of : ℕ → Option ℕ
  pub current_extensions : List Extension
  pub expected_head_extension_data : List ℕ
  pub commit_enacts_entries : Bool
  pub enacted_device_entries : List DeviceEntry
  pub enacts_only_device_entries : Bool
  pub external_commit_did : Option ℕ

abbrev pub decide_by : Bool → Action
decide_by true = accept
decide_by false = reject

abbrev pub op_code : DeviceOp → ℕ
op_code register = 0
op_code add = 1
op_code revoke = 2
op_code label = 3
op_code beacon = 4
op_code reset = 5
op_code clock = 6
op_code log = 7
op_code seed = 8

-- `e.op === op`.
abbrev pub same_op : DeviceOp → DeviceOp → Bool
same_op a b = op_code a == op_code b

-- Some enacted device entry has this operation and subject.
abbrev pub any_device : DeviceOp → ℕ → List DeviceEntry → Bool
any_device op did [] = false
any_device op did (e ∷ es) = (same_op e.op op && (e.subject == did)) || any_device op did es

abbrev pub is_context_extensions : Proposal → Bool
is_context_extensions (group_context_extensions es) = true
is_context_extensions _ = false

abbrev pub is_external_init : Proposal → Bool
is_external_init external_init = true
is_external_init _ = false

unfoldable pub any_proposal : (Proposal → Bool) → List ProposalWithSender → Bool
any_proposal test [] = false
any_proposal test (p ∷ ps) = test p.proposal || any_proposal test ps

abbrev pub effective_sender : Option ℕ → Option ℕ → Option ℕ
effective_sender none committer = committer
effective_sender (some leaf) committer = some leaf

abbrev pub same_leaf : Option ℕ → ℕ → Bool
same_leaf none leaf = false
same_leaf (some sender) leaf = leaf == sender

abbrev pub in_roster : ℕ → RosterState → Bool
in_roster did r = Map.member did r.roles

abbrev pub same_did : Option ℕ → ℕ → Bool
same_did none did = false
same_did (some d) did = d == did

module _ (normalize_did : ℕ → ℕ) (is_lifecycle_anchor : List ℕ → Bool) where
  -- `isAdmin`: the authority of the leaf, `controllerOf(did) ?? did`, is admin in the base roster.
  unfoldable pub did_is_admin : CommitPolicyContext → Option ℕ → Bool
  did_is_admin c none = false
  did_is_admin c (some did) =
      holds_admin (or_default (c.controller_of (normalize_did did)) (normalize_did did))
        c.base_roster

  unfoldable pub is_admin_leaf : CommitPolicyContext → Option ℕ → Bool
  unfolding did_is_admin
  is_admin_leaf c none = false
  is_admin_leaf c (some leaf) = did_is_admin c (c.did_of_leaf leaf)

  abbrev pub lifecycle_data : Option (List ℕ) → Bool
  lifecycle_data none = false
  lifecycle_data (some bytes) = is_lifecycle_anchor bytes

  unfoldable pub may_install_reserved : List Extension → List Extension → Bool
  unfolding find_data has_type
  may_install_reserved extensions expected =
      not (lifecycle_data (find_data group_anchor_extension_type expected))
      && (not (has_type reserved_extension_type expected)
          && (length extensions == length expected + 1))

  unfoldable pub evaluate_group_context_extensions : List Extension → CommitPolicyContext → Action
  unfolding expected_extensions may_install_reserved strip_reserved same_extensions
  evaluate_group_context_extensions extensions c =
      let expected = expected_extensions c.expected_head_extension_data c.current_extensions in
      let candidate =
        if may_install_reserved extensions expected
        then strip_reserved extensions
        else extensions in
      decide_by (same_extensions candidate expected)

  unfoldable pub evaluate_add : Option ℕ → Option ℕ → CommitPolicyContext → Action
  unfolding is_admin_leaf
  evaluate_add none sender c = reject
  evaluate_add (some did) sender c =
      if is_admin_leaf c sender && in_roster did c.candidate_roster
      then accept
      else decide_by (any_device add (normalize_did did) c.enacted_device_entries)

  abbrev pub still_admin : Option ℕ → CommitPolicyContext → Bool
  still_admin none c = false
  still_admin (some did) c = holds_admin (normalize_did did) c.candidate_roster

  abbrev pub is_revoked : Option ℕ → CommitPolicyContext → Bool
  is_revoked none c = false
  is_revoked (some did) c = any_device revoke (normalize_did did) c.enacted_device_entries

  unfoldable pub evaluate_remove : ℕ → Option ℕ → CommitPolicyContext → Action
  unfolding is_admin_leaf
  evaluate_remove leaf sender c =
      if still_admin (c.did_of_leaf leaf) c
      then reject
      else if is_admin_leaf c sender
      then accept
      else if same_leaf sender leaf
      then accept
      else decide_by (is_revoked (c.did_of_leaf leaf) c)

  unfoldable pub evaluate_proposal : Proposal → Option ℕ → CommitPolicyContext → Action
  unfolding evaluate_add evaluate_remove evaluate_group_context_extensions is_admin_leaf
  evaluate_proposal (adds did) sender c = evaluate_add did sender c
  evaluate_proposal psk sender c = decide_by (is_admin_leaf c sender)
  evaluate_proposal reinit sender c = decide_by (is_admin_leaf c sender)
  evaluate_proposal (removes leaf) sender c = evaluate_remove leaf sender c
  evaluate_proposal updates sender c = accept
  evaluate_proposal (group_context_extensions es) sender c =
      if is_admin_leaf c sender || c.enacts_only_device_entries
      then evaluate_group_context_extensions es c
      else reject
  evaluate_proposal external_init sender c = reject
  evaluate_proposal custom sender c = reject

  -- The loop's variables: whether an `external_init` was seen, and the last removed leaf.
  unfoldable pub scan_external :
      List ProposalWithSender → Bool → Option ℕ → Option (Bool × Option ℕ)
  scan_external [] saw target = some (saw, target)
  scan_external (p ∷ ps) saw target = elim p.proposal [
    | external_init ↦ scan_external ps true target
    | removes leaf ↦ scan_external ps saw (some leaf)
    | _ ↦ none
  ]

  abbrev pub judge_scan : Option (Bool × Option ℕ) → ℕ → CommitPolicyContext → Action
  judge_scan none did c = reject
  judge_scan (some (false, target)) did c = reject
  judge_scan (some (true, none)) did c = reject
  judge_scan (some (true, some leaf)) did c = decide_by (same_did (c.did_of_leaf leaf) did)

  unfoldable pub evaluate_external :
      Option ℕ → List ProposalWithSender → CommitPolicyContext → Action
  unfolding scan_external
  evaluate_external none ps c = reject
  evaluate_external (some did) ps c =
      if not (in_roster (normalize_did did) c.base_roster)
      then reject
      else if not (length ps == 2)
      then reject
      else judge_scan (scan_external ps false none) did c

  unfoldable pub evaluate_all : List ProposalWithSender → Option ℕ → CommitPolicyContext → Action
  unfolding evaluate_proposal
  evaluate_all [] committer c = accept
  evaluate_all (p ∷ ps) committer c =
      let rest = evaluate_all ps committer c in
      elim (evaluate_proposal p.proposal (effective_sender p.sender_leaf_index committer) c) [
        | accept ↦ rest
        | reject ↦ reject
      ]

  unfoldable pub default_commit_policy : IncomingMessage → CommitPolicyContext → Action
  unfolding any_proposal evaluate_external evaluate_all evaluate_proposal
  default_commit_policy (standalone p) c = evaluate_proposal p.proposal p.sender_leaf_index c
  default_commit_policy (commit committer ps) c =
      if c.commit_enacts_entries && not (any_proposal is_context_extensions ps)
      then reject
      else if any_proposal is_external_init ps
      then evaluate_external c.external_commit_did ps c
      else evaluate_all ps committer c
