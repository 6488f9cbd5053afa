-- ===== src/Mls/Tests.antt =====
-- Runs of packages/mls/src/roster.ts and policy.ts on concrete groups. DIDs stand for themselves
-- (`normalizeDID` is the identity), and an anchor with bytes is a lifecycle anchor.
use kumiai.Mls.Policy.Context.{context_change-IsExpected, IsExpected}
use kumiai.Mls.Policy.External.{external_commit-IsRejoin, proposals_of, IsRejoin}
use kumiai.Mls.Extensions.{ledger_head_extension_type, Extension}
use kumiai.Shared.{
  ℕ, zero, suc, ◌+◌, ◌<◌, ◌≡◌, refl, ◌⊎◌, ◌↔◌, inr, Bool, true, false, Option, none, some, List, [],
  ◌∷◌, arith, All, length,
}
use kumiai.Shared.Map
use kumiai.Shared.Map.{Map, get-set, get-delete, get-empty}
use kumiai.Mls.Head.{
  frame_id, genesis_head, sha256_length, encode_ledger_head, extend_head, ledger_head_version,
  decode_ledger_head, compute_head,
}
use kumiai.Mls.Head.Binding.{
  decode_ledger_head-encode_ledger_head, compute_head_binds, DomainDigest, Collision,
}
use kumiai.Mls.Policy.Admission.{members_act_for_themselves, IsOwn, removed_admin_is_demoted}
use kumiai.Mls.Roster.Authority.{fold_roster-admin_count, outsiders_change_nothing}
use kumiai.Mls.Policy.{
  group_context_extensions, in_roster, external_init, default_commit_policy, any_proposal, updates,
  effective_sender, ProposalWithSender, is_admin_leaf, CommitPolicyContext, removes,
}
use kumiai.Mls.Roster.{
  member, role_entry_type, holds_admin, admin, fold_roster, GroupPermission, admin_count,
}
use kumiai.Mls.Fold.{FoldInput, GroupAnchor}

abbrev same : ℕ → ℕ
same did = did

abbrev non_empty : List ℕ → Bool
non_empty [] = false
non_empty (b ∷ bs) = true

abbrev anchor : GroupAnchor
anchor = record { creator_did = 1; controller = none }

abbrev grant : ℕ → ℕ → ℕ → GroupPermission → FoldInput GroupPermission
grant id issuer subject value = record {
  verified = record {
    issuer = issuer;
    entry = record { entry_type = role_entry_type; group_id = 9; subject = subject; value = value };
  };
  entry_id = id;
}

fold_roster-admin_count_example :
    0
    < admin_count
        (fold_roster same
          (grant 1 1 2 admin ∷ grant 2 2 1 member ∷ grant 3 2 2 member ∷ [])
          anchor
          9).0
fold_roster-admin_count_example =
    fold_roster-admin_count same (grant 1 1 2 admin ∷ grant 2 2 1 member ∷ grant 3 2 2 member ∷ [])
      anchor 9

outsiders_change_nothing_example :
    (fold_roster same (grant 1 2 2 admin ∷ grant 2 3 2 admin ∷ []) anchor 9).0
    ≡ record { roles = (1, admin) ∷ [] }
outsiders_change_nothing_example =
    outsiders_change_nothing same (grant 1 2 2 admin ∷ grant 2 3 2 admin ∷ []) anchor 9
      (inr (omega arith), (inr (omega arith), tt))

abbrev did_at : ℕ → Option ℕ
did_at leaf = some (leaf + 1)

-- Leaf 0 is the admin 1; leaves 1 and 2 are the members 2 and 3.
abbrev context : CommitPolicyContext
context = record {
  base_roster = record { roles = (1, admin) ∷ (2, member) ∷ [] };
  candidate_roster = record { roles = (1, admin) ∷ (2, member) ∷ [] };
  did_of_leaf = did_at;
  controller_of = λ did. none;
  current_extensions = [];
  expected_head_extension_data = [];
  commit_enacts_entries = false;
  enacted_device_entries = [];
  enacts_only_device_entries = false;
  external_commit_did = none;
}

abbrev removal : List ProposalWithSender
removal =
    record { proposal = removes 1; sender_leaf_index = none }
    ∷ record { proposal = updates; sender_leaf_index = some 2 }
    ∷ []

removed_admin_is_demoted_example :
    All
      (λ p.
        (leaf did : ℕ)
        → p.proposal ≡ removes leaf
        → context.did_of_leaf leaf ≡ some did
        → holds_admin (same did) context.candidate_roster ≡ false)
      removal
unfolding default_commit_policy any_proposal holds_admin Map.get
removed_admin_is_demoted_example =
    removed_admin_is_demoted same non_empty removal (some 0) context refl refl

members_act_for_themselves_example :
    All
      (λ p.
        is_admin_leaf same non_empty context (effective_sender p.sender_leaf_index (some 0)) ≡ false
        → IsOwn same non_empty (effective_sender p.sender_leaf_index (some 0)) p.proposal)
      removal
unfolding default_commit_policy any_proposal holds_admin Map.get
members_act_for_themselves_example =
    members_act_for_themselves same non_empty removal (some 0) context refl refl refl refl

-- A stand-in for the hash: 32 bytes, whatever the input.
abbrev pad : ℕ → List ℕ → List ℕ
pad zero bytes = []
pad (suc n) [] = 0 ∷ pad n []
pad (suc n) (b ∷ bytes) = b ∷ pad n bytes

length-pad : (n : ℕ) (bytes : List ℕ) → length (pad n bytes) ≡ n
length-pad zero bytes = omega arith
length-pad (suc n) [] = omega (arith, length-pad n [])
length-pad (suc n) (b ∷ bytes) = omega (arith, length-pad n bytes)

abbrev group_bytes : List ℕ
group_bytes = 9 ∷ []

abbrev one_entry : List (List ℕ)
one_entry = (1 ∷ []) ∷ []

abbrev two_entries : List (List ℕ)
two_entries = (1 ∷ []) ∷ (2 ∷ []) ∷ []

-- The stand-in drops what lies beyond 32 bytes, so a longer ledger has the same head.
compute_head_binds_example :
    ((group_bytes ≡ group_bytes) × (one_entry ≡ two_entries))
    ⊎ (Collision (pad 32) ⊎ DomainDigest (pad 32))
unfolding compute_head extend_head genesis_head frame_id
compute_head_binds_example =
    compute_head_binds (pad 32) (length-pad 32) group_bytes group_bytes one_entry two_entries refl

decode_ledger_head-encode_ledger_head_example :
    (decode_ledger_head (1 ∷ pad 32 (7 ∷ []))
      ≡ some (record { v = ledger_head_version; head = pad 32 (7 ∷ []) }))
    ↔ (((1 ∷ pad 32 (7 ∷ [])) ≡ encode_ledger_head (pad 32 (7 ∷ [])))
        × (length (pad 32 (7 ∷ [])) ≡ sha256_length))
decode_ledger_head-encode_ledger_head_example =
    decode_ledger_head-encode_ledger_head (1 ∷ pad 32 (7 ∷ [])) (pad 32 (7 ∷ []))

abbrev rejoin_context : CommitPolicyContext
rejoin_context = record context { external_commit_did = some 2 }

abbrev rejoin : List ProposalWithSender
rejoin =
    record { proposal = external_init; sender_leaf_index = none }
    ∷ record { proposal = removes 1; sender_leaf_index = none }
    ∷ []

external_commit-IsRejoin_example :
    (did : ℕ) × (some 2 ≡ some did)
    × (in_roster (same did) rejoin_context.base_roster ≡ true)
    × ((leaf : ℕ) × (did_at leaf ≡ some did) × IsRejoin leaf (proposals_of rejoin))
unfolding default_commit_policy any_proposal Map.get
external_commit-IsRejoin_example =
    external_commit-IsRejoin same non_empty rejoin none rejoin_context refl refl

abbrev head_at : ℕ → Extension
head_at n = record { extension_type = ledger_head_extension_type; extension_data = some (n ∷ []) }

abbrev head_context : CommitPolicyContext
head_context = record context {
  current_extensions = head_at 1 ∷ [];
  expected_head_extension_data = 2 ∷ [];
}

abbrev head_move : List ProposalWithSender
head_move =
    record { proposal = group_context_extensions (head_at 2 ∷ []); sender_leaf_index = none } ∷ []

context_change-IsExpected_example :
    All
      (λ p.
        (es : List Extension)
        → p.proposal ≡ group_context_extensions es
        → IsExpected es head_context)
      head_move
unfolding default_commit_policy any_proposal holds_admin Map.get
context_change-IsExpected_example =
    context_change-IsExpected same non_empty head_move (some 0) head_context refl refl
