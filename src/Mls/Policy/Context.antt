-- ===== src/Mls/Policy/Context.antt =====
-- packages/mls/src/policy.ts: what an accepted commit may write into the GroupContext.
use kumiai.Mls.Policy.Admission.{accepted_commit, All-map, same_extensions_sound}
use kumiai.Shared.{
  ℕ, ◌+◌, ◌≡◌, ◌⊎◌, inl, inr, Bool, false, ◌||◌, Option, List, arith, All, length, Bool-cases,
}
use kumiai.Mls.Policy.{
  effective_sender, commit, default_commit_policy, is_external_init, is_admin_leaf, strip_reserved,
  same_extensions, accept, group_context_extensions, expected_extensions, any_proposal,
  may_install_reserved, CommitPolicyContext, decide_by, Extension,
  evaluate_group_context_extensions, ProposalWithSender, evaluate_proposal,
}

decide_by-same_extensions :
    (xs ys : List Extension) → decide_by (same_extensions xs ys) ≡ accept → xs ≡ ys
decide_by-same_extensions xs ys h = elim (Bool-cases (same_extensions xs ys)) [
  | inl e ↦ same_extensions_sound xs ys e
  | inr e ↦ absurd (ground (arith, e, h))
]

-- The list is the current one with the ledger head moved on, byte for byte, but for one empty
-- reserved extension that it may install.
abbrev pub IsExpected : List Extension → CommitPolicyContext → Type 0
IsExpected es c =
    (es ≡ expected_extensions c.expected_head_extension_data c.current_extensions)
    ⊎ ((length es
          ≡ length (expected_extensions c.expected_head_extension_data c.current_extensions) + 1)
        × (strip_reserved es
            ≡ expected_extensions c.expected_head_extension_data c.current_extensions))

module _ (normalize_did : ℕ → ℕ) (is_lifecycle_anchor : List ℕ → Bool) where
  evaluated_context :
      (es : List Extension) (c : CommitPolicyContext)
      → evaluate_group_context_extensions normalize_did is_lifecycle_anchor es c ≡ accept
      → IsExpected es c
  unfolding evaluate_group_context_extensions may_install_reserved
  evaluated_context es c h =
      elim (Bool-cases (
        may_install_reserved normalize_did is_lifecycle_anchor es
          (expected_extensions c.expected_head_extension_data c.current_extensions))) [
            | inl e ↦ inr (
              ground (arith, e),
              decide_by-same_extensions (strip_reserved es)
                  (expected_extensions c.expected_head_extension_data c.current_extensions)
                  (rw e at h),
            )
            | inr e ↦ inl (
                decide_by-same_extensions es
                  (expected_extensions c.expected_head_extension_data c.current_extensions)
                  (rw e at h))
          ]

  passed-IsExpected :
      (es : List Extension) (sender : Option ℕ) (c : CommitPolicyContext)
      → evaluate_proposal normalize_did is_lifecycle_anchor (group_context_extensions es) sender c
        ≡ accept
      → IsExpected es c
  unfolding evaluate_proposal
  passed-IsExpected es sender c h =
      elim (Bool-cases (
        is_admin_leaf normalize_did is_lifecycle_anchor c sender || c.enacts_only_device_entries)) [
          | inl e ↦ evaluated_context es c (rw e at h)
          | inr e ↦ absurd (cc (rw e at h))
        ]

  -- In an accepted commit with no external init, a change of the GroupContext installs the
  -- current extensions with the ledger head at the commit's expected value, byte for byte and in
  -- order, or that list with one empty reserved extension more.
  pub context_change-IsExpected :
      (ps : List ProposalWithSender) (committer : Option ℕ) (c : CommitPolicyContext)
      → any_proposal is_external_init ps ≡ false
      → default_commit_policy normalize_did is_lifecycle_anchor (commit committer ps) c ≡ accept
      → All
          (λ p. (es : List Extension) → p.proposal ≡ group_context_extensions es → IsExpected es c)
          ps
  context_change-IsExpected ps committer c internal h =
      All-map
        (λ p a es r.
          passed-IsExpected es (effective_sender p.sender_leaf_index committer) c (rw r at a))
        ps (accepted_commit normalize_did is_lifecycle_anchor ps committer c internal h)
