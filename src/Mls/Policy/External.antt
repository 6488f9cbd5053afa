-- ===== src/Mls/Policy/External.antt =====
-- packages/mls/src/policy.ts: the only shape of an accepted external commit.
use kumiai.Shared.{
  ℕ, ◌≡◌, refl, ap, ◌⊎◌, inl, inr, Bool, true, false, Option, none, some, List, [], ◌∷◌, ◌==◌,
  arith, length, Bool-cases,
}
use kumiai.Mls.Policy.{
  commit, is_external_init, in_roster, any_proposal, judge_scan, removes, CommitPolicyContext,
  external_init, accept, Proposal, same_did, default_commit_policy, decide_by, ProposalWithSender,
  scan_external, evaluate_external,
}

-- One external init and one removal of the leaf, in either order.
abbrev pub IsRejoin : ℕ → List Proposal → Type 0
IsRejoin leaf qs =
    (qs ≡ external_init ∷ removes leaf ∷ []) ⊎ (qs ≡ removes leaf ∷ external_init ∷ [])

abbrev pub proposals_of : List ProposalWithSender → List Proposal
proposals_of [] = []
proposals_of (p ∷ ps) = p.proposal ∷ proposals_of ps

same_did_sound : (o : Option ℕ) (did : ℕ) → same_did o did ≡ true → o ≡ some did
same_did_sound none did h = cc
same_did_sound (some d) did h = ap some (ground (arith, h))

decide_by-accept : (b : Bool) → decide_by b ≡ accept → b ≡ true
decide_by-accept true h = refl
decide_by-accept false h = cc

module _ (normalize_did : ℕ → ℕ) (is_lifecycle_anchor : List ℕ → Bool) where
  judged_pair :
      (a b : Proposal) (m n : Option ℕ) (did : ℕ) (c : CommitPolicyContext)
      → judge_scan normalize_did is_lifecycle_anchor
          (scan_external normalize_did is_lifecycle_anchor
            (record { proposal = a; sender_leaf_index = m }
              ∷ record { proposal = b; sender_leaf_index = n }
              ∷ [])
            false
            none)
          did
          c
        ≡ accept
      → (leaf : ℕ) × (c.did_of_leaf leaf ≡ some did) × IsRejoin leaf (a ∷ b ∷ [])
  unfolding scan_external
  judged_pair external_init (removes leaf) m n did c h =
      (leaf, same_did_sound (c.did_of_leaf leaf) did (decide_by-accept _ h), inl refl)
  judged_pair (removes leaf) external_init m n did c h =
      (leaf, same_did_sound (c.did_of_leaf leaf) did (decide_by-accept _ h), inr refl)
  judged_pair external_init _ m n did c h = absurd (cc h)
  judged_pair (removes leaf) _ m n did c h = absurd (cc h)
  judged_pair _ _ m n did c h = absurd (cc h)

  judged_scan :
      (ps : List ProposalWithSender) (did : ℕ) (c : CommitPolicyContext)
      → length ps ≡ 2
      → judge_scan normalize_did is_lifecycle_anchor
          (scan_external normalize_did is_lifecycle_anchor ps false none)
          did
          c
        ≡ accept
      → (leaf : ℕ) × (c.did_of_leaf leaf ≡ some did) × IsRejoin leaf (proposals_of ps)
  judged_scan [] did c l h = absurd (omega arith)
  judged_scan (p ∷ []) did c l h = absurd (omega arith)
  judged_scan (p ∷ q ∷ r ∷ ps) did c l h = absurd (omega arith)
  judged_scan (p ∷ q ∷ []) did c l h =
      judged_pair p.proposal q.proposal p.sender_leaf_index q.sender_leaf_index did c h

  judged_external :
      (o : Option ℕ) (ps : List ProposalWithSender) (c : CommitPolicyContext)
      → evaluate_external normalize_did is_lifecycle_anchor o ps c ≡ accept
      → (did : ℕ) × (o ≡ some did)
        × (in_roster (normalize_did did) c.base_roster ≡ true)
        × ((leaf : ℕ) × (c.did_of_leaf leaf ≡ some did) × IsRejoin leaf (proposals_of ps))
  unfolding evaluate_external
  judged_external none ps c h = absurd (cc h)
  judged_external (some did) ps c h =
      elim (Bool-cases (in_roster (normalize_did did) c.base_roster)) [
        | inr e ↦ absurd (ground (arith, e, h))
        | inl e ↦ elim (Bool-cases (length ps == 2)) [
          | inr f ↦ absurd (ground (arith, e, f, h))
          | inl f ↦
              (did, refl, e, judged_scan ps did c (ground (arith, f)) (ground (arith, e, f, h)))
        ]
      ]

  -- An accepted commit with an external init is a rejoin, and nothing else: its credential's DID
  -- has a role in the roster before the commit, and it has exactly two proposals, the external
  -- init and the removal of a leaf of that same DID.
  pub external_commit-IsRejoin :
      (ps : List ProposalWithSender) (committer : Option ℕ) (c : CommitPolicyContext)
      → any_proposal is_external_init ps ≡ true
      → default_commit_policy normalize_did is_lifecycle_anchor (commit committer ps) c ≡ accept
      → (did : ℕ) × (c.external_commit_did ≡ some did)
        × (in_roster (normalize_did did) c.base_roster ≡ true)
        × ((leaf : ℕ) × (c.did_of_leaf leaf ≡ some did) × IsRejoin leaf (proposals_of ps))
  unfolding default_commit_policy
  external_commit-IsRejoin ps committer c external h =
      judged_external c.external_commit_did ps c (ground (arith, external, h))
