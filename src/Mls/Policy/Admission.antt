-- ===== src/Mls/Policy/Admission.antt =====
-- packages/mls/src/policy.ts: what an accepted commit cannot contain.
use kumiai.Shared.{
  ap, ℕ, ◌≡◌, refl, ◌⊎◌, inl, inr, Bool, true, false, Option, none, some, List, [], ◌∷◌, All, arith,
}
use kumiai.Mls.Extensions.{data_equal, Extension, same_extensions, bytes_equal}
use kumiai.Mls.Policy.{
  custom, external_init, reinit, psk, updates, group_context_extensions, adds, holds_admin, removes,
  Action, accept, reject, Proposal, ProposalWithSender, commit, CommitPolicyContext,
  default_commit_policy, evaluate_all, evaluate_proposal, any_proposal, is_external_init,
  is_admin_leaf, effective_sender,
}

pub bytes_equal_sound : (xs ys : List ℕ) → bytes_equal xs ys ≡ true → xs ≡ ys
unfolding bytes_equal
bytes_equal_sound [] [] h = refl
bytes_equal_sound [] (y ∷ ys) h = cc
bytes_equal_sound (x ∷ xs) [] h = cc
bytes_equal_sound (x ∷ xs) (y ∷ ys) h = ground (arith, h, bytes_equal_sound xs ys)

data_equal_sound : (a b : Option (List ℕ)) → data_equal a b ≡ true → a ≡ b
data_equal_sound none b h = cc
data_equal_sound (some a) none h = cc
data_equal_sound (some a) (some b) h = ap some (bytes_equal_sound a b h)

pub same_extensions_sound : (xs ys : List Extension) → same_extensions xs ys ≡ true → xs ≡ ys
unfolding same_extensions
same_extensions_sound [] [] h = refl
same_extensions_sound [] (y ∷ ys) h = cc
same_extensions_sound (x ∷ xs) [] h = cc
same_extensions_sound (x ∷ xs) (y ∷ ys) h =
    ground
      (arith, h, data_equal_sound x.extension_data y.extension_data, same_extensions_sound xs ys)

pub Action-cases : (a : Action) → (a ≡ accept) ⊎ (a ≡ reject)
Action-cases accept = inl refl
Action-cases reject = inr refl

pub All-map {ℓ κ μ} :
    {A : Type ℓ} {P : A → Type κ} {Q : A → Type μ}
    → ((a : A) → P a → Q a)
    → (xs : List A) → All P xs
    → All Q xs
All-map f [] h = tt
All-map f (x ∷ xs) (p, h) = (f x p, All-map f xs h)

module _ (normalize_did : ℕ → ℕ) (is_lifecycle_anchor : List ℕ → Bool) where
  -- The proposal passes its own row, for its effective sender.
  abbrev pub Passes : Option ℕ → CommitPolicyContext → ProposalWithSender → Type 0
  Passes committer c p =
      evaluate_proposal normalize_did is_lifecycle_anchor p.proposal
        (effective_sender p.sender_leaf_index committer) c
      ≡ accept

  evaluate_all-accept :
      (ps : List ProposalWithSender) (committer : Option ℕ) (c : CommitPolicyContext)
      → evaluate_all normalize_did is_lifecycle_anchor ps committer c ≡ accept
      → All (Passes committer c) ps
  unfolding evaluate_all
  evaluate_all-accept [] committer c h = tt
  evaluate_all-accept (p ∷ ps) committer c h =
      elim (Action-cases (
        evaluate_proposal normalize_did is_lifecycle_anchor p.proposal
          (effective_sender p.sender_leaf_index committer) c)) [
            | inl e ↦ (e, evaluate_all-accept ps committer c (ground (arith, e, h)))
            | inr e ↦ absurd (ground (arith, e, h))
          ]

  -- A commit with no external init is judged proposal by proposal.
  pub accepted_commit :
      (ps : List ProposalWithSender) (committer : Option ℕ) (c : CommitPolicyContext)
      → any_proposal is_external_init ps ≡ false
      → default_commit_policy normalize_did is_lifecycle_anchor (commit committer ps) c ≡ accept
      → All (Passes committer c) ps
  unfolding default_commit_policy
  accepted_commit ps committer c internal h =
      evaluate_all-accept ps committer c (ground (arith, internal, h))

  passed_remove :
      (leaf did : ℕ) (sender : Option ℕ) (c : CommitPolicyContext)
      → c.did_of_leaf leaf ≡ some did
      → evaluate_proposal normalize_did is_lifecycle_anchor (removes leaf) sender c ≡ accept
      → holds_admin (normalize_did did) c.candidate_roster ≡ false
  unfolding evaluate_proposal
  passed_remove leaf did sender c d h = ground (arith, d, h)

  -- In an accepted commit with no external init, a removed leaf is no admin of the roster that the
  -- commit leaves.
  pub removed_admin_is_demoted :
      (ps : List ProposalWithSender) (committer : Option ℕ) (c : CommitPolicyContext)
      → any_proposal is_external_init ps ≡ false
      → default_commit_policy normalize_did is_lifecycle_anchor (commit committer ps) c ≡ accept
      → All
          (λ p.
            (leaf did : ℕ)
            → p.proposal ≡ removes leaf
            → c.did_of_leaf leaf ≡ some did
            → holds_admin (normalize_did did) c.candidate_roster ≡ false)
          ps
  removed_admin_is_demoted ps committer c internal h =
      All-map
        (λ p a leaf did r d.
          passed_remove leaf did (effective_sender p.sender_leaf_index committer) c d (rw r at a))
        ps (accepted_commit ps committer c internal h)

  -- What an accepted proposal of a sender without authority may be.
  abbrev pub IsOwn : Option ℕ → Proposal → Type 0
  IsOwn sender updates = Unit
  IsOwn sender (removes leaf) = sender ≡ some leaf
  IsOwn sender (group_context_extensions es) = ⊥
  IsOwn sender (adds did) = ⊥
  IsOwn sender psk = ⊥
  IsOwn sender reinit = ⊥
  IsOwn sender external_init = ⊥
  IsOwn sender custom = ⊥

  passed-IsOwn :
      (q : Proposal) (sender : Option ℕ) (c : CommitPolicyContext)
      → is_admin_leaf normalize_did is_lifecycle_anchor c sender ≡ false
      → c.enacted_device_entries ≡ []
      → c.enacts_only_device_entries ≡ false
      → evaluate_proposal normalize_did is_lifecycle_anchor q sender c ≡ accept
      → IsOwn sender q
  passed-IsOwn updates sender c plain quiet only h = tt
  passed-IsOwn (removes leaf) sender c plain quiet only h =
      unfold evaluate_proposal in ground (arith, plain, quiet, only, h)
  passed-IsOwn (adds did) sender c plain quiet only h =
      unfold evaluate_proposal in ground (arith, plain, quiet, only, h)
  passed-IsOwn _ sender c plain quiet only h =
      unfold evaluate_proposal in ground (arith, plain, quiet, only, h)

  -- In an accepted commit that enacts no device entry, with no external init, a proposal whose
  -- effective sender is no admin of the roster before the commit is an update, or removes the
  -- sender's own leaf.
  pub members_act_for_themselves :
      (ps : List ProposalWithSender) (committer : Option ℕ) (c : CommitPolicyContext)
      → any_proposal is_external_init ps ≡ false
      → c.enacted_device_entries ≡ []
      → c.enacts_only_device_entries ≡ false
      → default_commit_policy normalize_did is_lifecycle_anchor (commit committer ps) c ≡ accept
      → All
          (λ p.
            is_admin_leaf normalize_did is_lifecycle_anchor c
                (effective_sender p.sender_leaf_index committer)
              ≡ false
            → IsOwn (effective_sender p.sender_leaf_index committer) p.proposal)
          ps
  members_act_for_themselves ps committer c internal quiet only h =
      All-map
        (λ p a plain.
          passed-IsOwn p.proposal (effective_sender p.sender_leaf_index committer) c plain quiet
            only a)
        ps (accepted_commit ps committer c internal h)
