-- ===== src/Mls/Roster/Authority.antt =====
-- packages/mls/src/roster.ts: the group always has an admin, and only an admin's claim for this
-- group moves the roster.
use kumiai.Shared.{
  ◌⊎◌, ℕ, ◌<◌, ◌≡◌, ◌≢◌, refl, true, false, none, List, [], ◌∷◌, ◌==◌, or_default, arith, All, inl,
  inr, Option-cases,
}
use kumiai.Shared.Map
use kumiai.Shared.Map.{Map, get-set}
use kumiai.Mls.Fold.{
  GroupAnchor, FoldInput, fold_ledger, fold_from, fold_from_induction, skip_reason,
}
use kumiai.Mls.Roster.{
  GroupPermission, admin, RosterState, admin_count, holds_admin, role_reducer, scoped_reducer,
  fold_roster,
}

module _ (normalize_did : ℕ → ℕ) (group : ℕ) where
  -- What a claim that is not skipped was checked for.
  authorized_step :
      (i : FoldInput GroupPermission) (s : RosterState)
      → skip_reason (scoped_reducer normalize_did group) i s ≡ none
      → (i.verified.entry.group_id ≡ group)
        × (holds_admin (normalize_did i.verified.issuer) s ≡ true)
        × (0 < admin_count ((scoped_reducer normalize_did group).apply i.verified s))
  unfolding skip_reason scoped_reducer
  authorized_step i s e = ground (arith, e)

  scoped_seed-admin_count :
      (anchor : GroupAnchor) → 0 < admin_count ((scoped_reducer normalize_did group).seed anchor)
  unfolding scoped_reducer admin_count
  scoped_seed-admin_count anchor = omega arith

not_first_admin :
    (did first : ℕ) → did ≢ first → holds_admin did (record { roles = (first, admin) ∷ [] }) ≡ false
unfolding holds_admin Map.get
not_first_admin did first h = ground arith

module _ (normalize_did : ℕ → ℕ) where
  -- The roster keeps an admin, whatever entries are folded.
  pub fold_roster-admin_count :
      (entries : List (FoldInput GroupPermission)) (anchor : GroupAnchor) (group : ℕ)
      → 0 < admin_count (fold_roster normalize_did entries anchor group).0
  unfolding fold_roster fold_ledger
  fold_roster-admin_count entries anchor group =
      fold_from_induction (λ s. 0 < admin_count s) (scoped_reducer normalize_did group)
        (λ i s e _. (authorized_step normalize_did group i s e).2) entries
        ((scoped_reducer normalize_did group).seed anchor)
        (scoped_seed-admin_count normalize_did group anchor)

  -- Of an entry that is no claim of an admin of this group, nothing remains.
  abbrev IsForeign : ℕ → RosterState → FoldInput GroupPermission → Type 0
  IsForeign group s i =
      ((i.verified.entry.group_id == group) ≡ false)
      ⊎ (holds_admin (normalize_did i.verified.issuer) s ≡ false)

  foreign_from :
      (group : ℕ) (entries : List (FoldInput GroupPermission)) (s : RosterState)
      → All (IsForeign group s) entries
      → (fold_from (scoped_reducer normalize_did group) entries s).0 ≡ s
  unfolding fold_from
  foreign_from group [] s h = refl
  foreign_from group (i ∷ is) s (f, h) =
      elim (Option-cases (skip_reason (scoped_reducer normalize_did group) i s)) [
        | inl e ↦ absurd (ground (arith, f, authorized_step normalize_did group i s e))
        | inr (why, e) ↦ rw e (foreign_from group is s h)
      ]

  IsForeign-entries :
      (anchor : GroupAnchor) (group : ℕ) (entries : List (FoldInput GroupPermission))
      → All
          (λ i.
            ((i.verified.entry.group_id == group) ≡ false)
            ⊎ (normalize_did i.verified.issuer
                ≢ normalize_did (or_default anchor.controller anchor.creator_did)))
          entries
      → All
          (IsForeign group (record {
            roles = (normalize_did (or_default anchor.controller anchor.creator_did), admin) ∷ [];
          }))
          entries
  IsForeign-entries anchor group [] h = tt
  IsForeign-entries anchor group (i ∷ is) (inl f, h) = (inl f, IsForeign-entries anchor group is h)
  IsForeign-entries anchor group (i ∷ is) (inr f, h) =
      (inr (not_first_admin _ _ f), IsForeign-entries anchor group is h)

  -- Entries that are signed for another group, or by somebody who is not the group's first admin,
  -- leave the roster as it is seeded.
  pub outsiders_change_nothing :
      (entries : List (FoldInput GroupPermission)) (anchor : GroupAnchor) (group : ℕ)
      → All
          (λ i.
            ((i.verified.entry.group_id == group) ≡ false)
            ⊎ (normalize_did i.verified.issuer
                ≢ normalize_did (or_default anchor.controller anchor.creator_did)))
          entries
      → (fold_roster normalize_did entries anchor group).0 ≡ record {
        roles = (normalize_did (or_default anchor.controller anchor.creator_did), admin) ∷ [];
      }
  unfolding fold_roster fold_ledger scoped_reducer role_reducer
  outsiders_change_nothing entries anchor group h =
      foreign_from group entries _ (IsForeign-entries anchor group entries h)
