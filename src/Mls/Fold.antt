-- ===== src/Mls/Fold.antt =====
-- packages/mls/src/fold.ts and the claim types of packages/mls/src/ledger.ts: the replay of a
-- verified ledger into one reducer's projection. Entry types are texts; DIDs, groups and entry IDs
-- are numbers, which are only tested for equality.
use kumiai.Shared.{
  Option-cases, ℕ, ◌≡◌, Bool, not, Option, none, some, List, [], ◌∷◌, if◌then◌else◌, inl, inr,
}
use Prim.Native.String.{String}
use text.Mathlib.Text.{◌==◌ as str_eq}

-- What the folds read of the genesis anchor.
pub record GroupAnchor : Type 0 where
  pub creator_did : ℕ
  pub controller : Option ℕ

pub record LedgerEntry (V : Type 0) : Type 0 where
  pub entry_type : String
  pub group_id : ℕ
  pub subject : ℕ
  pub value : V

pub record VerifiedLedgerEntry (V : Type 0) : Type 0 where
  pub issuer : ℕ
  pub entry : LedgerEntry V

pub record LedgerReducer (V S : Type 0) : Type 0 where
  pub reducer_type : String
  pub seed : GroupAnchor → S
  pub verify_authority : VerifiedLedgerEntry V → S → Bool
  pub apply : VerifiedLedgerEntry V → S → S

pub record FoldInput (V : Type 0) : Type 0 where
  pub verified : VerifiedLedgerEntry V
  pub entry_id : ℕ

pub data DropReason : Type 0 where
  unrelated_type not_authorized : DropReason

pub record FoldDrop : Type 0 where
  pub dropped_id : ℕ
  pub dropped_type : String
  pub reason : DropReason

unfoldable pub drop_of : {V : Type 0} → FoldInput V → DropReason → FoldDrop
drop_of i why = record {
  dropped_id = i.entry_id;
  dropped_type = i.verified.entry.entry_type;
  reason = why;
}

abbrev report : {V : Type 0} → FoldInput V → Option DropReason → List FoldDrop → List FoldDrop
report i none drops = drops
report i (some why) drops = drop_of i why ∷ drops

module _ {V S : Type 0} where
  -- Why an entry is skipped in a state, if it is.
  unfoldable pub skip_reason : LedgerReducer V S → FoldInput V → S → Option DropReason
  skip_reason r i s =
      if not (str_eq i.verified.entry.entry_type r.reducer_type)
      then some unrelated_type
      else if r.verify_authority i.verified s
      then none
      else some not_authorized

  -- The state and what the `onDrop` observer is told, in order.
  abbrev advance : LedgerReducer V S → FoldInput V → Option DropReason → S → S
  advance r i none s = r.apply i.verified s
  advance r i (some why) s = s

  unfoldable pub fold_from : LedgerReducer V S → List (FoldInput V) → S → S × List FoldDrop
  unfolding skip_reason drop_of
  fold_from r [] s = (s, [])
  fold_from r (i ∷ is) s =
      let why = skip_reason r i s in
      let rest = fold_from r is (advance r i why s) in (rest.0, report i why rest.1)

  unfoldable pub fold_ledger :
      LedgerReducer V S → List (FoldInput V) → GroupAnchor → S × List FoldDrop
  unfolding fold_from
  fold_ledger r entries anchor = fold_from r entries (r.seed anchor)

  -- An invariant of every authorized step is an invariant of the fold.
  pub fold_from_induction :
      (P : S → Type 0) (r : LedgerReducer V S)
      → ((i : FoldInput V) (s : S) → skip_reason r i s ≡ none → P s → P (r.apply i.verified s))
      → (is : List (FoldInput V)) (s : S) → P s
      → P (fold_from r is s).0
  unfolding fold_from
  fold_from_induction P r keep [] s h = h
  fold_from_induction P r keep (i ∷ is) s h = elim (Option-cases (skip_reason r i s)) [
    | inl e ↦ rw e (fold_from_induction P r keep is (r.apply i.verified s) (keep i s e h))
    | inr (why, e) ↦ rw e (fold_from_induction P r keep is s h)
  ]
