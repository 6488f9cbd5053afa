-- ===== src/Mls/Roster.antt =====
-- packages/mls/src/roster.ts: the role reducer and the roster fold, with the group filter and the
-- guard against an empty admin set. `normalize_did` is the token library's `normalizeDID`.
pub mod Authority
use kumiai.Shared.{
  ℕ, zero, suc, ◌+◌, ◌≤◌, ◌<◌, ◌≡◌, refl, Bool, true, false, ◌&&◌, Option, none, some, List, [],
  ◌∷◌, ◌==◌, ltb, if◌then◌else◌, or_default, arith,
}
use Prim.Native.String.{String}
use kumiai.Shared.Map
use kumiai.Shared.Map.{Map}
use kumiai.Mls.Fold.{
  GroupAnchor, LedgerEntry, VerifiedLedgerEntry, LedgerReducer, FoldInput, FoldDrop, fold_ledger,
}

pub data GroupPermission : Type 0 where
  admin member : GroupPermission

abbrev pub is_admin : GroupPermission → Bool
is_admin admin = true
is_admin member = false

abbrev pub role_entry_type : String
role_entry_type = "kumiai.role"

pub record RosterState : Type 0 where
  pub roles : Map GroupPermission

unfoldable pub count_admins : Map GroupPermission → ℕ
count_admins [] = 0
count_admins ((did, permission) ∷ m) = (if is_admin permission then 1 else 0) + count_admins m

unfoldable pub admin_count : RosterState → ℕ
unfolding count_admins
admin_count s = count_admins s.roles

abbrev has_admin_role : Option GroupPermission → Bool
has_admin_role none = false
has_admin_role (some p) = is_admin p

-- `state.roles.get(did) === 'admin'`.
unfoldable pub holds_admin : ℕ → RosterState → Bool
holds_admin did s = has_admin_role (Map.get did s.roles)

module _ (normalize_did : ℕ → ℕ) where
  unfoldable pub role_reducer : LedgerReducer GroupPermission RosterState
  unfolding holds_admin
  role_reducer = record {
    reducer_type = role_entry_type;
    seed = λ anchor. record {
      roles = (normalize_did (or_default anchor.controller anchor.creator_did), admin) ∷ [];
    };
    verify_authority = λ v s. holds_admin (normalize_did v.issuer) s;
    apply = λ v s. record { roles = Map.set (normalize_did v.entry.subject) v.entry.value s.roles };
  }

  unfoldable pub scoped_authority : ℕ → VerifiedLedgerEntry GroupPermission → RosterState → Bool
  unfolding role_reducer admin_count
  scoped_authority group v s =
      (v.entry.group_id == group)
      && (role_reducer.verify_authority v s && ltb 0 (admin_count (role_reducer.apply v s)))

  unfoldable pub scoped_reducer : ℕ → LedgerReducer GroupPermission RosterState
  unfolding role_reducer scoped_authority
  scoped_reducer group = record {
    reducer_type = role_reducer.reducer_type;
    seed = role_reducer.seed;
    verify_authority = scoped_authority group;
    apply = role_reducer.apply;
  }

  unfoldable pub fold_roster :
      List (FoldInput GroupPermission) → GroupAnchor → ℕ → RosterState × List FoldDrop
  unfolding scoped_reducer
  fold_roster entries anchor group = fold_ledger (scoped_reducer group) entries anchor
