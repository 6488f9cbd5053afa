-- ===== src/Rpc/Classify.antt =====
-- packages/rpc/src/classify.ts: what the lane does with one frame of the commit log. DIDs, commit
-- digests and epochs are numbers; sequence IDs are texts, since their order decides a fork. The
-- digest of the commit's bytes is an argument, as in the code.
pub mod Lane
pub mod Forks
pub mod Heals
use kumiai.Shared.{
  ℕ, zero, suc, ◌+◌, ◌-◌, ◌*◌, ◌≤◌, ◌<◌, ◌≡◌, ◌≢◌, refl, sym, ap, ◌⊎◌, ◌↔◌, inl, inr, Bool, true,
  false, not, ◌&&◌, ◌||◌, Option, none, some, List, [], ◌∷◌, ◌++◌, ◌==◌, ltb, leb, if◌then◌else◌,
  or_default, is_some, arith, All, length, Bool-cases, Option-cases, ==_iff, ==_refl, ==_ne, min,
  max, map, has, add, erase,
}
use kumiai.Shared.Map
use kumiai.Shared.Map.{Map, get-set, get-delete, get-empty}
use kumiai.Shared.Text.{Text, precedes}

pub data Branch : Type 0 where
  winning losing : Branch

pub data CommitDisposition : Type 0 where
  apply ahead history own_unmerged poison : CommitDisposition
  fork : Text → Branch → CommitDisposition

-- `CommitHeader`: the cleartext epoch, and the committer where the port authenticated one.
pub record CommitHeader : Type 0 where
  pub epoch : ℕ
  pub committer_did : Option ℕ

pub data CommitFrameEvidence : Type 0 where
  header : CommitHeader → CommitFrameEvidence
  not_a_commit unknown_frame_version : CommitFrameEvidence

pub record AppliedCommit : Type 0 where
  pub sequence_id : Text
  pub digest : ℕ

pub record CommitClassifierState : Type 0 where
  pub local_did : ℕ
  pub epoch : ℕ
  pub applied_by_epoch : Map AppliedCommit

pub record ClassifyCommitParams : Type 0 where
  pub frame_header : CommitFrameEvidence
  pub position : Text
  pub commit_digest : Option ℕ

abbrev pub branch_of : Bool → Branch
branch_of true = losing
branch_of false = winning

-- Below the peer's epoch, by the record of that epoch and the frame's digest.
unfoldable pub classify_past : Option AppliedCommit → Option ℕ → Text → CommitDisposition
unfolding precedes
classify_past none digest position = history
classify_past (some applied) none position = history
classify_past (some applied) (some digest) position =
    if digest == applied.digest
    then history
    else fork applied.sequence_id (branch_of (precedes position applied.sequence_id))

-- At the peer's epoch, by the authenticated committer.
abbrev pub classify_present : Option ℕ → ℕ → CommitDisposition
classify_present none local_did = poison
classify_present (some committer) local_did = if committer == local_did then own_unmerged else apply

unfoldable pub classify_commit : ClassifyCommitParams → CommitClassifierState → CommitDisposition
unfolding classify_past
classify_commit p s = elim p.frame_header [
  | unknown_frame_version ↦ ahead
  | not_a_commit ↦ poison
  | header h ↦
      if ltb s.epoch h.epoch
      then ahead
      else if ltb h.epoch s.epoch
      then classify_past (Map.get h.epoch s.applied_by_epoch) p.commit_digest p.position
      else classify_present h.committer_did s.local_did
]
