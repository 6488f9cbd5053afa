-- ===== src/Rpc/Classify/Lane.antt =====
-- packages/rpc/src/peer.ts, `walkCommits`: what each disposition does to the cursor, the strand
-- mark, the heal request and the applied-commit records. The MLS port's answer to an applicable
-- frame is part of the frame. Observers, commit outcomes, a pending recovery's early return, the
-- second look where the epoch moved under the apply, and disposal at any frame that is not applied
-- are left out.
use kumiai.Shared.{ℕ, Bool, true, false, Option, some, List, [], ◌∷◌, if◌then◌else◌}
use kumiai.Shared.Map
use kumiai.Shared.Map.{Map, get-set, get-delete, get-empty}
use kumiai.Rpc.Classify.{
  winning, losing, apply, poison, history, ahead, own_unmerged, fork, AppliedCommit, Option, Map,
  some, Bool, ℕ, Text, CommitDisposition, CommitFrameEvidence, CommitClassifierState, true,
  classify_commit,
}

-- `processCommit`'s answer: the epoch after an apply, a refusal, or entries that do not resolve; or
-- none, where the port throws or the peer is disposed under the apply.
pub data ApplyOutcome : Type 0 where
  advanced_to : ℕ → ApplyOutcome
  refused unresolvable aborted : ApplyOutcome

pub record LaneFrame : Type 0 where
  pub frame_header : CommitFrameEvidence
  pub position : Text
  pub digest : ℕ
  pub outcome : ApplyOutcome

pub record LaneState : Type 0 where
  pub peer : CommitClassifierState
  pub cursor : Option Text
  pub stranded : Bool
  pub heal_requested : Bool

unfoldable pub record_applied : ℕ → Text → ℕ → Map AppliedCommit → Map AppliedCommit
record_applied epoch position digest m =
    Map.set epoch (record { sequence_id = position; digest = digest }) m

-- `saveCommitCursor(position)`.
abbrev pub step_over : Text → LaneState → LaneState
step_over position s = record {
  peer = s.peer;
  cursor = some position;
  stranded = s.stranded;
  heal_requested = s.heal_requested;
}

abbrev pub fall_out : LaneState → LaneState
fall_out s = record { peer = s.peer; cursor = s.cursor; stranded = true; heal_requested = true }

abbrev pub enact : ℕ → Text → ℕ → CommitClassifierState → CommitClassifierState
enact epoch position digest p = record {
  local_did = p.local_did;
  epoch = epoch;
  applied_by_epoch = record_applied p.epoch position digest p.applied_by_epoch;
}

-- An aborted apply leaves the cursor where it is, and the walk returns or throws.
unfoldable pub settle_apply : ApplyOutcome → LaneFrame → LaneState → LaneState × Bool
unfolding record_applied
settle_apply refused f s = (step_over f.position s, true)
settle_apply unresolvable f s = (step_over f.position s, true)
settle_apply aborted f s = (s, false)
settle_apply (advanced_to epoch) f s = (
  step_over f.position (record {
    peer = enact epoch f.position f.digest s.peer;
    cursor = s.cursor;
    stranded = s.stranded;
    heal_requested = s.heal_requested;
  }),
  true,
)

-- The state after a frame of this disposition, and whether the drain goes on.
unfoldable pub settle : CommitDisposition → LaneFrame → LaneState → LaneState × Bool
unfolding settle_apply
settle own_unmerged f s = (fall_out s, false)
settle ahead f s = (fall_out (step_over f.position s), true)
settle history f s = (step_over f.position s, true)
settle (fork at losing) f s = (fall_out (step_over f.position s), true)
settle (fork at winning) f s = (step_over f.position s, true)
settle poison f s = (step_over f.position s, true)
settle apply f s = settle_apply f.outcome f s

unfoldable pub disposition_of : LaneFrame → CommitClassifierState → CommitDisposition
unfolding classify_commit
disposition_of f p =
    classify_commit
      (record {
        frame_header = f.frame_header;
        position = f.position;
        commit_digest = some f.digest;
      })
      p

-- The frames of the fetched pages, in order; with the frames that the drain has not read.
unfoldable pub drain : List LaneFrame → LaneState → LaneState × List LaneFrame
unfolding disposition_of settle
drain [] s = (s, [])
drain (f ∷ fs) s =
    let (s', goes_on) = settle (disposition_of f s.peer) f s in
    let rest = drain fs s' in if goes_on then rest else (s', f ∷ fs)
