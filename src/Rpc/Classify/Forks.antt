-- ===== src/Rpc/Classify/Forks.antt =====
-- packages/rpc/src/classify.ts: which frames are forks, and which side of a fork stands.
use kumiai.Shared.Text.{precedes-total, precedes-asym}
use kumiai.Shared.{ℕ, ◌<◌, ◌≡◌, ◌≢◌, sym, ◌⊎◌, inl, inr, true, some, arith, Bool-cases}
use kumiai.Shared.Map
use kumiai.Shared.Map.{Map, get-set, get-delete, get-empty}
use kumiai.Rpc.Classify.{
  winning, losing, branch_of, precedes, fork, header, some, ℕ, AppliedCommit, Text, CommitHeader,
  CommitClassifierState, classify_past, classify_commit,
}

-- A frame of an epoch that the peer has passed, with a record of another commit there.
past_fork :
    (s : CommitClassifierState) (h : CommitHeader) (a : AppliedCommit) (d : ℕ) (position : Text)
    → h.epoch < s.epoch
    → Map.get h.epoch s.applied_by_epoch ≡ some a
    → a.digest ≢ d
    → classify_commit
        (record { frame_header = header h; position = position; commit_digest = some d })
        s
      ≡ fork a.sequence_id (branch_of (precedes position a.sequence_id))
unfolding classify_commit classify_past
past_fork s h a d position lt e ne = rw e ground (arith, lt, ne)

-- Two peers that enacted different commits of one epoch, which the log carries at different
-- positions, and that both passed it: each reads the other's commit as a fork, and exactly one of
-- them is on the losing branch, the one whose own commit has the higher sequence ID.
pub one_branch_stands :
    (s t : CommitClassifierState) (h k : CommitHeader) (a b : AppliedCommit)
    → h.epoch ≡ k.epoch
    → h.epoch < s.epoch
    → h.epoch < t.epoch
    → Map.get h.epoch s.applied_by_epoch ≡ some a
    → Map.get h.epoch t.applied_by_epoch ≡ some b
    → a.digest ≢ b.digest
    → a.sequence_id ≢ b.sequence_id
    → let seen_by_s =
        classify_commit
          (record {
            frame_header = header k;
            position = b.sequence_id;
            commit_digest = some b.digest;
          })
          s in
      let seen_by_t =
        classify_commit
          (record {
            frame_header = header h;
            position = a.sequence_id;
            commit_digest = some a.digest;
          })
          t in
      ((precedes b.sequence_id a.sequence_id ≡ true)
        × (seen_by_s ≡ fork a.sequence_id losing)
        × (seen_by_t ≡ fork b.sequence_id winning))
      ⊎ ((precedes a.sequence_id b.sequence_id ≡ true)
          × (seen_by_s ≡ fork a.sequence_id winning)
          × (seen_by_t ≡ fork b.sequence_id losing))
one_branch_stands s t h k a b same sl tl ea eb nd np =
    let p = past_fork s k a b.digest b.sequence_id (omega arith) (rw (sym same) ea) nd in
    let q = past_fork t h b a.digest a.sequence_id tl eb (λ e. nd (sym e)) in
    elim (Bool-cases (precedes b.sequence_id a.sequence_id)) [
      | inl e ↦ inl (e, rw e at p, rw (precedes-asym b.sequence_id a.sequence_id e) at q)
      | inr e ↦
          let f = precedes-total b.sequence_id a.sequence_id (λ e. np (sym e)) e in
          inr (f, rw e at p, rw f at q)
    ]
