-- ===== src/Rpc/Classify/Heals.antt =====
-- packages/rpc/src/peer.ts and classify.ts: what may make a peer heal, and what a drain leaves.
use kumiai.Rpc.Classify.Lane.{
  aborted, unresolvable, refused, advanced_to, ApplyOutcome, settle_apply, step_over, LaneState,
  settle, drain, LaneFrame, disposition_of,
}
use kumiai.Rpc.Classify.{
  winning, apply, poison, losing, not_a_commit, own_unmerged, unknown_frame_version, header, ahead,
  AppliedCommit, Text, history, fork, CommitHeader, classify_commit, CommitFrameEvidence,
  CommitDisposition, CommitClassifierState, classify_past, classify_present,
}
use kumiai.Shared.{
  ℕ, ◌<◌, ◌≡◌, ◌≢◌, refl, ◌⊎◌, inl, inr, Bool, true, false, ◌||◌, Option, none, some, List, [], ◌∷◌,
  ◌==◌, ltb, arith, All, Bool-cases, Option-cases,
}
use kumiai.Shared.Map
use kumiai.Shared.Map.{Map, get-set, get-delete, get-empty}
use kumiai.Shared.Text.{precedes}

-- What a frame may show that makes a peer leave its line: an unreadable wire version, an epoch
-- ahead, the peer itself as authenticated committer at its own epoch, or another commit than the
-- one it enacted at a passed epoch, at a lower position.
abbrev pub HasCause : CommitFrameEvidence → ℕ → Text → CommitClassifierState → Type 0
HasCause not_a_commit digest position s = ⊥
HasCause unknown_frame_version digest position s = Unit
HasCause (header h) digest position s =
    (s.epoch < h.epoch)
    ⊎ (((h.epoch ≡ s.epoch) × (h.committer_did ≡ some s.local_did))
        ⊎ ((a : AppliedCommit) × (Map.get h.epoch s.applied_by_epoch ≡ some a)
            × (h.epoch < s.epoch)
            × (digest ≢ a.digest)
            × (precedes position a.sequence_id ≡ true)))

abbrev pub heals : CommitDisposition → Bool
heals ahead = true
heals own_unmerged = true
heals (fork at losing) = true
heals _ = false

settle_apply-heal_requested :
    (a : ApplyOutcome) (f : LaneFrame) (s : LaneState)
    → (settle_apply a f s).0.heal_requested ≡ s.heal_requested
unfolding settle_apply
settle_apply-heal_requested refused f s = refl
settle_apply-heal_requested unresolvable f s = refl
settle_apply-heal_requested aborted f s = refl
settle_apply-heal_requested (advanced_to epoch) f s = refl

settle-heal_requested :
    (d : CommitDisposition) (f : LaneFrame) (s : LaneState)
    → (settle d f s).0.heal_requested ≡ (heals d || s.heal_requested)
unfolding settle
settle-heal_requested ahead f s = refl
settle-heal_requested own_unmerged f s = refl
settle-heal_requested history f s = refl
settle-heal_requested poison f s = refl
settle-heal_requested apply f s = settle_apply-heal_requested f.outcome f s
settle-heal_requested (fork at losing) f s = refl
settle-heal_requested (fork at winning) f s = refl

present_cause :
    (committer : Option ℕ) (local : ℕ)
    → heals (classify_present committer local) ≡ true
    → committer ≡ some local
present_cause none local h = cc
present_cause (some c) local h = ground (arith, h)

past_cause :
    (applied : AppliedCommit) (digest : ℕ) (position : Text)
    → heals (classify_past (some applied) (some digest) position) ≡ true
    → (digest ≢ applied.digest) × (precedes position applied.sequence_id ≡ true)
unfolding classify_past
past_cause applied digest position h = elim (Bool-cases (digest == applied.digest)) [
  | inl e ↦ absurd (ground (arith, e, h))
  | inr e ↦ elim (Bool-cases (precedes position applied.sequence_id)) [
    | inl f ↦ (ground (arith, e), f)
    | inr f ↦ absurd (ground (arith, e, f, h))
  ]
]

header_cause :
    (h : CommitHeader) (digest : ℕ) (position : Text) (s : CommitClassifierState)
    → heals (
        classify_commit
          (record { frame_header = header h; position = position; commit_digest = some digest })
          s)
      ≡ true
    → HasCause (header h) digest position s
unfolding classify_commit
header_cause h digest position s e = elim (Bool-cases (ltb s.epoch h.epoch)) [
  | inl a ↦ inl (ground (arith, a))
  | inr a ↦ elim (Bool-cases (ltb h.epoch s.epoch)) [
    | inl b ↦ elim (Option-cases (Map.get h.epoch s.applied_by_epoch)) [
      | inl g ↦ absurd (unfold classify_past in ground (arith, a, b, g, e))
      | inr (applied, g) ↦
          let (ne, lower) = past_cause applied digest position (ground (arith, a, b, g, e)) in
          inr (inr (applied, g, ground (arith, b), ne, lower))
    ]
    | inr b ↦ inr (
        inl (
          ground (arith, a, b),
          present_cause h.committer_did s.local_did (ground (arith, a, b, e)),
        ))
  ]
]

evidence_cause :
    (e : CommitFrameEvidence) (digest : ℕ) (position : Text) (s : CommitClassifierState)
    → heals (
        classify_commit
          (record { frame_header = e; position = position; commit_digest = some digest })
          s)
      ≡ true
    → HasCause e digest position s
evidence_cause unknown_frame_version digest position s h = tt
evidence_cause not_a_commit digest position s h = unfold classify_commit in cc
evidence_cause (header k) digest position s h = header_cause k digest position s h

disposition_cause :
    (f : LaneFrame) (s : CommitClassifierState)
    → heals (disposition_of f s) ≡ true
    → HasCause f.frame_header f.digest f.position s
unfolding disposition_of
disposition_cause f s h = evidence_cause f.frame_header f.digest f.position s h

-- A frame makes a peer heal only with cause: poison, history, a refused or unresolvable commit, an
-- unauthenticated committer and the winning side of a fork never do.
pub heal_needs_cause :
    (f : LaneFrame) (s : LaneState)
    → s.heal_requested ≡ false
    → (settle (disposition_of f s.peer) f s).0.heal_requested ≡ true
    → HasCause f.frame_header f.digest f.position s.peer
heal_needs_cause f s quiet h =
    disposition_cause f s.peer
      (ground (arith, quiet, h, settle-heal_requested (disposition_of f s.peer) f s))

-- The frame stands at a passed epoch, and the peer has no record there or one of this very commit.
abbrev pub IsReplay : CommitClassifierState → LaneFrame → Type 0
IsReplay s f =
    (h : CommitHeader) × (f.frame_header ≡ header h)
    × (h.epoch < s.epoch)
    × ((Map.get h.epoch s.applied_by_epoch ≡ none)
        ⊎ ((a : AppliedCommit) × (Map.get h.epoch s.applied_by_epoch ≡ some a)
            × (a.digest ≡ f.digest)))

replay_disposition :
    (f : LaneFrame) (s : CommitClassifierState) → IsReplay s f → disposition_of f s ≡ history
unfolding disposition_of classify_commit classify_past
replay_disposition f s (h, e, lt, inl g) = rw (e, g) ground (arith, lt)
replay_disposition f s (h, e, lt, inr (a, g, d)) = rw (e, g) ground (arith, lt, d)

abbrev pub last_position : List LaneFrame → Option Text → Option Text
last_position [] c = c
last_position (f ∷ fs) c = last_position fs (some f.position)

-- Draining a log of replays, in any order and at any positions, moves only the cursor: the peer
-- reads every frame, keeps its epoch and its records, is not stranded and asks for no heal.
pub replays_only_move_the_cursor :
    (fs : List LaneFrame) (s : LaneState)
    → All (IsReplay s.peer) fs
    → drain fs s ≡ (
      record {
        peer = s.peer;
        cursor = last_position fs s.cursor;
        stranded = s.stranded;
        heal_requested = s.heal_requested;
      },
      [],
    )
unfolding drain settle
replays_only_move_the_cursor [] s h = refl
replays_only_move_the_cursor (f ∷ fs) s (r, h) =
    rw (replay_disposition f s.peer r) (replays_only_move_the_cursor fs (step_over f.position s) h)
