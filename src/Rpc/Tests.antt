-- ===== src/Rpc/Tests.antt =====
-- Runs of packages/rpc/src/classify.ts and of the drain of packages/rpc/src/peer.ts.
use kumiai.Rpc.Outbox.Fence.{fence_holds, begins, outbox_step, loads, OutboxCall, outbox_run}
use kumiai.Rpc.Outbox.{
  lowest_unresolved_seq, create_app_outbox_acceptance, begin_accept, load, AppInput,
}
use kumiai.Shared.{
  ℕ, ◌≤◌, ◌≡◌, ◌≢◌, refl, ◌⊎◌, inl, inr, true, false, Option, none, some, List, [], ◌∷◌, arith, All,
  has,
}
use kumiai.Shared.Map
use kumiai.Shared.Map.{Map, get-set, get-delete, get-empty}
use kumiai.Rpc.Classify.Forks.{one_branch_stands}
use kumiai.Rpc.Classify.Heals.{heal_needs_cause, replays_only_move_the_cursor, HasCause}
use kumiai.Rpc.Classify.Lane.{disposition_of, settle, refused, LaneState, LaneFrame, drain}
use kumiai.Rpc.Classify.{
  winning, losing, fork, CommitClassifierState, header, classify_commit, CommitHeader,
  AppliedCommit,
}
use kumiai.Shared.Text.{precedes, Text}

abbrev first_position : Text
first_position = 48 ∷ 49 ∷ []

abbrev second_position : Text
second_position = 48 ∷ 50 ∷ []

abbrev at_epoch : ℕ → Option ℕ → CommitHeader
at_epoch epoch committer = record { epoch = epoch; committer_did = committer }

abbrev enacted : Text → ℕ → AppliedCommit
enacted at digest = record { sequence_id = at; digest = digest }

abbrev peer_with : AppliedCommit → CommitClassifierState
peer_with a = record { local_did = 1; epoch = 5; applied_by_epoch = (4, a) ∷ [] }

one_branch_stands_example :
    let seen_by_s =
      classify_commit
        (record {
          frame_header = header (at_epoch 4 none);
          position = second_position;
          commit_digest = some 71;
        })
        (peer_with (enacted first_position 70)) in
    let seen_by_t =
      classify_commit
        (record {
          frame_header = header (at_epoch 4 none);
          position = first_position;
          commit_digest = some 70;
        })
        (peer_with (enacted second_position 71)) in
    ((precedes second_position first_position ≡ true)
      × (seen_by_s ≡ fork first_position losing)
      × (seen_by_t ≡ fork second_position winning))
    ⊎ ((precedes first_position second_position ≡ true)
        × (seen_by_s ≡ fork first_position winning)
        × (seen_by_t ≡ fork second_position losing))
one_branch_stands_example =
    one_branch_stands (peer_with (enacted first_position 70))
      (peer_with (enacted second_position 71)) (at_epoch 4 none) (at_epoch 4 none)
      (enacted first_position 70) (enacted second_position 71) refl (omega arith) (omega arith)
      (unfold Map.get in refl) (unfold Map.get in refl) (omega arith) distinct_positions
  where
    distinct_positions : first_position ≢ second_position
    distinct_positions = λ e. ground (arith, e)

abbrev lane : LaneState
lane = record {
  peer = peer_with (enacted first_position 70);
  cursor = none;
  stranded = false;
  heal_requested = false;
}

abbrev frame_at : ℕ → ℕ → LaneFrame
frame_at epoch digest = record {
  frame_header = header (at_epoch epoch none);
  position = second_position;
  digest = digest;
  outcome = refused;
}

heal_needs_cause_example : HasCause (header (at_epoch 6 none)) 90 second_position lane.peer
heal_needs_cause_example =
    heal_needs_cause (frame_at 6 90) lane refl
      (unfold settle disposition_of classify_commit in refl)

replays_only_move_the_cursor_example : drain (frame_at 4 70 ∷ frame_at 3 12 ∷ []) lane ≡ (
  record {
    peer = lane.peer;
    cursor = some second_position;
    stranded = false;
    heal_requested = false;
  },
  [],
)
replays_only_move_the_cursor_example =
    replays_only_move_the_cursor (frame_at 4 70 ∷ frame_at 3 12 ∷ []) lane (
      (
        at_epoch 4 none,
        refl,
        omega arith,
        inr (enacted first_position 70, unfold Map.get in refl, refl),
      ),
      ((at_epoch 3 none, refl, omega arith, inl (unfold Map.get in refl)), tt),
    )

abbrev note : AppInput
note = record { protocol = 1; prc = 2; bytes = 3 ∷ [] }

abbrev two_writes : List OutboxCall
two_writes = loads [] ∷ begins note true ∷ begins note true ∷ []

fence_holds_example :
    (has 0 (outbox_run (create_app_outbox_acceptance 5) two_writes).reservations ≡ true)
    × All
        (λ seq. 0 ≤ seq)
        (outbox_run
          (outbox_run (create_app_outbox_acceptance 5) two_writes)
          (begins note true ∷ [])).reservations
unfolding outbox_run outbox_step load begin_accept create_app_outbox_acceptance
    lowest_unresolved_seq Map.size
fence_holds_example = fence_holds 5 0 two_writes (begins note true ∷ []) refl
