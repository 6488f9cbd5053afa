-- ===== src/Rpc/WalkTests.antt =====
-- Runs of the walk of packages/rpc/src/peer.ts over a hub store. A commit's one byte names the
-- epoch that it is framed at; its committer is member 9, and the port applies it.
use kumiai.Rpc.LaneMessage.{lane_frame}
use kumiai.Rpc.CommitFrame.{CommitFrame}
use kumiai.Rpc.Walk.Drained.{walk_commits_drains}
use kumiai.Rpc.Walk.Behind.{behind}
use kumiai.Rpc.Walk.Steps.{read_out}
use kumiai.HubServer.MemoryStore.Pages.{reached}
use kumiai.Shared.Text.{Text, precedes}
use kumiai.HubServer.MemoryStore.Read.{messages_of, fetch_topic, has_gap, is_subscribed}
use kumiai.HubServer.MemoryStore.Subscriptions.{subscribe}
use kumiai.Rpc.Classify.{CommitHeader, classify_past}
use kumiai.Rpc.Classify.Lane.{ApplyOutcome, record_applied, advanced_to, LaneFrame}
use kumiai.Rpc.Walk.{drained, walk_messages, walk_page, walk_commits, WalkState}
use kumiai.HubServer.MemoryStore.History.{step, publishes, subscribes, run, Call}
use kumiai.HubServer.MemoryStore.Publish.{log_frames, accepted_as, PublishParams, publish}
use kumiai.HubServer.MemoryStore.{create_memory_store, log, MemoryStoreOptions, StoredMessage}
use kumiai.Shared.{Option, ℕ, ◌+◌, ◌≡◌, refl, true, false, none, some, List, [], ◌∷◌, arith}
use kumiai.Shared.Map
use kumiai.Shared.Map.{Map, get-set, get-delete, get-empty}

abbrev options : MemoryStoreOptions
options = record {
  max_depth = 5;
  default_retention = 0;
  max_retention = none;
  max_key_packages_per_did = 2;
  max_subscriptions_per_did = 3;
}

abbrev commit_frame : ℕ → PublishParams
commit_frame epoch = record {
  sender_did = 9;
  topic_id = 7;
  payload = 69 ∷ 75 ∷ 1 ∷ 0 ∷ 1 ∷ 1 ∷ 0 ∷ 0 ∷ 0 ∷ epoch ∷ [];
  retain = some log;
  publish_id = none;
  expected_head = none;
}

abbrev calls : List Call
calls =
    subscribes (record { subscriber_did = 1; topic_id = 7; retention = none })
    ∷ publishes (commit_frame 4) 0
    ∷ publishes (commit_frame 5) 1
    ∷ []

abbrev epoch_of : List ℕ → ℕ
epoch_of [] = 0
epoch_of (epoch ∷ bytes) = epoch

abbrev committed_by_9 : List ℕ → Option CommitHeader
committed_by_9 commit = some (record { epoch = epoch_of commit; committer_did = some 9 })

abbrev applies : CommitFrame → ApplyOutcome
applies f = advanced_to (epoch_of f.commit + 1)

abbrev frame_of : StoredMessage → LaneFrame
frame_of m = lane_frame committed_by_9 epoch_of applies m

abbrev second_id : Text
second_id = 48 ∷ 48 ∷ 48 ∷ 48 ∷ 48 ∷ 48 ∷ 48 ∷ 48 ∷ 48 ∷ 48 ∷ 48 ∷ 50 ∷ []

abbrev fresh_member : WalkState
fresh_member = record {
  lane = record {
    peer = record { local_did = 1; epoch = 5; applied_by_epoch = [] };
    cursor = none;
    stranded = false;
    heal_requested = false;
  };
  reconciled_head = none;
  covered = true;
  commit_log_head = none;
}

-- The frame of a passed epoch is stepped over, the next is applied, and the head is taken.
abbrev caught_up : WalkState
caught_up = record {
  lane = record {
    peer = record {
      local_did = 1;
      epoch = 6;
      applied_by_epoch = (5, record { sequence_id = second_id; digest = 5 }) ∷ [];
    };
    cursor = some second_id;
    stranded = false;
    heal_requested = false;
  };
  reconciled_head = some 2;
  covered = true;
  commit_log_head = some 2;
}

walk_run : walk_commits frame_of 3 1 7 (reached options calls) fresh_member ≡ (caught_up, drained)
unfolding Map.get Map.set Map.keys publish run step subscribe create_memory_store accepted_as
    is_subscribed has_gap walk_commits walk_page fetch_topic log_frames messages_of walk_messages
    precedes classify_past record_applied lane_frame
walk_run = refl

walk_commits_drains_example :
    let s = reached options calls in
    walk_commits frame_of 3 1 7 s fresh_member
    ≡ read_out (Map.get 7 s.heads) (walk_messages frame_of (behind 7 s none) fresh_member)
unfolding Map.get Map.set Map.keys publish run step subscribe create_memory_store accepted_as
    is_subscribed has_gap walk_commits walk_page fetch_topic log_frames messages_of walk_messages
    precedes classify_past record_applied lane_frame
walk_commits_drains_example =
    walk_commits_drains frame_of options calls 1 7 3 fresh_member refl refl (omega arith)
