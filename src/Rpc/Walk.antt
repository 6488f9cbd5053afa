-- ===== src/Rpc/Walk.antt =====
-- packages/rpc/src/peer.ts, `walkCommits`: the commit log read page by page from the hub store of
-- HubServer/MemoryStore.antt, each frame settled as in Rpc/Classify/Lane.antt. Positions are the
-- counters that the store's sequence IDs print. What decoding a message and asking the port gives,
-- `frame_of`, is a parameter; `lane_frame` of Rpc/LaneMessage.antt is the decoding of the lane. The
-- app lane's floor is its `covered` mark. A walk that is `stopped` has returned or thrown there. The
-- early return on a pending recovery, disposal between frames, the observers and
-- the durable cursor are left out.
pub mod Pages
pub mod Behind
pub mod Steps
pub mod Drained
pub mod Covered
use kumiai.Shared.{
  ℕ, zero, suc, ◌+◌, ◌-◌, ◌*◌, ◌≤◌, ◌<◌, ◌≡◌, ◌≢◌, refl, sym, ap, ◌⊎◌, ◌↔◌, inl, inr, Bool, true,
  false, not, ◌&&◌, ◌||◌, Option, none, some, List, [], ◌∷◌, ◌++◌, ◌==◌, ltb, leb, if◌then◌else◌,
  or_default, is_some, arith, All, length, Bool-cases, Option-cases, ==_iff, ==_refl, ==_ne, min,
  max, map, has, erase,
}
use kumiai.Shared.Map
use kumiai.Shared.Map.{Map, get-set, get-delete, get-empty}
use kumiai.Rpc.Classify.Lane.{disposition_of, settle, fall_out, LaneFrame, LaneState}
use kumiai.HubServer.MemoryStore.Read.{fetch_topic, FetchTopicParams, FetchTopicResult}
use kumiai.HubServer.MemoryStore.{Result, ok, err, Store, StoreError, StoredMessage}

-- COMMIT_FETCH_LIMIT
unfoldable pub commit_fetch_limit : ℕ
commit_fetch_limit = 100

pub record WalkState : Type 0 where
  pub lane : LaneState
  pub reconciled_head : Option ℕ
  pub covered : Bool
  pub commit_log_head : Option ℕ

-- How a walk ends: at the end of the log, at a frame that stops it, at a gap behind the cursor, at a
-- page that is out of order, or at an error of the hub.
pub data WalkEnd : Type 0 where
  drained stopped gapped out_of_order exhausted : WalkEnd
  failed : StoreError → WalkEnd

pub data PageEnd : Type 0 where
  more : PageEnd
  ended : WalkEnd → PageEnd

-- `assertForwardPage`
unfoldable pub is_forward_page : Option ℕ → List StoredMessage → Bool
is_forward_page after [] = true
is_forward_page none (m ∷ ms) = is_forward_page (some m.sequence_id) ms
is_forward_page (some previous) (m ∷ ms) =
    let rest = is_forward_page (some m.sequence_id) ms in
    if leb m.sequence_id previous then false else rest

-- `head != null && pageAfter != null && head > pageAfter`
abbrev pub is_past : Option ℕ → Option ℕ → Bool
is_past none after = false
is_past (some head) none = false
is_past (some head) (some after) = ltb after head

abbrev pub is_empty : List StoredMessage → Bool
is_empty [] = true
is_empty (m ∷ ms) = false

unfoldable pub page_gap : FetchTopicResult → Option ℕ → Bool
page_gap r after = r.gap || (is_empty r.messages && is_past r.head after)

abbrev pub take_head : Option ℕ → WalkState → WalkState
take_head head w = record {
  lane = w.lane;
  reconciled_head = w.reconciled_head;
  covered = w.covered;
  commit_log_head = head;
}

abbrev pub uncover : WalkState → WalkState
uncover w = record {
  lane = w.lane;
  reconciled_head = w.reconciled_head;
  covered = false;
  commit_log_head = w.commit_log_head;
}

abbrev pub strand : WalkState → WalkState
strand w = record {
  lane = fall_out w.lane;
  reconciled_head = w.reconciled_head;
  covered = false;
  commit_log_head = w.commit_log_head;
}

-- A frame that the walk is done with moves the cursor to its position.
abbrev pub settled : StoredMessage → LaneState → Bool → WalkState → WalkState
settled m lane goes_on w = record {
  lane = lane;
  reconciled_head = if goes_on then some m.sequence_id else w.reconciled_head;
  covered = w.covered;
  commit_log_head = w.commit_log_head;
}

module _ (frame_of : StoredMessage → LaneFrame) where
  abbrev pub settle_message : StoredMessage → WalkState → LaneState × Bool
  settle_message m w = settle (disposition_of (frame_of m) w.lane.peer) (frame_of m) w.lane

  -- The frames of a page, in order, until one stops the walk.
  unfoldable pub walk_messages : List StoredMessage → WalkState → WalkState × Bool
  unfolding settle disposition_of
  walk_messages [] w = (w, true)
  walk_messages (m ∷ ms) w =
      let (lane, goes_on) = settle_message m w in
      let rest = walk_messages ms (settled m lane goes_on w) in
      if goes_on then rest else (settled m lane goes_on w, false)

  abbrev pub end_page : FetchTopicResult → WalkState → Bool → WalkState × PageEnd
  end_page r w false = (w, ended stopped)
  end_page r w true =
      if ltb (length r.messages) commit_fetch_limit
      then (take_head r.head w, ended drained)
      else (w, more)

  unfoldable pub walk_page : FetchTopicResult → WalkState → WalkState × PageEnd
  unfolding commit_fetch_limit is_forward_page page_gap walk_messages
  walk_page r w =
      let start = if not (is_some w.reconciled_head) && r.gap then uncover w else w in
      if is_some w.reconciled_head && page_gap r w.reconciled_head
      then (strand w, ended gapped)
      else if (length r.messages == commit_fetch_limit)
          && not (is_forward_page w.reconciled_head r.messages)
      then (start, ended out_of_order)
      else if is_empty r.messages
      then (take_head r.head start, ended drained)
      else let (w', goes_on) = walk_messages r.messages start in end_page r w' goes_on

  abbrev pub page_params : ℕ → ℕ → WalkState → FetchTopicParams
  page_params did topic w = record {
    subscriber_did = did;
    topic_id = topic;
    after = w.reconciled_head;
    limit = some commit_fetch_limit;
  }

  abbrev pub read_page : Result FetchTopicResult → WalkState → WalkState × PageEnd
  read_page (err e) w = (w, ended (failed e))
  read_page (ok r) w = walk_page r w

  -- The fuel counts the pages.
  unfoldable pub walk_commits : ℕ → ℕ → ℕ → Store → WalkState → WalkState × WalkEnd
  unfolding commit_fetch_limit walk_page fetch_topic
  walk_commits zero did topic s w = (w, exhausted)
  walk_commits (suc pages) did topic s w =
      let (w', end) = read_page (fetch_topic (page_params did topic w) s) w in
      elim end [ more ↦ walk_commits pages did topic s w' | ended e ↦ (w', e) ]
