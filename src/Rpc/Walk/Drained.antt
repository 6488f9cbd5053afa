-- ===== src/Rpc/Walk/Drained.antt =====
-- packages/rpc/src/peer.ts, `walkCommits`: a walk reads the whole log behind its cursor.
use kumiai.Rpc.Walk.Steps.{
  page_joins, some_limit, length-drop, full_page_goes_on, walk_page_full_page, full_page_not_empty,
  length-take_full, short_page_ends, walk_step, walk_page_short, last_position_page, take_short,
  read_out, walk_messages-cursor,
}
use kumiai.HubServer.MemoryStore.Pages.{reached}
use kumiai.HubServer.MemoryStore.History.{Call}
use kumiai.Rpc.Walk.Behind.{
  reached-IsReadable, gap_behind_page, behind_page, page-forward, empty_page_at_head, last_in_page,
  fetched_page, behind, IsReadable,
}
use kumiai.HubServer.MemoryStore.Read.{fetch_topic, has_gap, is_subscribed}
use kumiai.Rpc.Walk.Pages.{page_of}
use kumiai.Rpc.Classify.Lane.{LaneFrame}
use kumiai.Rpc.Walk.{
  page_params, walk_commits, commit_fetch_limit, walk_messages, is_empty, WalkState,
}
use kumiai.HubServer.MemoryStore.{MemoryStoreOptions, ok, Store, StoredMessage}
use kumiai.Shared.{
  subst, take, drop, ◌∙◌, ℕ, zero, suc, ◌≤◌, ◌<◌, ◌≡◌, sym, ap, inl, inr, true, false, some, List,
  ltb, arith, length, Bool-cases,
}
use kumiai.Shared.Map
use kumiai.Shared.Map.{Map, get-set, get-delete, get-empty}

module _ (frame_of : StoredMessage → LaneFrame) where
  module _ (did topic : ℕ) (s : Store) (readable : IsReadable topic s)
      (subscribed : is_subscribed did topic s ≡ true) where
    cursor_after_page :
        (w : WalkState)
        → let page = take commit_fetch_limit (behind topic s w.reconciled_head) in
          is_empty page ≡ false
          → (walk_messages frame_of page w).1 ≡ true
          → (walk_messages frame_of page w).0.reconciled_head
            ≡ some (last_in_page topic s readable commit_fetch_limit w.reconciled_head)
    cursor_after_page w e goes_on =
        let page = take commit_fetch_limit (behind topic s w.reconciled_head) in
        walk_messages-cursor frame_of page w goes_on ∙ last_position_page w.reconciled_head page e

    left_behind :
        (w v : WalkState)
        → v.reconciled_head
          ≡ some (last_in_page topic s readable commit_fetch_limit w.reconciled_head)
        → behind topic s v.reconciled_head
          ≡ drop commit_fetch_limit (behind topic s w.reconciled_head)
    left_behind w v cursor =
        ap (λ c. behind topic s c) cursor
        ∙ behind_page topic s readable commit_fetch_limit w.reconciled_head

    -- A walk with no gap behind its cursor.
    walk_complete :
        (pages : ℕ) (w : WalkState)
        → has_gap (Map.get topic s.removed_through) w.reconciled_head ≡ false
        → length (behind topic s w.reconciled_head) < pages
        → walk_commits frame_of pages did topic s w
          ≡ read_out
              (Map.get topic s.heads)
              (walk_messages frame_of (behind topic s w.reconciled_head) w)
    walk_complete zero w gap fuel = absurd (omega arith)
    walk_complete (suc pages) w gap fuel =
        let ms = behind topic s w.reconciled_head in
        let page = take commit_fetch_limit ms in
        let head = Map.get topic s.heads in
        let (oldest, fetched) =
          fetched_page topic s readable did commit_fetch_limit w.reconciled_head subscribed gap in
        elim (Bool-cases (ltb (length ms) commit_fetch_limit)) [
          | inl short ↦
              let whole = take_short commit_fetch_limit ms (ground (arith, short)) in
              let walked =
                walk_page_short frame_of ms head oldest w
                  (empty_page_at_head topic s readable w.reconciled_head gap)
                  (ground (arith, short)) in
              walk_step frame_of did topic s pages (page_of ms head oldest) w _
                (subst
                  (λ z.
                    fetch_topic (page_params frame_of did topic w) s ≡ ok (page_of z head oldest))
                  whole fetched)
                walked
              ∙ short_page_ends frame_of did topic pages s head (walk_messages frame_of ms w)
          | inr long ↦
              let filled : commit_fetch_limit ≤ length ms = ground (arith, long) in
              let full = length-take_full commit_fetch_limit ms (ground (arith, long)) in
              let some_message = full_page_not_empty page full in
              let walked =
                walk_page_full_page frame_of page head oldest w some_message full
                  (page-forward topic s readable commit_fetch_limit w.reconciled_head) in
              walk_step frame_of did topic s pages (page_of page head oldest) w _ fetched walked
              ∙ (full_page_goes_on frame_of did topic pages s head
                    (λ v. walk_messages frame_of (drop commit_fetch_limit ms) v)
                    (walk_messages frame_of page w)
                    (λ goes_on.
                      let v = (walk_messages frame_of page w).0 in
                      let cursor = cursor_after_page w some_message goes_on in
                      let rest = left_behind w v cursor in
                      let counted = ap (λ z. length z) rest in
                      walk_complete pages v
                        (subst (λ c. has_gap (Map.get topic s.removed_through) c ≡ false)
                          (sym cursor)
                          (gap_behind_page topic s readable commit_fetch_limit w.reconciled_head
                            gap))
                        (omega (
                          arith,
                          counted,
                          length-drop commit_fetch_limit ms,
                          some_limit,
                          fuel,
                          filled,
                        ))
                      ∙ ap (λ z. read_out head (walk_messages frame_of z v)) rest)
                  ∙ ap (λ z. read_out head z) (sym (page_joins frame_of commit_fetch_limit ms w)))
        ]

  -- A walk that reads the commit log of a hub store, which any history has left, with a cursor that
  -- no removed frame stands behind, ends, and is the same as settling every frame of the log past
  -- the cursor at once, in publish order: it ends at the end of the log, and takes the topic's
  -- head, unless a frame stops it. One page more than there are frames is fuel enough.
  pub walk_commits_drains :
      (o : MemoryStoreOptions) (cs : List Call) (did topic pages : ℕ) (w : WalkState)
      → let s = reached o cs in
        is_subscribed did topic s ≡ true
        → has_gap (Map.get topic s.removed_through) w.reconciled_head ≡ false
        → length (behind topic s w.reconciled_head) < pages
        → walk_commits frame_of pages did topic s w
          ≡ read_out
              (Map.get topic s.heads)
              (walk_messages frame_of (behind topic s w.reconciled_head) w)
  walk_commits_drains o cs did topic pages w subscribed gap fuel =
      walk_complete did topic (reached o cs) (reached-IsReadable topic o cs) subscribed pages w gap
        fuel
